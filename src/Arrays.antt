-- ===== src/Arrays.antt =====
-- Reads and writes of tuples and NumPy vectors by position, as several components make them.
pub mod Laws
use selcal.Prelude.{
  ℕ, zero, suc, ◌+◌, ◌-◌, ◌*◌, ◌%◌, ◌≤◌, ◌<◌, List, [], ◌∷◌, ◌++◌, Bool, true, false, ◌&&◌, Option,
  none, some, ◌≡◌, length, get_elem?, take, drop, if◌then◌else◌, leb, ltb, ◌==◌,
}
use selcal.Errors.{Result, ok, err, index_error, value_error, or_raise, raise_if, ◌>>=◌, ◌>>◌}

-- `tuple(xs[index] for index in indices)`
unfoldable pub lookup_all {ℓ} : {A : Type ℓ} → List A → List ℕ → Result (List A)
lookup_all xs [] = ok []
lookup_all xs (i ∷ is) = do
  x ← or_raise (get_elem? xs i) index_error
  rest ← lookup_all xs is
  ok (x ∷ rest)

-- `(index - shift) % length` of the language, whose remainder is never negative.
unfoldable pub sub_mod : ℕ → ℕ → ℕ → ℕ
sub_mod index shift length =
    if leb shift index then (index - shift) % length else length - 1 - (shift - index - 1) % length

-- `values[start:stop]`
abbrev pub slice {ℓ} : {A : Type ℓ} → ℕ → ℕ → List A → List A
slice start stop values = drop start (take stop values)

-- `==` of two lists of ints
unfoldable pub equal_numbers : List ℕ → List ℕ → Bool
equal_numbers [] [] = true
equal_numbers [] (y ∷ ys) = false
equal_numbers (x ∷ xs) [] = false
equal_numbers (x ∷ xs) (y ∷ ys) = x == y && equal_numbers xs ys
