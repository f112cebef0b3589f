-- ===== src/Arrays/Laws.antt =====
-- Reads by position against descriptions of the whole list.
use native.Mathlib.Nat.{mod-eq_of_lt}
use selcal.Prelude.{
  ℕ, suc, ◌+◌, ◌-◌, ◌≤◌, ◌<◌, List, [], ◌∷◌, ◌++◌, true, false, some, ◌≡◌, refl, sym, ap, ◌∙◌,
  arith, length, get_elem?, take, drop, map, leb, length-take, length-drop, length-append,
  length-map, inl, inr, Bool-cases,
}
use selcal.Prelude.Index.{
  range_from, length-range_from, get_elem?-range_from, get_elem?-append_left,
  get_elem?-append_right, get_elem?-drop, get_elem?-take, get_elem?-map,
}
use selcal.Errors.{ok}
use selcal.Arrays.{lookup_all, sub_mod, slice, equal_numbers}

pub length-slice {ℓ} :
    {A : Type ℓ} (start stop : ℕ) (xs : List A)
    → stop ≤ length xs
    → length (slice start stop xs) ≡ stop - start
length-slice start stop xs h = omega (arith, length-drop start (take stop xs), length-take stop xs)

pub get_elem?-slice {ℓ} :
    {A : Type ℓ} (start stop : ℕ) (xs : List A) (i : ℕ)
    → start + i < stop
    → get_elem? (slice start stop xs) i ≡ get_elem? xs (start + i)
get_elem?-slice start stop xs i h =
    get_elem?-drop start (take stop xs) i ∙ get_elem?-take stop xs (start + i) h

pub equal_numbers_refl : (xs : List ℕ) → equal_numbers xs xs ≡ true
unfolding equal_numbers
equal_numbers_refl [] = refl
equal_numbers_refl (x ∷ xs) = ground (arith, equal_numbers_refl xs)

pub equal_numbers-eq : (xs ys : List ℕ) → equal_numbers xs ys ≡ true → xs ≡ ys
unfolding equal_numbers
equal_numbers-eq [] [] h = refl
equal_numbers-eq [] (y ∷ ys) h = cc
equal_numbers-eq (x ∷ xs) [] h = cc
equal_numbers-eq (x ∷ xs) (y ∷ ys) h = ground (arith, equal_numbers-eq xs ys)

-- A lookup that reads, at each position, what another list holds there returns that list.
pub lookup_all_pointwise {ℓ} :
    {A : Type ℓ} (xs : List A) (is : List ℕ) (ys : List A)
    → length is ≡ length ys
    → ((k i : ℕ) → k < length ys → get_elem? is k ≡ some i → get_elem? xs i ≡ get_elem? ys k)
    → lookup_all xs is ≡ ok ys
unfolding lookup_all
lookup_all_pointwise xs [] [] e h = refl
lookup_all_pointwise xs [] (y ∷ ys) e h = absurd (omega arith)
lookup_all_pointwise xs (i ∷ is) [] e h = absurd (omega arith)
lookup_all_pointwise xs (i ∷ is) (y ∷ ys) e h =
    let head : get_elem? xs i ≡ some y = h 0 i (omega arith) refl in
    let rest =
      lookup_all_pointwise xs is ys (omega arith) (λ k j lt f. h (suc k) j (omega arith) f) in
    rw (head, rest)

-- A list turned right by `shift` places: its last `shift` entries come first.
abbrev pub rotated {ℓ} : {A : Type ℓ} → ℕ → List A → List A
rotated shift xs = drop (length xs - shift) xs ++ take (length xs - shift) xs

pub length-rotated {ℓ} :
    {A : Type ℓ} (shift : ℕ) (xs : List A) → length (rotated shift xs) ≡ length xs
length-rotated shift xs =
    let n = length xs - shift in
    omega (arith, length-append (drop n xs) (take n xs), length-drop n xs, length-take n xs)

pub get_elem?-rotated {ℓ} :
    {A : Type ℓ} (shift : ℕ) (xs : List A) (i : ℕ)
    → shift < length xs
    → i < length xs
    → get_elem? (rotated shift xs) i ≡ get_elem? xs (sub_mod i shift (length xs))
unfolding sub_mod
get_elem?-rotated shift xs i hs hi =
    let n = length xs - shift in
    elim (Bool-cases (leb shift i)) [
      | inl right ↦
          let le : shift ≤ i = leb-le right in
          let after : length (drop n xs) ≤ i = omega (arith, length-drop n xs) in
          let bound : i - length (drop n xs) < n = omega (arith, length-drop n xs) in
          let place : i - length (drop n xs) ≡ i - shift = omega (arith, length-drop n xs) in
          let small = mod-eq_of_lt {n = i - shift} {m = length xs} (omega arith) in
          get_elem?-append_right (drop n xs) (take n xs) i after
          ∙ get_elem?-take n xs (i - length (drop n xs)) bound
          ∙ rw (right, small, place)
      | inr left ↦
          let gt : i < shift = leb-lt left in
          let before : i < length (drop n xs) = omega (arith, length-drop n xs) in
          let place : n + i ≡ length xs - 1 - (shift - i - 1) = omega arith in
          let small = mod-eq_of_lt {n = shift - i - 1} {m = length xs} (omega arith) in
          get_elem?-append_left (drop n xs) (take n xs) i before
          ∙ get_elem?-drop n xs i
          ∙ rw (left, small, place)
    ]
  where
    leb-le : leb shift i ≡ true → shift ≤ i
    leb-le e = ground arith

    leb-lt : leb shift i ≡ false → i < shift
    leb-lt e = ground arith

-- Reading at `(index - shift) % length` for every index turns the list right.
pub lookup_all-rotated {ℓ} :
    {A : Type ℓ} (shift : ℕ) (xs : List A)
    → shift < length xs
    → lookup_all xs (map (λ index. sub_mod index shift (length xs)) (range_from 0 (length xs)))
      ≡ ok (rotated shift xs)
lookup_all-rotated shift xs h =
    let n = length xs in
    let f : ℕ → ℕ = λ index. sub_mod index shift n in
    lookup_all_pointwise xs (map f (range_from 0 n)) (rotated shift xs)
      (length-map (range_from 0 n) f ∙ length-range_from 0 n ∙ sym (length-rotated shift xs))
      (λ k i lt e.
        let small : k < n = omega (arith, length-rotated shift xs) in
        let at_k : get_elem? (range_from 0 n) k ≡ some k =
          get_elem?-range_from 0 n k small ∙ ap some (omega arith) in
        let read = get_elem?-map f (range_from 0 n) k at_k in
        let same : some i ≡ some (f k) = sym e ∙ read in
        ap (get_elem? xs) (some-injective same) ∙ sym (get_elem?-rotated shift xs k h small))
  where
    some-injective : {a b : ℕ} → some a ≡ some b → a ≡ b
    some-injective h = cc

drop-length {ℓ} : {A : Type ℓ} (xs : List A) → drop (length xs) xs ≡ []
drop-length [] = refl
drop-length (x ∷ xs) = drop-length xs

take-length {ℓ} : {A : Type ℓ} (xs : List A) → take (length xs) xs ≡ xs
take-length [] = refl
take-length (x ∷ xs) = ap (λ ys. x ∷ ys) (take-length xs)

pub rotated_zero {ℓ} : {A : Type ℓ} (xs : List A) → rotated 0 xs ≡ xs
rotated_zero xs =
    let whole : length xs - 0 ≡ length xs = omega arith in
    rw (whole, drop-length xs, take-length xs)
