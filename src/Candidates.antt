-- ===== src/Candidates.antt =====
-- Candidate lags: `canonical_candidates` of src/selcal/contracts.py. A lag is a Python int, a
-- signed integer without bounds. `sorted` of the language is an insertion sort here.
mod Sort
pub mod Perms
pub mod Laws
mod Tests
unfoldable pub use Sort.{contains, has_duplicates, sorted, insert_sorted}
use selcal.Prelude.{List, [], ◌∷◌, Bool, true, false, ◌||◌, if◌then◌else◌}
use selcal.Prelude.Int.{ℤ, pos, leb_ℤ, ◌<ℤ◌}
use selcal.Errors.{Result, ok, value_error, raise_if, ◌>>=◌, ◌>>◌}

-- `not values`
abbrev pub is_empty {ℓ} : {A : Type ℓ} → List A → Bool
is_empty [] = true
is_empty (x ∷ xs) = false

-- `any(candidate <= 0 for candidate in values)`
unfoldable pub any_not_positive : List ℤ → Bool
any_not_positive [] = false
any_not_positive (x ∷ xs) = leb_ℤ x (pos 0) || any_not_positive xs

unfoldable pub canonical_candidates : List ℤ → Result (List ℤ)
canonical_candidates values = do
  raise_if (is_empty values) value_error
  raise_if (any_not_positive values) value_error
  raise_if (has_duplicates values) value_error
  ok (sorted values)

-- Each candidate is larger than the one before it, the first larger than `low`.
abbrev pub Ascending : ℤ → List ℤ → Type 0
Ascending low [] = Unit
Ascending low (x ∷ xs) = (low <ℤ x) × Ascending x xs

-- A non-empty list of positive candidates in strictly increasing order.
abbrev pub IsCanonical : List ℤ → Type 0
IsCanonical [] = ⊥
IsCanonical (x ∷ xs) = Ascending (pos 0) (x ∷ xs)
