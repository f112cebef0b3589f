-- ===== src/Candidates/Sort.antt =====
-- `set`, `in` and `sorted` of the language, on lists of ints.
use selcal.Prelude.{List, [], ◌∷◌, Bool, false, ◌||◌, if◌then◌else◌}
use selcal.Prelude.Int.{ℤ, leb_ℤ, eqb_ℤ}

-- `x in xs`
unfoldable pub contains : ℤ → List ℤ → Bool
contains x [] = false
contains x (y ∷ ys) = eqb_ℤ x y || contains x ys

-- `len(set(xs)) != len(xs)`
unfoldable pub has_duplicates : List ℤ → Bool
unfolding contains
has_duplicates [] = false
has_duplicates (x ∷ xs) = contains x xs || has_duplicates xs

unfoldable pub insert_sorted : ℤ → List ℤ → List ℤ
insert_sorted x [] = x ∷ []
insert_sorted x (y ∷ ys) = if leb_ℤ x y then x ∷ y ∷ ys else y ∷ insert_sorted x ys

-- `sorted(xs)`
unfoldable pub sorted : List ℤ → List ℤ
unfolding insert_sorted
sorted [] = []
sorted (x ∷ xs) = insert_sorted x (sorted xs)
