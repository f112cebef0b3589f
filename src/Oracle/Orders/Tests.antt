-- ===== src/Oracle/Orders/Tests.antt =====
-- The block oracle on six points in three blocks.
use selcal.Prelude.{ℕ, List, [], ◌∷◌, Option, some, ◌≡◌, refl}
use selcal.Prelude.Tally.{Tally}
use selcal.Prelude.Int.{ℤ, pos}
use selcal.Errors.{Result, ok}
use selcal.Contracts.{SeriesPair}
use selcal.Oracle.Orders.{picks, begin_with, permutations}

abbrev six : List (Option ℤ)
six = some (pos 9) ∷ some (pos 3) ∷ some (pos 1) ∷ some (pos 4) ∷ some (pos 1) ∷ some (pos 5) ∷ []

abbrev six_pair : SeriesPair (Option ℤ)
six_pair = record { source = six; target = six }

-- The first value of the source, which depends on the order
abbrev first_of : List (Option ℤ) → Option ℤ
first_of [] = some (pos 0)
first_of (x ∷ xs) = x

abbrev first_value : SeriesPair (Option ℤ) → Result (Option ℤ)
first_value p = ok (first_of p.source)

three_permutations :
    permutations {A = ℕ} 3 (0 ∷ 1 ∷ 2 ∷ [])
    ≡ (0 ∷ 1 ∷ 2 ∷ [])
      ∷ (0 ∷ 2 ∷ 1 ∷ [])
      ∷ (1 ∷ 0 ∷ 2 ∷ [])
      ∷ (1 ∷ 2 ∷ 0 ∷ [])
      ∷ (2 ∷ 0 ∷ 1 ∷ [])
      ∷ (2 ∷ 1 ∷ 0 ∷ [])
      ∷ []
unfolding permutations begin_with picks
three_permutations = refl
