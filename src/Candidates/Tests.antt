-- ===== src/Candidates/Tests.antt =====
-- `canonical_candidates` on small inputs.
use mathlib.Core.List.{Perm}
use selcal.Prelude.{◌≡◌, refl, List, [], ◌∷◌, ◌↔◌}
use selcal.Prelude.Int.{ℤ, pos, negsuc}
use selcal.Errors.{ok, err, value_error}
use selcal.Candidates.Sort.{sorted, has_duplicates}
use selcal.Candidates.{canonical_candidates, any_not_positive, IsCanonical}
use selcal.Candidates.Laws.{canonical_candidates_iff}

canonical_mixed :
    canonical_candidates (pos 5 ∷ pos 1 ∷ pos 3 ∷ []) ≡ ok (pos 1 ∷ pos 3 ∷ pos 5 ∷ [])
unfolding canonical_candidates any_not_positive has_duplicates sorted
canonical_mixed = refl

canonical_refused :
    (canonical_candidates (pos 5 ∷ negsuc 0 ∷ []) ≡ err value_error)
    × (canonical_candidates (pos 5 ∷ pos 5 ∷ []) ≡ err value_error)
unfolding canonical_candidates any_not_positive has_duplicates sorted
canonical_refused = (refl, refl)

abbrev two_lags : List ℤ
two_lags = pos 1 ∷ pos 5 ∷ []

canonical_candidates_iff_example :
    (canonical_candidates (pos 5 ∷ pos 1 ∷ []) ≡ ok two_lags)
    ↔ (IsCanonical two_lags × Perm two_lags (pos 5 ∷ pos 1 ∷ []))
canonical_candidates_iff_example = canonical_candidates_iff (pos 5 ∷ pos 1 ∷ []) two_lags
