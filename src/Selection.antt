-- ===== src/Selection.antt =====
-- Choosing a candidate from a complete vector of statistic results: the two selectors, of
-- src/selcal/selection.py and src/selcal/selection_v2.py, and the steps that they share.
pub mod Ties
pub mod Family
pub mod Candidate
use selcal.Prelude.{
  ℕ, suc, List, [], ◌∷◌, Bool, true, false, ◌||◌, Option, none, some, if◌then◌else◌, get_elem?, ◌≡◌,
}
use selcal.Prelude.Int.{ℤ, leb_ℤ}
use selcal.Errors.{Result, ok, err, index_error, value_error, or_raise, ◌>>=◌, ◌>>◌}
use selcal.Floats.{Float64}
use selcal.Floats.Order.{max_from}
use selcal.Contracts.{SelectionRule, max_upper, max_absolute}

-- `any(current >= following for current, following in pairwise(candidates))`
unfoldable pub any_not_increasing : List ℤ → Bool
any_not_increasing [] = false
any_not_increasing (x ∷ []) = false
any_not_increasing (x ∷ y ∷ ys) = leb_ℤ y x || any_not_increasing (y ∷ ys)

-- `indices[0]`
abbrev pub first_index : List ℕ → Result ℕ
first_index [] = err index_error
first_index (i ∷ is) = ok i

module _ (fl : Float64) where
  open fl use {Float, fle, fsub, fabs}

  -- `estimate if rule is SelectionRule.MAX_UPPER else abs(estimate)`
  unfoldable pub score_of : SelectionRule → Float → Float
  score_of max_upper estimate = estimate
  score_of max_absolute estimate = fabs estimate

  -- `max(scores)`
  unfoldable pub max_score : List Float → Result Float
  unfolding max_from
  max_score [] = err value_error
  max_score (x ∷ xs) = ok (max_from fl x xs)

  -- The positions, from `index` on, of the scores within the tolerance of the top score.
  unfoldable pub tied_indices : ℕ → Float → Float → List Float → List ℕ
  tied_indices index top tolerance [] = []
  tied_indices index top tolerance (score ∷ scores) =
      let rest = tied_indices (suc index) top tolerance scores in
      if fle (fsub top score) tolerance then index ∷ rest else rest
