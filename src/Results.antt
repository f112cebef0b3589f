-- ===== src/Results.antt =====
-- The result contracts of src/selcal/contracts_v2.py: the checks of a result vector, a replicate
-- outcome and a calibration result; and the execution budget of src/selcal/calibration_v2.py.
pub mod Vectors
pub mod Outcome
pub mod Run
pub mod Calibration
pub mod Budget
pub mod Tests
use selcal.Prelude.{
  ℕ, List, [], ◌∷◌, Bool, true, false, not, ◌&&◌, ◌||◌, Option, none, some, map, get_elem?, leb,
  length, if◌then◌else◌,
}
use selcal.Prelude.Int.{ℤ, leb_ℤ, ltb_ℤ, eqb_ℤ}
use selcal.Errors.{
  Result, ok, err, value_error, index_error, integrity_error, raise_if, or_raise, on_value_error,
  ◌>>=◌, ◌>>◌,
}
use selcal.Floats.{Float64}
use selcal.Candidates.{canonical_candidates, is_empty}
use selcal.Contracts.{Validity, valid, analytic_failure, StatisticResult, SelectionResult}
use selcal.Selection.{max_score}
use selcal.Selection.Family.{is_some, is_valid}
use selcal.Nulls.Token.{equal_labels, is_subset}

-- `min(values)`
unfoldable pub min_label : List ℤ → Result ℤ
min_label [] = err value_error
min_label (x ∷ []) = ok x
min_label (x ∷ y ∷ ys) = do rest ← min_label (y ∷ ys); ok (if ltb_ℤ rest x then rest else x)

module _ (fl : Float64) where
  open fl use {Float, zero, is_finite, flt, fle, feq}

  -- `tuple(result.candidate_id for result in results)`
  abbrev pub candidate_ids : List (StatisticResult Float) → List ℤ
  candidate_ids results = map (λ r. r.candidate_id) results

  abbrev prepend : Option Float → List Float → List Float
  prepend none rest = rest
  prepend (some x) rest = x ∷ rest

  -- The scores that are not None
  unfoldable pub present_scores : List (StatisticResult Float) → List Float
  present_scores [] = []
  present_scores (r ∷ rs) = prepend r.selection_score (present_scores rs)

  unfoldable pub any_unscored : List (StatisticResult Float) → Bool
  any_unscored [] = false
  any_unscored (r ∷ rs) =
      (not (is_valid r.validity) || not (is_some r.selection_score)) || any_unscored rs

  unfoldable pub any_failure : List (StatisticResult Float) → Bool
  any_failure [] = false
  any_failure (r ∷ rs) = not (is_valid r.validity) || any_failure rs

  unfoldable pub any_scored : List (StatisticResult Float) → Bool
  any_scored [] = false
  any_scored (r ∷ rs) = is_some r.selection_score || any_scored rs

  -- `_require_statistic_vector`
  unfoldable pub require_statistic_vector :
      Bool → List (StatisticResult Float) → Result (List (StatisticResult Float))
  require_statistic_vector allow_empty results = do
    raise_if (not allow_empty && is_empty results) integrity_error
    if is_empty results then ok results else (do
      canonical_ids ← on_value_error integrity_error (canonical_candidates (candidate_ids results))
      raise_if (not (equal_labels (candidate_ids results) canonical_ids)) integrity_error
      ok results)

  -- `_validate_complete_scored_vector`; `_require_selection` refuses a missing selection.
  unfoldable pub validate_complete_scored_vector :
      List (StatisticResult Float)
      → Option (SelectionResult Float)
      → Result (List ℤ × SelectionResult Float)
  validate_complete_scored_vector statistic_results selection = do
    results ← require_statistic_vector false statistic_results
    raise_if (any_unscored results) integrity_error
    exact_selection ← or_raise selection integrity_error
    let ids = candidate_ids results
    raise_if (leb (length results) exact_selection.selected_index) integrity_error
    selected ← or_raise (get_elem? ids exact_selection.selected_index) index_error
    raise_if (not (eqb_ℤ selected exact_selection.selected_candidate)) integrity_error
    raise_if (not (is_subset exact_selection.tied_candidates ids)) integrity_error
    label ← min_label exact_selection.tied_candidates
    raise_if (not (eqb_ℤ exact_selection.selected_candidate label)) integrity_error
    maximum_score ← max_score fl (present_scores results)
    raise_if (not (feq exact_selection.decision_statistic maximum_score)) integrity_error
    ok (ids, exact_selection)

  -- `_validate_raw_failure_vector`
  unfoldable pub validate_raw_failure_vector : List (StatisticResult Float) → Result (List ℤ)
  validate_raw_failure_vector statistic_results = do
    results ← require_statistic_vector false statistic_results
    raise_if (not (any_failure results)) integrity_error
    raise_if (any_scored results) integrity_error
    ok (candidate_ids results)
