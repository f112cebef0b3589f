-- ===== src/Selection/Candidate.antt =====
-- `select_candidate` of src/selcal/selection.py, the first selector. Its decision statistic is the
-- score of the selected candidate.
mod Steps
pub mod Agrees
mod Tests
use selcal.Prelude.{ℕ, List, [], ◌∷◌, Bool, not, Option, some, if◌then◌else◌, get_elem?, map}
use selcal.Prelude.Int.{ℤ}
use selcal.Errors.{Result, ok, index_error, value_error, raise_if, or_raise, ◌>>=◌, ◌>>◌}
use selcal.Floats.{Float64}
use selcal.Candidates.{is_empty, any_not_positive}
use selcal.Contracts.{
  SelectionRule, StatisticResult, SelectionResult, statistic_result, selection_result,
}
use selcal.Arrays.{lookup_all}
use selcal.Selection.{any_not_increasing, first_index, score_of, max_score, tied_indices}
use selcal.Selection.Family.{is_valid}

abbrev pub candidate_ids : {F : Type 0} → List (StatisticResult F) → List ℤ
candidate_ids results = map (λ result. result.candidate_id) results

module _ (fl : Float64) where
  open fl use {Float, zero, is_finite, flt, feq}

  -- `_finite_real`, of a float
  unfoldable pub finite_real : Float → Result Float
  finite_real value = do
    raise_if (not (is_finite value)) value_error
    ok (if feq value zero then zero else value)

  -- One round of the scoring loop: the score and the scored result.
  unfoldable pub score_candidate :
      SelectionRule → StatisticResult Float → Result (Float × StatisticResult Float)
  unfolding finite_real score_of
  score_candidate rule result = do
    raise_if (not (is_valid result.validity)) value_error
    raw ← or_raise result.estimate value_error
    estimate ← finite_real raw
    let score = score_of fl rule estimate
    scored ←
        statistic_result fl
          (record result { estimate = some estimate; selection_score = some score })
    ok (score, scored)

  -- The scoring loop
  unfoldable pub score_candidates :
      SelectionRule
      → List (StatisticResult Float)
      → Result (List Float × List (StatisticResult Float))
  unfolding score_candidate
  score_candidates rule [] = ok ([], [])
  score_candidates rule (result ∷ results) = do
    first ← score_candidate rule result
    rest ← score_candidates rule results
    ok (first.0 ∷ rest.0, first.1 ∷ rest.1)

  -- From `top = max(scores)` on
  unfoldable pub select_scored :
      Float
      → List Float
      → List (StatisticResult Float)
      → Result (SelectionResult Float × List (StatisticResult Float))
  select_scored tolerance scores scored = do
    top ← max_score fl scores
    let tied = tied_indices fl 0 top tolerance scores
    selected_index ← first_index tied
    selected_candidate ← or_raise (get_elem? (candidate_ids scored) selected_index) index_error
    decision_statistic ← or_raise (get_elem? scores selected_index) index_error
    tied_candidates ← lookup_all (candidate_ids scored) tied
    selection ← selection_result fl (record {
      selected_candidate = selected_candidate;
      selected_index = selected_index;
      decision_statistic = decision_statistic;
      tied_candidates = tied_candidates;
    })
    ok (selection, scored)

  unfoldable pub select_candidate :
      List (StatisticResult Float)
      → SelectionRule
      → Float
      → Result (SelectionResult Float × List (StatisticResult Float))
  unfolding finite_real score_candidates select_scored
  select_candidate results rule tie_tolerance = do
    tolerance ← finite_real tie_tolerance
    raise_if (flt tolerance zero) value_error
    raise_if (is_empty results) value_error
    raise_if (any_not_positive (candidate_ids results)) value_error
    raise_if (any_not_increasing (candidate_ids results)) value_error
    scores ← score_candidates rule results
    select_scored tolerance scores.0 scores.1
