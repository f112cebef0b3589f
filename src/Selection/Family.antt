-- ===== src/Selection/Family.antt =====
-- `select_family_v2` of src/selcal/selection_v2.py, with its fail-closed guards in order.
pub mod Spec
pub mod Steps
pub mod Laws
pub mod Tests
use selcal.Prelude.{
  ℕ, List, [], ◌∷◌, Bool, true, false, not, ◌||◌, Option, none, some, if◌then◌else◌, get_elem?,
  length, ◌==◌, ◌≡◌,
}
use selcal.Prelude.Int.{ℤ, eqb_ℤ}
use selcal.Errors.{Result, ok, err, index_error, integrity_error, raise_if, or_raise, ◌>>=◌, ◌>>◌}
use selcal.Floats.{Float64}
use selcal.Candidates.{is_empty, any_not_positive}
use selcal.Contracts.{
  SelectionRule, Validity, valid, analytic_failure, StatisticResult, SelectionResult,
  statistic_result, selection_result,
}
use selcal.Arrays.{lookup_all}
use selcal.Selection.{any_not_increasing, first_index, score_of, max_score, tied_indices}

-- `_exact_candidates`
unfoldable pub exact_candidates : List ℤ → Result (List ℤ)
unfolding any_not_positive any_not_increasing
exact_candidates candidates = do
  raise_if (is_empty candidates || any_not_positive candidates) integrity_error
  raise_if (any_not_increasing candidates) integrity_error
  ok candidates

abbrev pub is_valid : Validity → Bool
is_valid valid = true
is_valid analytic_failure = false

abbrev pub is_some {ℓ} : {A : Type ℓ} → Option A → Bool
is_some none = false
is_some (some a) = true

module _ (fl : Float64) where
  open fl use {Float, zero, is_finite, flt, feq}

  -- `0.0 if score == 0.0 else score`
  abbrev pub unsigned_zero : Float → Float
  unsigned_zero score = if feq score zero then zero else score

  -- One round of the scoring loop.
  unfoldable pub score_result : SelectionRule → ℤ → StatisticResult Float → Result Float
  unfolding score_of
  score_result rule expected result = do
    raise_if (not (eqb_ℤ result.candidate_id expected)) integrity_error
    raise_if (not (is_valid result.validity)) integrity_error
    raise_if (is_some result.selection_score) integrity_error
    estimate ← or_raise result.estimate integrity_error
    raise_if (not (is_finite estimate)) integrity_error
    ok (unsigned_zero (score_of fl rule estimate))

  -- The loop over `zip(candidates, results, strict=True)`.
  unfoldable pub score_family :
      SelectionRule → List ℤ → List (StatisticResult Float) → Result (List Float)
  unfolding score_result
  score_family rule [] [] = ok []
  score_family rule (c ∷ cs) (r ∷ rs) = do
    score ← score_result rule c r
    scores ← score_family rule cs rs
    ok (score ∷ scores)
  score_family rule cs rs = err integrity_error

  -- `replace(result, selection_score=score)` for each result and its score.
  unfoldable pub replace_scores :
      List (StatisticResult Float) → List Float → Result (List (StatisticResult Float))
  replace_scores [] [] = ok []
  replace_scores (r ∷ rs) (s ∷ ss) = do
    scored ← statistic_result fl (record r { selection_score = some s })
    rest ← replace_scores rs ss
    ok (scored ∷ rest)
  replace_scores rs ss = err integrity_error

  unfoldable pub select_family_v2 :
      List (StatisticResult Float)
      → List ℤ
      → SelectionRule
      → Float
      → Result (SelectionResult Float × List (StatisticResult Float))
  select_family_v2 results expected_candidates rule tie_tolerance = do
    candidates ← exact_candidates expected_candidates
    raise_if (not (is_finite tie_tolerance)) integrity_error
    raise_if (flt tie_tolerance zero) integrity_error
    let tolerance = unsigned_zero tie_tolerance
    raise_if (not (length results == length candidates)) integrity_error
    scores ← score_family rule candidates results
    decision_statistic ← max_score fl scores
    let tied = tied_indices fl 0 decision_statistic tolerance scores
    selected_index ← first_index tied
    scored_results ← replace_scores results scores
    selected_candidate ← or_raise (get_elem? candidates selected_index) index_error
    tied_candidates ← lookup_all candidates tied
    selection ← selection_result fl (record {
      selected_candidate = selected_candidate;
      selected_index = selected_index;
      decision_statistic = decision_statistic;
      tied_candidates = tied_candidates;
    })
    ok (selection, scored_results)
