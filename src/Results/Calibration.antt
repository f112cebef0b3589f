-- ===== src/Results/Calibration.antt =====
-- `CalibrationResult` of src/selcal/contracts_v2.py: the run's result, accepted only if its counts,
-- its p-value or bounds and its decision follow from the outcomes that it stores.
pub mod Counts
pub mod Tallies
pub mod Complete
pub mod Failure
pub mod Accepted
use selcal.Prelude.{
  ℕ, suc, ◌+◌, List, [], ◌∷◌, Bool, true, false, not, ◌&&◌, ◌||◌, Option, none, some, String,
  length, ltb, ◌==◌, if◌then◌else◌,
}
use selcal.Prelude.Int.{ℤ, pos, negsuc, eqb_ℤ}
use selcal.Errors.{Result, ok, err, integrity_error, raise_if, ◌>>=◌, ◌>>◌}
use selcal.Arrays.{equal_numbers}
use selcal.Floats.{Float64}
use selcal.Candidates.{is_empty}
use selcal.Contracts.{StatisticResult, SelectionResult}
use selcal.Selection.Family.{is_some}
use selcal.Nulls.Token.{Text, NullTransformToken, require_sha256, equal_labels, differ}
use selcal.Results.{
  candidate_ids, require_statistic_vector, validate_complete_scored_vector,
  validate_raw_failure_vector,
}
use selcal.Results.Outcome.{ReplicateStatus, ReplicateOutcome}
use selcal.Results.Run.{
  RunStatus, complete, not_evaluable, RunFailureStage, null_bind, observed_statistic_scan,
  replicate_execution, CalibrationResult, is_complete, not_exactly, require_alpha,
  require_optional_probability, any_misnumbered, require_exact_b_ids, any_disagreement,
  require_candidate_agreement, require_tokens, require_run_token_ownership, any_incomplete, reaches,
  count_exceedances, count_retained_exceedances, count_failures, not_equal,
  require_no_decision_fields,
}

module _ (fl : Float64) where
  open fl use {Float, fle, ratio}

  -- `_validate_complete`
  unfoldable pub validate_complete : CalibrationResult Float → Result (Unit {0})
  validate_complete r = do
    raise_if (is_some r.failure_stage) integrity_error
    observed ← validate_complete_scored_vector fl r.observed_results r.observed_selection
    require_exact_b_ids fl r.replicates r.planned_replicates
    require_run_token_ownership fl r.replicates r.semantic_input_sha256 r.scientific_plan_sha256
    raise_if (any_incomplete fl r.replicates) integrity_error
    require_candidate_agreement fl observed.0 r.replicates
    raise_if (not (r.failure_count == 0)) integrity_error
    let derived_exceedances = count_exceedances fl observed.1.decision_statistic r.replicates
    raise_if (not (r.exceedance_count == derived_exceedances)) integrity_error
    let expected_p = ratio (1 + derived_exceedances) (r.planned_replicates + 1)
    raise_if (not_equal fl r.p_value expected_p) integrity_error
    raise_if (is_some r.exceedance_bound_low || is_some r.exceedance_bound_high) integrity_error
    raise_if (not_exactly r.reject_null (fle expected_p r.alpha)) integrity_error
    ok tt

  -- `_validate_null_bind`
  unfoldable pub validate_null_bind : CalibrationResult Float → Result (Unit {0})
  validate_null_bind r = do
    raise_if
        (not (is_empty r.observed_results)
          || (is_some r.observed_selection
              || (not (is_empty r.replicates)
                  || (not (r.exceedance_count == 0) || not (r.failure_count == 0)))))
        integrity_error
    require_no_decision_fields fl r

  -- `_validate_observed_failure`
  unfoldable pub validate_observed_failure : CalibrationResult Float → Result (Unit {0})
  validate_observed_failure r = do
    ids ← validate_raw_failure_vector fl r.observed_results
    raise_if
        (is_some r.observed_selection
          || (not (is_empty r.replicates)
              || (not (r.exceedance_count == 0) || not (r.failure_count == 0))))
        integrity_error
    require_no_decision_fields fl r

  -- `_validate_replicate_failure`
  unfoldable pub validate_replicate_failure : CalibrationResult Float → Result (Unit {0})
  validate_replicate_failure r = do
    observed ← validate_complete_scored_vector fl r.observed_results r.observed_selection
    require_exact_b_ids fl r.replicates r.planned_replicates
    require_run_token_ownership fl r.replicates r.semantic_input_sha256 r.scientific_plan_sha256
    require_candidate_agreement fl observed.0 r.replicates
    let derived_failures = count_failures fl r.replicates
    raise_if (ltb derived_failures 1 || not (r.failure_count == derived_failures)) integrity_error
    let derived_exceedances =
        count_retained_exceedances fl observed.1.decision_statistic r.replicates
    raise_if (not (r.exceedance_count == derived_exceedances)) integrity_error
    raise_if (ltb r.planned_replicates (r.exceedance_count + r.failure_count)) integrity_error
    raise_if (is_some r.p_value || is_some r.reject_null) integrity_error
    let expected_low = ratio (1 + derived_exceedances) (r.planned_replicates + 1)
    let expected_high =
        ratio (1 + derived_exceedances + derived_failures) (r.planned_replicates + 1)
    raise_if
        (not_equal fl r.exceedance_bound_low expected_low
          || not_equal fl r.exceedance_bound_high expected_high)
        integrity_error
    ok tt

  -- The branch of `__post_init__` on the status and the failure stage
  unfoldable pub validate_by_stage :
      RunStatus → Option RunFailureStage → CalibrationResult Float → Result (Unit {0})
  validate_by_stage complete stage r = validate_complete r
  validate_by_stage not_evaluable none r = err integrity_error
  validate_by_stage not_evaluable (some null_bind) r = validate_null_bind r
  validate_by_stage not_evaluable (some observed_statistic_scan) r = validate_observed_failure r
  validate_by_stage not_evaluable (some replicate_execution) r = validate_replicate_failure r

  -- `CalibrationResult.__post_init__`
  unfoldable pub calibration_result : CalibrationResult Float → Result (CalibrationResult Float)
  calibration_result r = do
    semantic ← require_sha256 r.semantic_input_sha256
    plan ← require_sha256 r.scientific_plan_sha256
    raise_if (ltb r.planned_replicates 1) integrity_error
    raise_if (ltb 1_000_000 r.planned_replicates) integrity_error
    alpha ← require_alpha fl r.alpha
    observed_results ← require_statistic_vector fl true r.observed_results
    raise_if (ltb r.planned_replicates r.exceedance_count) integrity_error
    raise_if (ltb r.planned_replicates r.failure_count) integrity_error
    p_value ← require_optional_probability fl r.p_value
    bound_low ← require_optional_probability fl r.exceedance_bound_low
    bound_high ← require_optional_probability fl r.exceedance_bound_high
    let normalized = record r {
      alpha = alpha;
      p_value = p_value;
      exceedance_bound_low = bound_low;
      exceedance_bound_high = bound_high;
    }
    validate_by_stage normalized.status normalized.failure_stage normalized
    ok normalized

  -- `_terminal_result` of src/selcal/calibration_v2.py
  unfoldable pub terminal_result :
      Text
      → Text
      → ℕ
      → Float
      → RunFailureStage
      → List (StatisticResult Float)
      → List String
      → Result (CalibrationResult Float)
  terminal_result semantic_digest plan_digest planned_replicates alpha failure_stage
        observed_results diagnostics =
      calibration_result (record {
        status = not_evaluable;
        failure_stage = some failure_stage;
        semantic_input_sha256 = semantic_digest;
        scientific_plan_sha256 = plan_digest;
        planned_replicates = planned_replicates;
        alpha = alpha;
        observed_results = observed_results;
        observed_selection = none;
        replicates = [];
        exceedance_count = 0;
        failure_count = 0;
        p_value = none;
        exceedance_bound_low = none;
        exceedance_bound_high = none;
        reject_null = none;
        diagnostics = diagnostics;
      })
