-- ===== src/Results/Tests.antt =====
-- Calibration results of one replicate, and their checks.
use selcal.Prelude.{
  ◌+◌, ◌*◌, ◌≤◌, [], ◌∷◌, true, false, Option, some, none, ◌≡◌, ◌↔◌, refl, replicate,
}
use selcal.Prelude.Int.{ℤ, pos}
use selcal.Errors.{ok, err, integrity_error}
use selcal.Floats.Sample.{sample_float}
use selcal.Floats.Order.{max_from}
use selcal.Candidates.{canonical_candidates, any_not_positive, has_duplicates, sorted, contains}
use selcal.Contracts.{valid, analytic_failure, StatisticResult, SelectionResult}
use selcal.Selection.{max_score}
use selcal.Random.Seed.{all_hex}
use selcal.Random.Seed.Bytes.{is_hex_digit}
use selcal.Arrays.{equal_numbers}
use selcal.Nulls.Token.{
  Text, token_schema, circular_state_schema, circular_shift_v2, circular, NullTransformToken,
  require_sha256, equal_labels, is_subset,
}
use selcal.Results.{
  min_label, present_scores, any_unscored, any_failure, any_scored, require_statistic_vector,
  validate_complete_scored_vector, validate_raw_failure_vector,
}
use selcal.Results.Outcome.{ReplicateStatus, statistic_scan, ReplicateOutcome}
use selcal.Results.Run.{
  RunStatus, not_evaluable, replicate_execution, CalibrationResult, require_alpha,
  require_optional_probability, any_misnumbered, require_exact_b_ids, any_disagreement,
  require_candidate_agreement, require_tokens, require_run_token_ownership, any_incomplete,
  count_exceedances, count_retained_exceedances, count_failures,
}
use selcal.Results.Calibration.{
  validate_complete, validate_replicate_failure, validate_by_stage, calibration_result,
}
use selcal.Results.Calibration.Counts.{kept, replaced, done, counts_enclose}
use selcal.Results.Calibration.Complete.{IsDecided}
use selcal.Results.Calibration.Failure.{IsBounded}
use selcal.Results.Calibration.Accepted.{calibration_result-complete, calibration_result-bounds}
use selcal.Results.Budget.{require_execution_budget, require_execution_budget_iff}

abbrev pub digest : Text
digest = replicate 64 97

abbrev token : NullTransformToken
token = record {
  schema = token_schema;
  null_name = circular_shift_v2;
  null_parameter_sha256 = digest;
  semantic_input_sha256 = digest;
  scientific_plan_sha256 = digest;
  bound_null_owner_sha256 = digest;
  is_identity = false;
  state = circular (record { schema = circular_state_schema; shift = 2 });
}

abbrev pub scored : StatisticResult (Option ℤ)
scored = record {
  candidate_id = pos 1;
  estimate = some (some (pos 3));
  selection_score = some (some (pos 3));
  support_n = pos 20;
  validity = valid;
  diagnostics = [];
  backend_identity = "backend";
  preprocessing_identity = "none";
}

abbrev failed : StatisticResult (Option ℤ)
failed = record scored { estimate = none; selection_score = none; validity = analytic_failure }

abbrev pub chosen : SelectionResult (Option ℤ)
chosen = record {
  selected_candidate = pos 1;
  selected_index = 0;
  decision_statistic = some (pos 3);
  tied_candidates = pos 1 ∷ [];
}

abbrev pub complete_outcome : ReplicateOutcome (Option ℤ)
complete_outcome = record {
  replicate_id = pos 0;
  seed_digest_sha256 = digest;
  status = ReplicateStatus.complete;
  failure_stage = none;
  transform_token = token;
  statistic_results = scored ∷ [];
  selection = some chosen;
  diagnostics = [];
}

abbrev failed_outcome : ReplicateOutcome (Option ℤ)
failed_outcome = record complete_outcome {
  status = ReplicateStatus.analytic_failure;
  failure_stage = some statistic_scan;
  statistic_results = failed ∷ [];
  selection = none;
}

-- One replicate reaches the observed statistic: p = (1 + 1) / (1 + 1), in hundredths.
abbrev pub complete_run : CalibrationResult (Option ℤ)
complete_run = record {
  status = RunStatus.complete;
  failure_stage = none;
  semantic_input_sha256 = digest;
  scientific_plan_sha256 = digest;
  planned_replicates = 1;
  alpha = some (pos 5);
  observed_results = scored ∷ [];
  observed_selection = some chosen;
  replicates = complete_outcome ∷ [];
  exceedance_count = 1;
  failure_count = 0;
  p_value = some (some (pos 100));
  exceedance_bound_low = none;
  exceedance_bound_high = none;
  reject_null = some false;
  diagnostics = [];
}

-- One replicate failed: the bounds are 1 / 2 and 2 / 2.
abbrev pub failed_run : CalibrationResult (Option ℤ)
failed_run = record complete_run {
  status = not_evaluable;
  failure_stage = some replicate_execution;
  replicates = failed_outcome ∷ [];
  exceedance_count = 0;
  failure_count = 1;
  p_value = none;
  exceedance_bound_low = some (some (pos 50));
  exceedance_bound_high = some (some (pos 100));
  reject_null = none;
}

program : Unit {0}
unfolding calibration_result validate_by_stage validate_complete validate_replicate_failure
    require_alpha require_optional_probability require_statistic_vector
    validate_complete_scored_vector validate_raw_failure_vector min_label present_scores
    any_unscored any_failure any_scored require_exact_b_ids any_misnumbered
    require_candidate_agreement any_disagreement require_run_token_ownership require_tokens
    any_incomplete count_exceedances count_retained_exceedances count_failures require_sha256
    all_hex is_hex_digit equal_labels is_subset equal_numbers canonical_candidates any_not_positive
    has_duplicates sorted contains max_score max_from
program = tt

complete_run_accepted : calibration_result sample_float complete_run ≡ ok complete_run
unfolding program
complete_run_accepted = refl

failed_run_accepted : calibration_result sample_float failed_run ≡ ok failed_run
unfolding program
failed_run_accepted = refl

-- A p-value or a decision that the stored outcomes do not give is refused.
contradictions :
    (calibration_result sample_float (record complete_run { p_value = some (some (pos 50)) })
      ≡ err integrity_error)
    × (calibration_result sample_float (record complete_run { reject_null = some true })
        ≡ err integrity_error)
    × (calibration_result sample_float (record complete_run { exceedance_count = 0 })
        ≡ err integrity_error)
unfolding program
contradictions = (refl, refl, refl)

calibration_result-complete_example :
    (s : SelectionResult (Option ℤ)) × (complete_run.observed_selection ≡ some s)
    × IsDecided sample_float complete_run s.decision_statistic
calibration_result-complete_example =
    calibration_result-complete sample_float complete_run complete_run_accepted refl

calibration_result-bounds_example :
    (s : SelectionResult (Option ℤ)) × (failed_run.observed_selection ≡ some s)
    × IsBounded sample_float failed_run s.decision_statistic
calibration_result-bounds_example =
    calibration_result-bounds sample_float failed_run failed_run_accepted refl refl

counts_enclose_example :
    (count_retained_exceedances sample_float (some (pos 3)) (complete_outcome ∷ failed_outcome ∷ [])
      ≤ count_exceedances sample_float (some (pos 3)) (complete_outcome ∷ complete_outcome ∷ []))
    × (count_exceedances sample_float (some (pos 3)) (complete_outcome ∷ complete_outcome ∷ [])
        ≤ count_retained_exceedances sample_float
            (some (pos 3))
            (complete_outcome ∷ failed_outcome ∷ [])
          + count_failures sample_float (complete_outcome ∷ failed_outcome ∷ []))
counts_enclose_example =
    counts_enclose sample_float (some (pos 3))
      (kept refl (replaced {new = complete_outcome} refl done))

require_execution_budget_iff_example : (require_execution_budget 999 5 100 1 ≡ ok tt) ↔ (
    (1 ≤ 999)
    × (1 ≤ 5)
    × (1 ≤ 100)
    × (1 ≤ 1)
    × (999 ≤ 1_000)
    × (999 * 5 ≤ 5_000)
    × (999 * 1 ≤ 25_000)
    × (999 * (5 * 100 + 1 + 100) ≤ 2_500_000))
require_execution_budget_iff_example = require_execution_budget_iff 999 5 100 1
