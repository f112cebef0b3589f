-- ===== src/Verifier/Tests.antt =====
-- The verifier on a run of one replicate, and on the selection of three lags.
use selcal.Prelude.{ℕ, List, [], ◌∷◌, Option, some, ◌≡◌, refl, arith, map}
use selcal.Prelude.Int.{ℤ, pos, ◌-ℤ◌, ◌+ℤ◌}
use selcal.Errors.{Result, ok, err, integrity_error}
use selcal.Floats.Sample.{sample_float, sample_IsIeee}
use selcal.Floats.Order.{max_from}
use selcal.Arrays.{lookup_all, equal_numbers}
use selcal.Contracts.{max_upper, max_absolute, StatisticResult, SelectionResult}
use selcal.Random.Seed.{all_hex}
use selcal.Random.Seed.Bytes.{is_hex_digit}
use selcal.Nulls.Token.{Text, NullTransformToken, equal_labels, require_sha256}
use selcal.Selection.{score_of, max_score, tied_indices}
use selcal.Selection.Family.{select_family_v2}
use selcal.Selection.Family.Tests.{three_lags, three_results, three-RawFamily}
use selcal.Results.Run.{CalibrationResult}
use selcal.Results.Calibration.Complete.{IsDecided}
use selcal.Results.Calibration.Failure.{IsBounded}
use selcal.Results.Tests.{digest, scored, chosen, complete_run, failed_run}
use selcal.Verifier.{
  VectorVerificationPolicy, VerifiedVectorEvidence, verify_selection, read_statistic, valid_score,
  vector_shape, score_complete_item, complete_loop, verify_complete_vector, count_failure_item,
  failure_loop, verify_failure_vector,
}
use selcal.Verifier.Vector.{ScoredFamily}
use selcal.Verifier.Selected.{IsReselected}
use selcal.Verifier.Complete.{score, verify_complete_vector-reselects, select_family_v2-verifies}
use selcal.Verifier.Terminal.{
  verify_complete, verify_execution, verify_null, verify_observed_scan, verify_by_stage,
  verify_terminal,
}
use selcal.Verifier.Replicate.{
  verify_complete_suffix, verify_failed_suffix, verify_replicate_suffix, verify_identity,
  verify_by_status, verify_replicate_prefix, count_replicate,
}
use selcal.Verifier.Run.{
  ResolutionContext, max_label, selection_policy, result_prefix, verify_observed, observed_decision,
  check_final_context, verify_replicates, derive_counts, verify_calibration_result,
}
use selcal.Verifier.Derived.{HasVerifiedReplicates}
use selcal.Verifier.Accepted.{verify_calibration_result-decides, verify_calibration_result-bounds}

abbrev one_lag : VectorVerificationPolicy (Option ℤ)
one_lag = record {
  candidates = pos 1 ∷ [];
  selection_rule = max_upper;
  tie_tolerance = some (pos 0);
  backend_identity = "backend";
  preprocessing_identity = "none";
}

abbrev three_lag_policy : VectorVerificationPolicy (Option ℤ)
three_lag_policy = record one_lag {
  candidates = three_lags;
  selection_rule = max_absolute;
  tie_tolerance = some (pos 1);
}

abbrev sealed : ResolutionContext (Option ℤ)
sealed = record {
  plan = 0;
  plan_digest = digest;
  candidates = pos 1 ∷ [];
  rule = max_upper;
  planned_replicates = 1;
  alpha = some (pos 5);
  tolerance = some (pos 0);
  backend_identity = "backend";
  preprocessing_identity = "none";
  null_adapter = 1;
  token_verifier = 2;
}

abbrev constant_seed : Text → ℕ → ℕ → Result Text
constant_seed plan replicate_id replicates = ok digest

abbrev any_token : ℕ → ℕ → NullTransformToken → Text → Text → ℤ → ℕ → ℕ → Result (Unit {0})
any_token verifier adapter token semantic plan observed_length replicate_id replicates = ok tt

abbrev verified : CalibrationResult (Option ℤ) → Result (Unit {0})
verified r = verify_calibration_result sample_float constant_seed any_token r sealed sealed

program : Unit {0}
unfolding verify_selection read_statistic valid_score vector_shape score_complete_item complete_loop
    verify_complete_vector count_failure_item failure_loop verify_failure_vector verify_complete
    verify_execution verify_null verify_observed_scan verify_by_stage verify_terminal max_label
    selection_policy result_prefix verify_observed observed_decision check_final_context
    verify_complete_suffix verify_failed_suffix verify_replicate_suffix verify_identity
    verify_by_status verify_replicate_prefix count_replicate verify_replicates derive_counts
    verify_calibration_result max_from lookup_all score_of max_score tied_indices equal_labels
    equal_numbers require_sha256 all_hex is_hex_digit ◌-ℤ◌ ◌+ℤ◌
program = tt

complete_verified : verified complete_run ≡ ok tt
unfolding program
complete_verified = refl

failed_verified : verified failed_run ≡ ok tt
unfolding program
failed_verified = refl

-- A wrong count, a p-value that does not follow, and another plan's alpha are refused.
refusals :
    (verified (record complete_run { exceedance_count = 0 }) ≡ err integrity_error)
    × (verified (record complete_run { p_value = some (some (pos 50)) }) ≡ err integrity_error)
    × (verified (record complete_run { alpha = some (pos 6) }) ≡ err integrity_error)
unfolding program
refusals = (refl, refl, refl)

verify_calibration_result-decides_example :
    (s : SelectionResult (Option ℤ)) × (complete_run.observed_selection ≡ some s)
    × HasVerifiedReplicates sample_float constant_seed any_token sealed sealed complete_run
    × IsDecided sample_float complete_run s.decision_statistic
verify_calibration_result-decides_example =
    verify_calibration_result-decides sample_float constant_seed any_token sealed sealed
      complete_run refl complete_verified

verify_calibration_result-bounds_example :
    (s : SelectionResult (Option ℤ)) × (failed_run.observed_selection ≡ some s)
    × HasVerifiedReplicates sample_float constant_seed any_token sealed sealed failed_run
    × IsBounded sample_float failed_run s.decision_statistic
verify_calibration_result-bounds_example =
    verify_calibration_result-bounds sample_float constant_seed any_token sealed sealed failed_run
      refl refl failed_verified

abbrev one_evidence : VerifiedVectorEvidence (Option ℤ)
one_evidence = record {
  support_n = pos 20;
  decision_statistic = some (some (pos 3));
  analytic_failure_count = 0;
}

one_accepted :
    verify_complete_vector sample_float (scored ∷ []) (some chosen) one_lag ≡ ok one_evidence
unfolding program
one_accepted = refl

verify_complete_vector-reselects_example :
    (s : SelectionResult (Option ℤ)) × (top : Option ℤ) × (some chosen ≡ some s)
    × ScoredFamily sample_float one_lag (pos 20) (pos 1 ∷ []) (scored ∷ [])
    × IsReselected sample_IsIeee one_lag s (map (score sample_IsIeee one_lag) (scored ∷ [])) top
    × (one_evidence.decision_statistic ≡ some top)
    × (one_evidence.analytic_failure_count ≡ 0)
verify_complete_vector-reselects_example =
    verify_complete_vector-reselects sample_IsIeee one_lag (scored ∷ []) (some chosen) refl refl
      one_accepted

select_family_v2-verifies_example :
    (selection : SelectionResult (Option ℤ)) × (family : List (StatisticResult (Option ℤ)))
    × (select_family_v2 sample_float three_results three_lags max_absolute (some (pos 1))
        ≡ ok (selection, family))
    × (verify_complete_vector sample_float family (some selection) three_lag_policy
        ≡ ok (record {
          support_n = pos 20;
          decision_statistic = some selection.decision_statistic;
          analytic_failure_count = 0;
        }))
select_family_v2-verifies_example =
    select_family_v2-verifies sample_IsIeee three_lag_policy three_results (pos 20) (omega arith)
      three-RawFamily
      (
        record { supported = refl; backend = refl; preprocessing = refl },
        (
          record { supported = refl; backend = refl; preprocessing = refl },
          (record { supported = refl; backend = refl; preprocessing = refl }, tt),
        ),
      )
      refl refl
