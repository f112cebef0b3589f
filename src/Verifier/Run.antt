-- ===== src/Verifier/Run.antt =====
-- `verify_calibration_result` of src/selcal/contracts_v2.py, which checks a stored result against
-- the sealed context of its plan; Replicate.antt holds the leaves of one replicate. The seed
-- digest and the sealed token verifier are handed to it, and are parameters here as well.
use text.Mathlib.Text.{◌==◌ as text_eq}
use selcal.Prelude.{
  ℕ, suc, List, [], ◌∷◌, Bool, true, false, not, ◌||◌, Option, none, some, String, length, ◌==◌,
  if◌then◌else◌,
}
use selcal.Prelude.Int.{ℤ, ltb_ℤ, ◌+ℤ◌}
use selcal.Errors.{Result, ok, err, value_error, integrity_error, raise_if, or_raise, ◌>>=◌, ◌>>◌}
use selcal.Arrays.{equal_numbers}
use selcal.Floats.{Float64}
use selcal.Candidates.{is_empty}
use selcal.Contracts.{SelectionRule, max_upper, max_absolute, SelectionResult}
use selcal.Nulls.Token.{Text, NullTransformToken, require_sha256, equal_labels}
use selcal.Results.Outcome.{ReplicateOutcome}
use selcal.Results.Run.{
  RunFailureStage, null_bind, observed_statistic_scan, replicate_execution, CalibrationResult,
}
use selcal.Verifier.{
  VectorVerificationPolicy, VerifiedVectorEvidence, verify_complete_vector, verify_failure_vector,
}
use selcal.Verifier.Terminal.{verify_terminal}
use selcal.Verifier.Replicate.{verify_replicate_suffix, verify_replicate_prefix, count_replicate}

-- The sealed context, a tuple of eleven. An object that is compared by `is` is its identity.
pub record ResolutionContext (F : Type 0) : Type 0 where
  pub plan : ℕ
  pub plan_digest : Text
  pub candidates : List ℤ
  pub rule : SelectionRule
  pub planned_replicates : ℕ
  pub alpha : F
  pub tolerance : F
  pub backend_identity : String
  pub preprocessing_identity : String
  pub null_adapter : ℕ
  pub token_verifier : ℕ

-- `rule is other`
abbrev pub same_rule : SelectionRule → SelectionRule → Bool
same_rule max_upper max_upper = true
same_rule max_absolute max_absolute = true
same_rule _ _ = false

-- `max(candidates)`
unfoldable pub max_label : List ℤ → Result ℤ
max_label [] = err value_error
max_label (x ∷ []) = ok x
max_label (x ∷ y ∷ ys) = do rest ← max_label (y ∷ ys); ok (if ltb_ℤ x rest then rest else x)

module _ (fl : Float64) where
  open fl use {Float, zero, is_finite, flt, fle, feq}

  -- `selection_policy`
  unfoldable pub selection_policy :
      ResolutionContext Float → Result (VectorVerificationPolicy Float)
  selection_policy context = do
    raise_if
        (is_empty context.candidates
          || (not (is_finite context.tolerance) || flt context.tolerance zero))
        integrity_error
    ok (record {
      candidates = context.candidates;
      selection_rule = context.rule;
      tie_tolerance = context.tolerance;
      backend_identity = context.backend_identity;
      preprocessing_identity = context.preprocessing_identity;
    })

  -- `result_prefix`; the terminal evidence that it returns is the record itself.
  unfoldable pub result_prefix :
      CalibrationResult Float
      → ResolutionContext Float
      → Result (Text × Text × VectorVerificationPolicy Float)
  result_prefix result context = do
    semantic_digest ← require_sha256 result.semantic_input_sha256
    result_plan_digest ← require_sha256 result.scientific_plan_sha256
    raise_if
        (not (result.planned_replicates == context.planned_replicates)
          || (not (feq result.alpha context.alpha)
              || not (equal_numbers result_plan_digest context.plan_digest)))
        integrity_error
    policy ← selection_policy context
    ok (semantic_digest, result_plan_digest, policy)

  -- `verify_observed`, by the failure stage
  unfoldable pub verify_observed :
      Option RunFailureStage
      → CalibrationResult Float
      → VectorVerificationPolicy Float
      → Result (Option (VerifiedVectorEvidence Float))
  verify_observed (some null_bind) r policy = ok none
  verify_observed (some observed_statistic_scan) r policy = do
    evidence ← verify_failure_vector fl r.observed_results r.observed_selection policy
    ok (some evidence)
  verify_observed (some replicate_execution) r policy = do
    evidence ← verify_complete_vector fl r.observed_results r.observed_selection policy
    ok (some evidence)
  verify_observed none r policy = do
    evidence ← verify_complete_vector fl r.observed_results r.observed_selection policy
    ok (some evidence)

  -- The observed decision statistic that is read from the selection, where the stage has one
  abbrev read_decision : Option (SelectionResult Float) → Result (Option Float)
  read_decision none = err integrity_error
  read_decision (some selection) = ok (some selection.decision_statistic)

  unfoldable pub observed_decision :
      Option RunFailureStage → Option (SelectionResult Float) → Result (Option Float)
  observed_decision (some null_bind) selection = ok none
  observed_decision (some observed_statistic_scan) selection = ok none
  observed_decision (some replicate_execution) selection = read_decision selection
  observed_decision none selection = read_decision selection

  -- `check_final_context`
  unfoldable pub check_final_context :
      ResolutionContext Float → ResolutionContext Float → Text → Result (Unit {0})
  check_final_context context final result_plan_digest =
      raise_if
        (not (final.plan == context.plan)
          || (not (equal_numbers final.plan_digest result_plan_digest)
              || (not (equal_labels final.candidates context.candidates)
                  || (not (same_rule final.rule context.rule)
                      || (not (final.planned_replicates == context.planned_replicates)
                          || (not (feq final.alpha context.alpha)
                              || (not (feq final.tolerance context.tolerance)
                                  || (not (text_eq final.backend_identity context.backend_identity)
                                      || (not (
                                            text_eq final.preprocessing_identity
                                              context.preprocessing_identity)
                                          || (not (final.null_adapter == context.null_adapter)
                                              || not (
                                                  final.token_verifier
                                                  == context.token_verifier)))))))))))
        integrity_error

  module _ (seed_digest : Text → ℕ → ℕ → Result Text)
      (sealed_token_verifier : ℕ
        → ℕ
        → NullTransformToken
        → Text
        → Text
        → ℤ
        → ℕ
        → ℕ
        → Result (Unit {0})) where
    -- The loop over `enumerate(replicates)`, from an id on
    unfoldable pub verify_replicates :
        ResolutionContext Float
        → VectorVerificationPolicy Float
        → Text × Text × ℕ
        → ℤ × ℤ
        → Option Float
        → ℕ
        → List (ReplicateOutcome Float)
        → ℕ
        → ℕ
        → Result (ℕ × ℕ)
    verify_replicates context policy run observed decision expected_id [] exceedances failures =
        ok (exceedances, failures)
    verify_replicates context policy run observed decision expected_id (outcome ∷ outcomes)
          exceedances failures =
        do
          pending ←
              verify_replicate_prefix fl seed_digest sealed_token_verifier outcome
                (record {
                  replicate_id = expected_id;
                  plan_digest = run.1;
                  planned_replicates = run.2;
                  observed_support_n = observed.0;
                })
                policy
          sealed_token_verifier context.token_verifier context.null_adapter pending.transform_token
              run.0 run.1 observed.1 expected_id run.2
          verified ← verify_replicate_suffix fl pending
          counted ←
              count_replicate fl seed_digest sealed_token_verifier verified decision exceedances
                failures
          verify_replicates context policy run observed decision (suc expected_id) outcomes
              counted.0 counted.1

    -- `if terminal[4]: ...`
    unfoldable pub derive_counts :
        ResolutionContext Float
        → VectorVerificationPolicy Float
        → Text × Text × ℕ
        → Option (VerifiedVectorEvidence Float)
        → Option Float
        → List (ReplicateOutcome Float)
        → Result (ℕ × ℕ)
    derive_counts context policy run observed decision [] = ok (0, 0)
    derive_counts context policy run observed decision (o ∷ os) = do
      raise_if (not (length (o ∷ os) == run.2)) integrity_error
      evidence ← or_raise observed integrity_error
      longest ← max_label policy.candidates
      verify_replicates context policy run (evidence.support_n, evidence.support_n +ℤ longest)
          decision 0 (o ∷ os) 0 0

    -- `verify_calibration_result`; the context is read at the start and again at the end.
    unfoldable pub verify_calibration_result :
        CalibrationResult Float
        → ResolutionContext Float
        → ResolutionContext Float
        → Result (Unit {0})
    verify_calibration_result result context final = do
      prefix ← result_prefix result context
      observed ← verify_observed result.failure_stage result prefix.2
      decision ← observed_decision result.failure_stage result.observed_selection
      counts ←
          derive_counts context prefix.2 (prefix.0, prefix.1, result.planned_replicates) observed
            decision result.replicates
      verify_terminal fl result (record {
        exceedances = counts.0;
        failures = counts.1;
        retained_replicates = length result.replicates;
      })
      check_final_context context final prefix.1
