-- ===== src/Verifier/Replicate.antt =====
-- The replicate leaves of src/selcal/_verifier_primitives_v2.py, and the counting of one replicate by
-- `verify_calibration_result` of src/selcal/contracts_v2.py.
use selcal.Prelude.{ℕ, suc, Bool, true, false, not, ◌||◌, Option, none, some, if◌then◌else◌}
use selcal.Prelude.Int.{ℤ, pos, eqb_ℤ}
use selcal.Errors.{Result, ok, integrity_error, assertion_error, raise_if, or_raise, ◌>>=◌, ◌>>◌}
use selcal.Arrays.{equal_numbers}
use selcal.Floats.{Float64}
use selcal.Contracts.{SelectionResult}
use selcal.Selection.Family.{is_some}
use selcal.Nulls.Token.{Text, NullTransformToken}
use selcal.Results.Outcome.{ReplicateStatus, ReplicateFailureStage, ReplicateOutcome}
use selcal.Results.Run.{is_complete}
use selcal.Verifier.{
  VectorVerificationPolicy, VerifiedVectorEvidence, verify_complete_vector, verify_failure_vector,
}

pub record ReplicateExpectation : Type 0 where
  pub replicate_id : ℕ
  pub plan_digest : Text
  pub planned_replicates : ℕ
  pub observed_support_n : ℤ

pub record PendingReplicateEvidence (F : Type 0) : Type 0 where
  pub support_n : ℤ
  pub pre_token_decision_statistic : Option F
  pub is_failure : Bool
  pub selection : Option (SelectionResult F)
  pub transform_token : NullTransformToken
  pub replicate_status : ReplicateStatus
  pub replicate_failure_stage : Option ReplicateFailureStage

pub record VerifiedReplicateEvidence (F : Type 0) : Type 0 where
  pub support_n : ℤ
  pub decision_statistic : Option F
  pub is_failure : Bool

module _ (fl : Float64) where
  open fl use {Float, fle}

  -- `verify_replicate_suffix`
  unfoldable pub verify_complete_suffix :
      PendingReplicateEvidence Float → Result (VerifiedReplicateEvidence Float)
  verify_complete_suffix pending = do
    raise_if (not (is_complete pending.replicate_status)) integrity_error
    raise_if (is_some pending.replicate_failure_stage) integrity_error
    selection ← or_raise pending.selection assertion_error
    ok (record {
      support_n = pending.support_n;
      decision_statistic = some selection.decision_statistic;
      is_failure = false;
    })

  unfoldable pub verify_failed_suffix :
      PendingReplicateEvidence Float → Result (VerifiedReplicateEvidence Float)
  verify_failed_suffix pending = do
    raise_if (not (is_some pending.replicate_failure_stage)) integrity_error
    ok (record { support_n = pending.support_n; decision_statistic = none; is_failure = true })

  unfoldable pub verify_replicate_suffix :
      PendingReplicateEvidence Float → Result (VerifiedReplicateEvidence Float)
  unfolding verify_complete_suffix verify_failed_suffix
  verify_replicate_suffix pending =
      if pending.is_failure then verify_failed_suffix pending else verify_complete_suffix pending

  module _ (seed_digest : Text → ℕ → ℕ → Result Text)
      (sealed_token_verifier : ℕ
        → ℕ
        → NullTransformToken
        → Text
        → Text
        → ℤ
        → ℕ
        → ℕ
        → Result (Unit {0})) where
    -- `verify_identity`
    unfoldable pub verify_identity :
        ReplicateOutcome Float → ReplicateExpectation → Result (Unit {0})
    verify_identity outcome expected = do
      expected_seed ←
          seed_digest expected.plan_digest expected.replicate_id expected.planned_replicates
      raise_if
          (not (eqb_ℤ outcome.replicate_id (pos expected.replicate_id))
            || not (equal_numbers outcome.seed_digest_sha256 expected_seed))
          integrity_error

    -- The vector of a failed or of a complete replicate
    unfoldable pub verify_by_status :
        ReplicateStatus
        → ReplicateOutcome Float
        → VectorVerificationPolicy Float
        → Result (VerifiedVectorEvidence Float)
    verify_by_status ReplicateStatus.analytic_failure outcome policy =
        verify_failure_vector fl outcome.statistic_results outcome.selection policy
    verify_by_status ReplicateStatus.complete outcome policy =
        verify_complete_vector fl outcome.statistic_results outcome.selection policy

    -- `verify_replicate_prefix`
    unfoldable pub verify_replicate_prefix :
        ReplicateOutcome Float
        → ReplicateExpectation
        → VectorVerificationPolicy Float
        → Result (PendingReplicateEvidence Float)
    verify_replicate_prefix outcome expected policy = do
      verify_identity outcome expected
      evidence ← verify_by_status outcome.status outcome policy
      raise_if (not (eqb_ℤ evidence.support_n expected.observed_support_n)) integrity_error
      ok (record {
        support_n = evidence.support_n;
        pre_token_decision_statistic = evidence.decision_statistic;
        is_failure = not (is_complete outcome.status);
        selection = outcome.selection;
        transform_token = outcome.transform_token;
        replicate_status = outcome.status;
        replicate_failure_stage = outcome.failure_stage;
      })

    -- What a verified replicate adds to the counts of exceedances and of failures
    abbrev pub decided_count : Float → Option Float → ℕ → ℕ
    decided_count observed none exceedances = exceedances
    decided_count observed (some decision) exceedances =
        if fle observed decision then suc exceedances else exceedances

    unfoldable pub count_replicate :
        VerifiedReplicateEvidence Float → Option Float → ℕ → ℕ → Result (ℕ × ℕ)
    count_replicate verified observed exceedances failures =
        if verified.is_failure then ok (exceedances, suc failures) else (do
          decision ← or_raise observed integrity_error
          ok (decided_count decision verified.decision_statistic exceedances, failures))
