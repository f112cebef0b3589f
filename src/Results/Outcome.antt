-- ===== src/Results/Outcome.antt =====
-- `ReplicateOutcome` of src/selcal/contracts_v2.py.
use selcal.Prelude.{List, not, Option, String}
use selcal.Prelude.Int.{ℤ, pos, ltb_ℤ}
use selcal.Errors.{Result, ok, integrity_error, raise_if, ◌>>=◌, ◌>>◌}
use selcal.Floats.{Float64}
use selcal.Contracts.{StatisticResult, SelectionResult}
use selcal.Selection.Family.{is_some}
use selcal.Nulls.Token.{Text, NullTransformToken, require_sha256}
use selcal.Results.{validate_complete_scored_vector, validate_raw_failure_vector}

pub data ReplicateStatus : Type 0 where
  complete : ReplicateStatus
  analytic_failure : ReplicateStatus

pub data ReplicateFailureStage : Type 0 where
  statistic_scan : ReplicateFailureStage

pub record ReplicateOutcome (F : Type 0) : Type 0 where
  pub replicate_id : ℤ
  pub seed_digest_sha256 : Text
  pub status : ReplicateStatus
  pub failure_stage : Option ReplicateFailureStage
  pub transform_token : NullTransformToken
  pub statistic_results : List (StatisticResult F)
  pub selection : Option (SelectionResult F)
  pub diagnostics : List String

module _ (fl : Float64) where
  open fl use {Float}

  -- The part of `__post_init__` that depends on the status.
  unfoldable pub validate_outcome : ReplicateStatus → ReplicateOutcome Float → Result (Unit {0})
  validate_outcome complete r = do
    raise_if (is_some r.failure_stage) integrity_error
    validated ← validate_complete_scored_vector fl r.statistic_results r.selection
    ok tt
  validate_outcome analytic_failure r = do
    raise_if (not (is_some r.failure_stage)) integrity_error
    raise_if (is_some r.selection) integrity_error
    ids ← validate_raw_failure_vector fl r.statistic_results
    ok tt

  -- `ReplicateOutcome.__post_init__`
  unfoldable pub replicate_outcome : ReplicateOutcome Float → Result (ReplicateOutcome Float)
  replicate_outcome r = do
    raise_if (ltb_ℤ r.replicate_id (pos 0)) integrity_error
    digest ← require_sha256 r.seed_digest_sha256
    validate_outcome r.status r
    ok r
