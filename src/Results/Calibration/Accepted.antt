-- ===== src/Results/Calibration/Accepted.antt =====
-- The constructor of a calibration result as a whole: what it accepts.
use selcal.Prelude.{true, Option, some, ◌≡◌, refl, subst, ◌∙◌, ltb}
use selcal.Errors.{ok, integrity_error, >>=-eq-ok, >>-eq-ok, guard-eq-ok, ok-injective}
use selcal.Floats.{Float64}
use selcal.Contracts.{SelectionResult}
use selcal.Nulls.Token.{require_sha256}
use selcal.Results.{require_statistic_vector}
use selcal.Results.Run.{
  RunStatus, not_evaluable, RunFailureStage, replicate_execution, CalibrationResult, require_alpha,
  require_optional_probability,
}
use selcal.Results.Calibration.{
  validate_complete, validate_replicate_failure, validate_by_stage, calibration_result,
}
use selcal.Results.Calibration.Complete.{IsDecided, validate_complete-decides}
use selcal.Results.Calibration.Failure.{IsBounded, validate_replicate_failure-bounds}

module _ (fl : Float64) where
  open fl use {Float}

  -- What is left of a result whose constructor returned: the branch of its stage passed.
  pub calibration_result-stage :
      (r : CalibrationResult Float) {accepted : CalibrationResult Float}
      → calibration_result fl r ≡ ok accepted
      → (validate_by_stage fl accepted.status accepted.failure_stage accepted ≡ ok tt)
        × (accepted.status ≡ r.status)
        × (accepted.failure_stage ≡ r.failure_stage)
  unfolding calibration_result
  calibration_result-stage r {accepted} h =
      let (semantic, h0, k0) = >>=-eq-ok (require_sha256 r.semantic_input_sha256) _ h in
      let (plan, h1, k1) = >>=-eq-ok (require_sha256 r.scientific_plan_sha256) _ k0 in
      let (h2, k2) = guard-eq-ok (ltb r.planned_replicates 1) integrity_error _ k1 in
      let (h3, k3) = guard-eq-ok (ltb 1_000_000 r.planned_replicates) integrity_error _ k2 in
      let (alpha, h4, k4) = >>=-eq-ok (require_alpha fl r.alpha) _ k3 in
      let (observed, h5, k5) =
        >>=-eq-ok (require_statistic_vector fl true r.observed_results) _ k4 in
      let (h6, k6) =
        guard-eq-ok (ltb r.planned_replicates r.exceedance_count) integrity_error _ k5 in
      let (h7, k7) = guard-eq-ok (ltb r.planned_replicates r.failure_count) integrity_error _ k6 in
      let (p_value, h8, k8) = >>=-eq-ok (require_optional_probability fl r.p_value) _ k7 in
      let (low, h9, k9) = >>=-eq-ok (require_optional_probability fl r.exceedance_bound_low) _ k8 in
      let (high, h10, k10) =
        >>=-eq-ok (require_optional_probability fl r.exceedance_bound_high) _ k9 in
      let normalized : CalibrationResult Float = record r {
        alpha = alpha;
        p_value = p_value;
        exceedance_bound_low = low;
        exceedance_bound_high = high;
      } in
      let (passed, k11) =
        >>-eq-ok (validate_by_stage fl r.status r.failure_stage normalized) _ k10 in
      transfer normalized refl refl passed (ok-injective k11)
    where
      transfer :
          (n : CalibrationResult Float) {a : CalibrationResult Float}
          → n.status ≡ r.status
          → n.failure_stage ≡ r.failure_stage
          → validate_by_stage fl n.status n.failure_stage n ≡ ok tt
          → n ≡ a
          → (validate_by_stage fl a.status a.failure_stage a ≡ ok tt)
            × (a.status ≡ r.status)
            × (a.failure_stage ≡ r.failure_stage)
      transfer n s f v e =
          subst
            (λ (q : CalibrationResult Float).
              (validate_by_stage fl q.status q.failure_stage q ≡ ok tt)
              × (q.status ≡ r.status)
              × (q.failure_stage ≡ r.failure_stage))
            e (v, s, f)

  -- Whatever COMPLETE result the constructor accepts has an observed selection, and is decided by
  -- the outcomes that it stores: complete outcomes numbered 0 to B - 1, E the number of those that reach
  -- the observed statistic, the p-value (1 + E) / (B + 1), and a rejection exactly when that is at
  -- most alpha.
  pub calibration_result-complete :
      (r : CalibrationResult Float) {accepted : CalibrationResult Float}
      → calibration_result fl r ≡ ok accepted
      → r.status ≡ RunStatus.complete
      → (s : SelectionResult Float) × (accepted.observed_selection ≡ some s)
        × IsDecided fl accepted s.decision_statistic
  unfolding validate_by_stage
  calibration_result-complete r {accepted} h e =
      let (passed, same, stage) = calibration_result-stage r h in
      validate_complete-decides fl accepted
        (by_status accepted.status accepted.failure_stage accepted (same ∙ e) passed)
    where
      by_status :
          (status : RunStatus) (stage : Option RunFailureStage) (a : CalibrationResult Float)
          → status ≡ RunStatus.complete
          → validate_by_stage fl status stage a ≡ ok tt
          → validate_complete fl a ≡ ok tt
      by_status RunStatus.complete stage a p v = v
      by_status RunStatus.not_evaluable stage a p v = cc

  -- Whatever result with the stage REPLICATE_EXECUTION the constructor accepts has an observed
  -- selection and outcomes with the ids 0 to B - 1, of which F >= 1 are failures and E are complete
  -- with a selection at or above the observed statistic. The stored bounds are (1 + E) / (B + 1) and
  -- (1 + E + F) / (B + 1), and there is no p-value or decision.
  pub calibration_result-bounds :
      (r : CalibrationResult Float) {accepted : CalibrationResult Float}
      → calibration_result fl r ≡ ok accepted
      → r.status ≡ not_evaluable
      → r.failure_stage ≡ some replicate_execution
      → (s : SelectionResult Float) × (accepted.observed_selection ≡ some s)
        × IsBounded fl accepted s.decision_statistic
  unfolding validate_by_stage
  calibration_result-bounds r {accepted} h e f =
      let (passed, same, stage) = calibration_result-stage r h in
      validate_replicate_failure-bounds fl accepted
        (by_stage accepted.status accepted.failure_stage accepted (same ∙ e) (stage ∙ f) passed)
    where
      by_stage :
          (status : RunStatus) (stage : Option RunFailureStage) (a : CalibrationResult Float)
          → status ≡ not_evaluable
          → stage ≡ some replicate_execution
          → validate_by_stage fl status stage a ≡ ok tt
          → validate_replicate_failure fl a ≡ ok tt
      by_stage status stage a p q v =
          subst (λ t. validate_by_stage fl not_evaluable t a ≡ ok tt) q
            (subst (λ u. validate_by_stage fl u stage a ≡ ok tt) p v)
