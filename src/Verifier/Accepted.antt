-- ===== src/Verifier/Accepted.antt =====
-- What a result that `verify_calibration_result` accepts is.
use selcal.Prelude.{ℕ, not, ◌||◌, Option, none, some, ◌≡◌, subst, ◌==◌, or-eq-false, inl, inr}
use selcal.Prelude.Int.{ℤ}
use selcal.Errors.{Result, ok, integrity_error, guard-eq-ok}
use selcal.Floats.{Float64}
use selcal.Contracts.{SelectionResult}
use selcal.Selection.Family.{is_some}
use selcal.Nulls.Token.{Text, NullTransformToken}
use selcal.Results.Run.{
  RunStatus, not_evaluable, RunFailureStage, replicate_execution, CalibrationResult,
}
use selcal.Results.Calibration.Complete.{IsDecided, some-of}
use selcal.Results.Calibration.Failure.{IsBounded}
use selcal.Verifier.Terminal.{
  DerivedCounts, verify_complete, verify_execution, verify_by_stage, verify_terminal,
}
use selcal.Verifier.Run.{ResolutionContext}
use selcal.Verifier.Derived.{
  verify, HasVerifiedReplicates, verify_calibration_result-derived,
  verify_calibration_result-terminal,
}
use selcal.Verifier.Decided.{terminal-decides, terminal-bounds}

module _ (fl : Float64) (seed_digest : Text → ℕ → ℕ → Result Text)
    (sealed_token_verifier : ℕ
      → ℕ
      → NullTransformToken
      → Text
      → Text
      → ℤ
      → ℕ
      → ℕ
      → Result (Unit {0}))
    (context final : ResolutionContext fl.Float) where
  open fl use {Float, fle, ratio}

  complete_branch :
      (status : RunStatus) (stage : Option RunFailureStage) (r : CalibrationResult Float)
      (derived : DerivedCounts)
      → status ≡ RunStatus.complete
      → verify_by_stage fl status stage r derived ≡ ok tt
      → verify_complete fl r derived ≡ ok tt
  unfolding verify_by_stage
  complete_branch RunStatus.complete stage r derived e h = h
  complete_branch RunStatus.not_evaluable stage r derived e h = cc

  execution_branch :
      (status : RunStatus) (stage : Option RunFailureStage) (r : CalibrationResult Float)
      (derived : DerivedCounts)
      → status ≡ not_evaluable
      → stage ≡ some replicate_execution
      → verify_by_stage fl status stage r derived ≡ ok tt
      → verify_execution fl r derived ≡ ok tt
  unfolding verify_by_stage
  execution_branch status stage r derived e f h =
      subst (λ t. verify_by_stage fl not_evaluable t r derived ≡ ok tt) f
        (subst (λ u. verify_by_stage fl u stage r derived ≡ ok tt) e h)

  complete-stage :
      (r : CalibrationResult Float) (derived : DerivedCounts)
      → verify_complete fl r derived ≡ ok tt
      → r.failure_stage ≡ none
  unfolding verify_complete
  complete-stage r derived h =
      let (clean, h1) =
        guard-eq-ok
          (is_some r.failure_stage || (not (derived.failures == 0) || not (r.failure_count == 0)))
          integrity_error _ h in
      some-of fl r.failure_stage (or-eq-false (is_some r.failure_stage) _ clean).0

  -- Whatever COMPLETE result the verifier accepts is one of the plan: the plan digest, the number B of
  -- replicates and alpha are the plan's. Its observed vector is verified by the plan's policy, and
  -- has a selection. Its replicates are each verified by that policy, for the two digests of the
  -- result and B: with the id, the derived seed and an owned token, and a vector verified on the
  -- observed support, of a series as long as the support and the longest candidate together. It is
  -- decided by these: E the number of the replicates that reach the observed statistic, the p-value
  -- (1 + E) / (B + 1), a rejection exactly when that is at most alpha.
  pub verify_calibration_result-decides :
      (r : CalibrationResult Float)
      → r.status ≡ RunStatus.complete
      → verify fl seed_digest sealed_token_verifier context final r ≡ ok tt
      → (s : SelectionResult Float) × (r.observed_selection ≡ some s)
        × HasVerifiedReplicates fl seed_digest sealed_token_verifier context final r
        × IsDecided fl r s.decision_statistic
  unfolding verify_terminal
  verify_calibration_result-decides r status h =
      let (counts, first) =
        verify_calibration_result-terminal fl seed_digest sealed_token_verifier context final r h in
      let stage =
        complete-stage r counts (complete_branch r.status r.failure_stage r counts status first) in
      let (s, there, v, terminal) =
        verify_calibration_result-derived fl seed_digest sealed_token_verifier context final r
          (inl stage) h in
      (
        s,
        there,
        v,
        terminal-decides fl seed_digest sealed_token_verifier context final r s.decision_statistic v
            (complete_branch r.status r.failure_stage r _ status terminal),
      )

  -- Whatever result with the stage REPLICATE_EXECUTION the verifier accepts is one of the plan, with
  -- an observed vector and replicates that are verified as those of a COMPLETE result are. F >= 1 of
  -- the replicates are failures and E are complete and reach the observed statistic; the stored
  -- bounds are (1 + E) / (B + 1) and (1 + E + F) / (B + 1), and there is no p-value or decision.
  pub verify_calibration_result-bounds :
      (r : CalibrationResult Float)
      → r.status ≡ not_evaluable
      → r.failure_stage ≡ some replicate_execution
      → verify fl seed_digest sealed_token_verifier context final r ≡ ok tt
      → (s : SelectionResult Float) × (r.observed_selection ≡ some s)
        × HasVerifiedReplicates fl seed_digest sealed_token_verifier context final r
        × IsBounded fl r s.decision_statistic
  unfolding verify_terminal
  verify_calibration_result-bounds r status stage h =
      let (s, there, v, terminal) =
        verify_calibration_result-derived fl seed_digest sealed_token_verifier context final r
          (inr stage) h in
      (
        s,
        there,
        v,
        terminal-bounds fl seed_digest sealed_token_verifier context final r s.decision_statistic v
            (execution_branch r.status r.failure_stage r _ status stage terminal),
      )
