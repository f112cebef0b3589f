-- ===== src/Verifier/Decided.antt =====
-- What the checks of the two terminal states with replicates leave of a result.
use selcal.Prelude.{
  ℕ, zero, suc, ◌+◌, ◌≤◌, List, [], ◌∷◌, true, false, not, ◌||◌, some, ◌≡◌, refl, sym, ap, ◌∙◌,
  subst, arith, length, ltb, ◌==◌, or-eq-false, some-injective, get_elem?, inl, inr, Bool-cases,
}
use selcal.Prelude.Int.{ℤ, pos, ◌+ℤ◌}
use selcal.Errors.{Result, ok, integrity_error, guard-eq-ok}
use selcal.Floats.{Float64}
use selcal.Selection.Family.{is_some}
use selcal.Nulls.Token.{Text, NullTransformToken}
use selcal.Results.Outcome.{ReplicateStatus, ReplicateOutcome}
use selcal.Results.Run.{
  CalibrationResult, is_complete, count_exceedances, count_retained_exceedances, count_failures,
  not_equal, not_exactly,
}
use selcal.Results.Calibration.Counts.{counts_bounded}
use selcal.Results.Calibration.Complete.{IsDecided, some-of, decided_as}
use selcal.Results.Calibration.Failure.{IsBounded}
use selcal.Results.Calibration.Tallies.{
  IsFailure, IsRetained, IsStored, not_equal-IsStored, IsFailure-Tally, IsRetained-Tally,
}
use selcal.Prelude.Tally.{Tally}
use selcal.Verifier.{VectorVerificationPolicy}
use selcal.Verifier.Terminal.{is_complete_run, verify_complete, verify_execution}
use selcal.Verifier.Run.{ResolutionContext}
use selcal.Verifier.Replicates.{AllVerified}
use selcal.Verifier.Derived.{HasVerifiedReplicates}
use selcal.Verifier.Plan.{plan_policy}

complete_of : (s : ReplicateStatus) → is_complete s ≡ true → s ≡ ReplicateStatus.complete
complete_of ReplicateStatus.complete h = refl
complete_of ReplicateStatus.analytic_failure h = cc

module _ (fl : Float64) (seed_digest : Text → ℕ → ℕ → Result Text)
    (sealed_token_verifier : ℕ
      → ℕ
      → NullTransformToken
      → Text
      → Text
      → ℤ
      → ℕ
      → ℕ
      → Result (Unit {0}))
    (context final : ResolutionContext fl.Float) where
  open fl use {Float, fle, ratio}

  no_failures :
      (d : Float) (os : List (ReplicateOutcome Float))
      → count_failures fl os ≡ 0
      → (count_retained_exceedances fl d os ≡ count_exceedances fl d os)
        × ((i : ℕ) (o : ReplicateOutcome Float)
            → get_elem? os i ≡ some o
            → o.status ≡ ReplicateStatus.complete)
  unfolding count_failures count_retained_exceedances count_exceedances
  no_failures d [] h = (refl, λ i o e. cc)
  no_failures d (o ∷ os) h = elim (Bool-cases (is_complete o.status)) [
    | inr failed ↦ let k = rw failed at h in absurd (omega arith)
    | inl done ↦
        let k = rw done at h in
        let (same, all) = no_failures d os k in (rw (done, same), at_each done all)
  ]
    where
      at_each :
          is_complete o.status ≡ true
          → ((i : ℕ) (p : ReplicateOutcome Float)
              → get_elem? os i ≡ some p
              → p.status ≡ ReplicateStatus.complete)
          → (i : ℕ) (p : ReplicateOutcome Float) → get_elem? (o ∷ os) i ≡ some p
          → p.status ≡ ReplicateStatus.complete
      at_each done all zero p e =
          subst (λ (q : ReplicateOutcome Float). q.status ≡ ReplicateStatus.complete)
            (some-injective e) (complete_of o.status done)
      at_each done all (suc i) p e = all i p e

  module _ (policy : VectorVerificationPolicy Float) (run : Text × Text × ℕ)
      (observed : ℤ × ℤ) where
    numbered_from :
        (start : ℕ) (os : List (ReplicateOutcome Float))
        → AllVerified fl seed_digest sealed_token_verifier context policy run observed start os
        → (i : ℕ) (o : ReplicateOutcome Float) → get_elem? os i ≡ some o
        → o.replicate_id ≡ pos (start + i)
    numbered_from start [] all i o e = cc
    numbered_from start (x ∷ xs) all zero o e =
        subst (λ (q : ReplicateOutcome Float). q.replicate_id ≡ pos (start + 0)) (some-injective e)
          (all.0.numbered ∙ ap pos (omega arith))
    numbered_from start (x ∷ xs) all (suc i) o e =
        numbered_from (suc start) xs all.1 i o e ∙ ap pos (omega arith)

  pub terminal-decides :
      (r : CalibrationResult Float) (d : Float)
      → HasVerifiedReplicates fl seed_digest sealed_token_verifier context final r
      → verify_complete fl r (record {
        exceedances = count_retained_exceedances fl d r.replicates;
        failures = count_failures fl r.replicates;
        retained_replicates = length r.replicates;
      })
        ≡ ok tt
      → IsDecided fl r d
  unfolding verify_complete
  terminal-decides r d v h =
      let e = count_retained_exceedances fl d r.replicates in
      let f = count_failures fl r.replicates in
      let p = ratio (1 + e) (r.planned_replicates + 1) in
      let (clean, h1) =
        guard-eq-ok (is_some r.failure_stage || (not (f == 0) || not (r.failure_count == 0)))
          integrity_error _ h in
      let (size, h2) =
        guard-eq-ok (not (length r.replicates == r.planned_replicates)) integrity_error _ h1 in
      let (sums, h3) =
        guard-eq-ok
          (not (r.exceedance_count == e)
            || (not_equal fl r.p_value p
                || (is_some r.exceedance_bound_low
                    || (is_some r.exceedance_bound_high
                        || not_exactly r.reject_null (fle p r.alpha)))))
          integrity_error _ h2 in
      let (stage, clean') = or-eq-false (is_some r.failure_stage) _ clean in
      let (none_derived, none_stored) = or-eq-false (not (f == 0)) _ clean' in
      let (count, sums1) = or-eq-false (not (r.exceedance_count == e)) _ sums in
      let (p_stored, sums2) = or-eq-false (not_equal fl r.p_value p) _ sums1 in
      let (low, sums3) = or-eq-false (is_some r.exceedance_bound_low) _ sums2 in
      let (high, decision) = or-eq-false (is_some r.exceedance_bound_high) _ sums3 in
      let (retained, completed) = no_failures d r.replicates (ground arith) in
      let same : e ≡ r.exceedance_count = ground arith in
      record {
        stage = some-of fl r.failure_stage stage;
        count = ground arith;
        numbered = λ i o g.
            numbered_from (plan_policy fl context)
              (r.semantic_input_sha256, r.scientific_plan_sha256, r.planned_replicates)
              (v.evidence.support_n, v.evidence.support_n +ℤ v.longest) 0 r.replicates v.all i o g
            ∙ ap pos (omega arith);
        completed = completed;
        failures = ground arith;
        exceedances = sym same ∙ retained;
        p_stored =
            subst (λ n. not_equal fl r.p_value (ratio (1 + n) (r.planned_replicates + 1)) ≡ false)
              same p_stored;
        no_low = some-of fl r.exceedance_bound_low low;
        no_high = some-of fl r.exceedance_bound_high high;
        decision =
            subst
              (λ n. r.reject_null ≡ some (fle (ratio (1 + n) (r.planned_replicates + 1)) r.alpha))
              same (decided_as fl r.reject_null _ decision);
      }

  pub terminal-bounds :
      (r : CalibrationResult Float) (d : Float)
      → HasVerifiedReplicates fl seed_digest sealed_token_verifier context final r
      → verify_execution fl r (record {
        exceedances = count_retained_exceedances fl d r.replicates;
        failures = count_failures fl r.replicates;
        retained_replicates = length r.replicates;
      })
        ≡ ok tt
      → IsBounded fl r d
  unfolding verify_execution
  terminal-bounds r d v h =
      let e = count_retained_exceedances fl d r.replicates in
      let f = count_failures fl r.replicates in
      let low = ratio (1 + e) (r.planned_replicates + 1) in
      let high = ratio (1 + e + f) (r.planned_replicates + 1) in
      let (failed, h1) = guard-eq-ok (is_complete_run r.status || ltb f 1) integrity_error _ h in
      let (size, h2) =
        guard-eq-ok (not (length r.replicates == r.planned_replicates)) integrity_error _ h1 in
      let (sums, h3) =
        guard-eq-ok
          (not (r.exceedance_count == e)
            || (not (r.failure_count == f)
                || (is_some r.p_value
                    || (is_some r.reject_null
                        || (not_equal fl r.exceedance_bound_low low
                            || not_equal fl r.exceedance_bound_high high)))))
          integrity_error _ h2 in
      let (status, positive) = or-eq-false (is_complete_run r.status) _ failed in
      let (count, sums1) = or-eq-false (not (r.exceedance_count == e)) _ sums in
      let (failures, sums2) = or-eq-false (not (r.failure_count == f)) _ sums1 in
      let (no_p, sums3) = or-eq-false (is_some r.p_value) _ sums2 in
      let (no_decision, sums4) = or-eq-false (is_some r.reject_null) _ sums3 in
      let (low_stored, high_stored) =
        or-eq-false (not_equal fl r.exceedance_bound_low low) _ sums4 in
      let same_e : e ≡ r.exceedance_count = ground arith in
      let same_f : f ≡ r.failure_count = ground arith in
      let some_failure : 1 ≤ f = ground arith in
      let whole : length r.replicates ≡ r.planned_replicates = ground arith in
      let fits = (counts_bounded fl d r.replicates).1 in
      record {
        count = whole;
        numbered = λ i o g.
            numbered_from (plan_policy fl context)
              (r.semantic_input_sha256, r.scientific_plan_sha256, r.planned_replicates)
              (v.evidence.support_n, v.evidence.support_n +ℤ v.longest) 0 r.replicates v.all i o g
            ∙ ap pos (omega arith);
        failures =
            subst (Tally (IsFailure fl) r.replicates) same_f (IsFailure-Tally fl r.replicates);
        some_failure = omega arith;
        exceedances =
            subst (Tally (IsRetained fl d) r.replicates) same_e
              (IsRetained-Tally fl d r.replicates);
        within = omega arith;
        no_p = some-of fl r.p_value no_p;
        no_decision = some-of fl r.reject_null no_decision;
        low =
            subst
              (λ n. IsStored fl r.exceedance_bound_low (ratio (1 + n) (r.planned_replicates + 1)))
              same_e (not_equal-IsStored fl r.exceedance_bound_low _ low_stored);
        high =
            subst
              (λ n.
                IsStored fl r.exceedance_bound_high
                  (ratio (1 + r.exceedance_count + n) (r.planned_replicates + 1)))
              same_f
              (subst
                (λ n.
                  IsStored fl r.exceedance_bound_high
                    (ratio (1 + n + f) (r.planned_replicates + 1)))
                same_e (not_equal-IsStored fl r.exceedance_bound_high _ high_stored));
      }
