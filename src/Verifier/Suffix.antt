-- ===== src/Verifier/Suffix.antt =====
-- What one replicate leaves when its checks pass, and what it adds to the counts.
use selcal.Prelude.{
  ℕ, suc, ◌+◌, List, ◌∷◌, true, false, not, ◌||◌, some, ◌≡◌, sym, ap, ◌∙◌, subst, arith,
  or-eq-false, not-eq-false, if◌then◌else◌, inl, inr, Bool-cases,
}
use selcal.Prelude.Int.{ℤ, pos, eqb_ℤ}
use selcal.Errors.{
  Result, ok, integrity_error, assertion_error, or_raise, raise_if, >>=-eq-ok, >>-eq-ok,
  guard-eq-ok, or_raise-eq-ok, ok-injective, raise_if-eq-ok, ◌>>=◌,
}
use selcal.Arrays.{equal_numbers}
use selcal.Arrays.Laws.{equal_numbers-eq}
use selcal.Floats.{Float64}
use selcal.Contracts.{SelectionResult}
use selcal.Selection.Family.{is_some}
use selcal.Nulls.Token.{Text, NullTransformToken}
use selcal.Results.Outcome.{ReplicateOutcome}
use selcal.Results.Run.{is_complete, reaches, count_retained_exceedances, count_failures}
use selcal.Verifier.{VectorVerificationPolicy, VerifiedVectorEvidence}
use selcal.Verifier.Vector.{eqb_ℤ-eq}
use selcal.Verifier.Replicate.{
  PendingReplicateEvidence, VerifiedReplicateEvidence, verify_identity, verify_by_status,
  verify_replicate_prefix, verify_replicate_suffix, verify_complete_suffix, verify_failed_suffix,
  count_replicate,
}

module _ (fl : Float64) (seed_digest : Text → ℕ → ℕ → Result Text)
    (sealed_token_verifier : ℕ
      → ℕ
      → NullTransformToken
      → Text
      → Text
      → ℤ
      → ℕ
      → ℕ
      → Result (Unit {0}))
    (policy : VectorVerificationPolicy fl.Float) (run : Text × Text × ℕ) (observed : ℤ × ℤ) where
  open fl use {Float, fle}

  -- What one outcome adds to the exceedances and to the failures
  abbrev pub retained_one : Float → ReplicateOutcome Float → ℕ
  retained_one d o = if is_complete o.status then (if reaches fl d o.selection then 1 else 0) else 0

  abbrev pub failed_one : ReplicateOutcome Float → ℕ
  failed_one o = if is_complete o.status then 0 else 1

  unfoldable pub pending_of :
      ReplicateOutcome Float → VerifiedVectorEvidence Float → PendingReplicateEvidence Float
  pending_of o e = record {
    support_n = e.support_n;
    pre_token_decision_statistic = e.decision_statistic;
    is_failure = not (is_complete o.status);
    selection = o.selection;
    transform_token = o.transform_token;
    replicate_status = o.status;
    replicate_failure_stage = o.failure_stage;
  }

  counted_complete :
      (n : ℤ) (s : SelectionResult Float) (d : Float) (exceedances failures : ℕ) {counted : ℕ × ℕ}
      → count_replicate fl seed_digest sealed_token_verifier
          (record {
            support_n = n;
            decision_statistic = some s.decision_statistic;
            is_failure = false;
          })
          (some d)
          exceedances
          failures
        ≡ ok counted
      → (counted.0 ≡ exceedances + (if fle d s.decision_statistic then 1 else 0))
        × (counted.1 ≡ failures)
  unfolding count_replicate
  counted_complete n s d exceedances failures h = elim (Bool-cases (fle d s.decision_statistic)) [
    | inl reached ↦
        let k = rw reached at h in
        let e = ok-injective k in
        (
          rw reached (sym (ap (λ (q : ℕ × ℕ). q.0) e) ∙ (omega arith)),
          sym (ap (λ (q : ℕ × ℕ). q.1) e),
        )
    | inr missed ↦
        let k = rw missed at h in
        let e = ok-injective k in
        (
          rw missed (sym (ap (λ (q : ℕ × ℕ). q.0) e) ∙ (omega arith)),
          sym (ap (λ (q : ℕ × ℕ). q.1) e),
        )
  ]

  complete-counts :
      (o : ReplicateOutcome Float) (e : VerifiedVectorEvidence Float)
      {verified : VerifiedReplicateEvidence Float} (d : Float) (exceedances failures : ℕ)
      {counted : ℕ × ℕ}
      → verify_complete_suffix fl (pending_of o e) ≡ ok verified
      → count_replicate fl seed_digest sealed_token_verifier verified (some d) exceedances failures
        ≡ ok counted
      → (is_some o.failure_stage ≡ false)
        × (counted.0 ≡ exceedances + (if reaches fl d o.selection then 1 else 0))
        × (counted.1 ≡ failures)
  unfolding verify_complete_suffix pending_of
  complete-counts o e d exceedances failures {counted} h k =
      let (status, h1) = guard-eq-ok (not (is_complete o.status)) integrity_error _ h in
      let (stage, h2) = guard-eq-ok (is_some o.failure_stage) integrity_error _ h1 in
      let (selection, chosen, h3) = >>=-eq-ok (or_raise o.selection assertion_error) _ h2 in
      let k' =
        subst
          (λ (v : VerifiedReplicateEvidence Float).
            count_replicate fl seed_digest sealed_token_verifier v (some d) exceedances failures
            ≡ ok counted)
          (sym (ok-injective h3)) k in
      let (more, same) = counted_complete e.support_n selection d exceedances failures k' in
      (stage, rw (or_raise-eq-ok o.selection assertion_error chosen) more, same)

  failed-counts :
      (o : ReplicateOutcome Float) (e : VerifiedVectorEvidence Float)
      {verified : VerifiedReplicateEvidence Float} (d : Float) (exceedances failures : ℕ)
      {counted : ℕ × ℕ}
      → verify_failed_suffix fl (pending_of o e) ≡ ok verified
      → count_replicate fl seed_digest sealed_token_verifier verified (some d) exceedances failures
        ≡ ok counted
      → (is_some o.failure_stage ≡ true) × (counted.0 ≡ exceedances) × (counted.1 ≡ suc failures)
  unfolding verify_failed_suffix count_replicate pending_of
  failed-counts o e d exceedances failures {counted} h k =
      let (stage, h1) = guard-eq-ok (not (is_some o.failure_stage)) integrity_error _ h in
      let k' =
        subst
          (λ (v : VerifiedReplicateEvidence Float).
            count_replicate fl seed_digest sealed_token_verifier v (some d) exceedances failures
            ≡ ok counted)
          (sym (ok-injective h1)) k in
      let e = ok-injective k' in
      (not-eq-false _ stage, sym (ap (λ (q : ℕ × ℕ). q.0) e), sym (ap (λ (q : ℕ × ℕ). q.1) e))

  -- The two endings of a replicate in one
  pub suffix-counts :
      (o : ReplicateOutcome Float) (e : VerifiedVectorEvidence Float)
      {verified : VerifiedReplicateEvidence Float} (d : Float) (exceedances failures : ℕ)
      {counted : ℕ × ℕ}
      → verify_replicate_suffix fl (pending_of o e) ≡ ok verified
      → count_replicate fl seed_digest sealed_token_verifier verified (some d) exceedances failures
        ≡ ok counted
      → (is_some o.failure_stage ≡ not (is_complete o.status))
        × (counted.0 ≡ exceedances + retained_one d o)
        × (counted.1 ≡ failures + failed_one o)
  unfolding verify_replicate_suffix
  suffix-counts o e d exceedances failures {counted} h k =
      elim (Bool-cases (is_complete o.status)) [
        | inl done ↦
            let flag : (pending_of o e).is_failure ≡ false = unfold pending_of in rw done in
            let h' = rw flag at h in
            let (stage, more, same) = complete-counts o e d exceedances failures h' k in
            rw done (stage, more, same ∙ (omega arith))
        | inr failed ↦
            let flag : (pending_of o e).is_failure ≡ true = unfold pending_of in rw failed in
            let h' = rw flag at h in
            let (stage, same, more) = failed-counts o e d exceedances failures h' k in
            rw failed (stage, same ∙ (omega arith), more ∙ (omega arith))
      ]

  pub prefix-checks :
      (i : ℕ) (o : ReplicateOutcome Float) {pending : PendingReplicateEvidence Float}
      → verify_replicate_prefix fl seed_digest sealed_token_verifier o
          (record {
            replicate_id = i;
            plan_digest = run.1;
            planned_replicates = run.2;
            observed_support_n = observed.0;
          })
          policy
        ≡ ok pending
      → (e : VerifiedVectorEvidence Float) × (pending ≡ pending_of o e)
        × (o.replicate_id ≡ pos i)
        × (seed_digest run.1 i run.2 ≡ ok o.seed_digest_sha256)
        × (verify_by_status fl seed_digest sealed_token_verifier o.status o policy ≡ ok e)
        × (e.support_n ≡ observed.0)
  unfolding verify_replicate_prefix verify_identity pending_of
  prefix-checks i o h =
      let (identity, h1) =
        >>-eq-ok
          (seed_digest run.1 i run.2 >>= λ seed.
            raise_if
              (not (eqb_ℤ o.replicate_id (pos i)) || not (equal_numbers o.seed_digest_sha256 seed))
              integrity_error)
          _ h in
      let (seed, derived, checked) = >>=-eq-ok (seed_digest run.1 i run.2) _ identity in
      let (id, digest) =
        or-eq-false (not (eqb_ℤ o.replicate_id (pos i)))
          (not (equal_numbers o.seed_digest_sha256 seed)) (raise_if-eq-ok _ _ checked) in
      let (e, vector, h2) =
        >>=-eq-ok (verify_by_status fl seed_digest sealed_token_verifier o.status o policy) _ h1 in
      let (support, h3) = guard-eq-ok (not (eqb_ℤ e.support_n observed.0)) integrity_error _ h2 in
      (
        e,
        sym (ok-injective h3),
        eqb_ℤ-eq o.replicate_id (pos i) id,
        derived ∙ ap ok (sym (equal_numbers-eq o.seed_digest_sha256 seed (not-eq-false _ digest))),
        vector,
        eqb_ℤ-eq e.support_n observed.0 support,
      )

  pub retained_step :
      (d : Float) (o : ReplicateOutcome Float) (os : List (ReplicateOutcome Float))
      → count_retained_exceedances fl d (o ∷ os)
        ≡ retained_one d o + count_retained_exceedances fl d os
  unfolding count_retained_exceedances
  retained_step d o os = ground arith

  pub failed_step :
      (o : ReplicateOutcome Float) (os : List (ReplicateOutcome Float))
      → count_failures fl (o ∷ os) ≡ failed_one o + count_failures fl os
  unfolding count_failures
  failed_step o os = ground arith
