-- ===== src/Verifier/Replicates.antt =====
-- What the loop of `verify_calibration_result` over the replicates has checked and counted.
use selcal.Prelude.{ℕ, suc, ◌+◌, List, [], ◌∷◌, not, some, ◌≡◌, refl, sym, ap, ◌∙◌, subst, arith}
use selcal.Prelude.Int.{ℤ, pos}
use selcal.Errors.{Result, ok, >>=-eq-ok, >>-eq-ok, ok-injective}
use selcal.Floats.{Float64}
use selcal.Selection.Family.{is_some}
use selcal.Nulls.Token.{Text, NullTransformToken}
use selcal.Results.Outcome.{ReplicateOutcome}
use selcal.Results.Run.{is_complete, count_retained_exceedances, count_failures}
use selcal.Verifier.{VectorVerificationPolicy, VerifiedVectorEvidence}
use selcal.Verifier.Replicate.{
  PendingReplicateEvidence, verify_by_status, verify_replicate_prefix, verify_replicate_suffix,
  count_replicate,
}
use selcal.Verifier.Run.{ResolutionContext, verify_replicates}
use selcal.Verifier.Suffix.{pending_of, suffix-counts, prefix-checks, retained_step, failed_step}

module _ (fl : Float64) (seed_digest : Text → ℕ → ℕ → Result Text)
    (sealed_token_verifier : ℕ
      → ℕ
      → NullTransformToken
      → Text
      → Text
      → ℤ
      → ℕ
      → ℕ
      → Result (Unit {0}))
    (context : ResolutionContext fl.Float) (policy : VectorVerificationPolicy fl.Float)
    (run : Text × Text × ℕ) (observed : ℤ × ℤ) where
  open fl use {Float, fle}

  -- The outcome has the id, the derived seed and an owned token; its vector is verified by its
  -- status, on the support of the observed one, and it has a failure stage if it failed.
  pub record IsVerifiedReplicate (i : ℕ) (o : ReplicateOutcome Float) : Type 0 where
    pub numbered : o.replicate_id ≡ pos i
    pub seeded : seed_digest run.1 i run.2 ≡ ok o.seed_digest_sha256
    pub owned :
        sealed_token_verifier context.token_verifier context.null_adapter o.transform_token run.0
          run.1 observed.1 i run.2
        ≡ ok tt
    pub evidence : VerifiedVectorEvidence Float
    pub vector :
        verify_by_status fl seed_digest sealed_token_verifier o.status o policy ≡ ok evidence
    pub supported : evidence.support_n ≡ observed.0
    pub staged : is_some o.failure_stage ≡ not (is_complete o.status)

  abbrev pub AllVerified : ℕ → List (ReplicateOutcome Float) → Type 0
  AllVerified i [] = Unit
  AllVerified i (o ∷ os) = IsVerifiedReplicate i o × AllVerified (suc i) os

  -- The loop leaves verified replicates, and adds the retained exceedances and the failures.
  pub verify_replicates-counts :
      (i : ℕ) (os : List (ReplicateOutcome Float)) (d : Float) (exceedances failures : ℕ)
      {counts : ℕ × ℕ}
      → verify_replicates fl seed_digest sealed_token_verifier context policy run observed
          (some d)
          i
          os
          exceedances
          failures
        ≡ ok counts
      → AllVerified i os
        × (counts.0 ≡ exceedances + count_retained_exceedances fl d os)
        × (counts.1 ≡ failures + count_failures fl os)
  unfolding verify_replicates
  verify_replicates-counts i [] d exceedances failures h =
      let e = ok-injective h in
      (
        tt,
        unfold count_retained_exceedances in (sym (ap (λ (q : ℕ × ℕ). q.0) e) ∙ (omega arith)),
        unfold count_failures in (sym (ap (λ (q : ℕ × ℕ). q.1) e) ∙ (omega arith)),
      )
  verify_replicates-counts i (o ∷ os) d exceedances failures h =
      let (pending, prefix, h1) =
        >>=-eq-ok
          (verify_replicate_prefix fl seed_digest sealed_token_verifier o
            (record {
              replicate_id = i;
              plan_digest = run.1;
              planned_replicates = run.2;
              observed_support_n = observed.0;
            })
            policy)
          _ h in
      let (token, h2) =
        >>-eq-ok
          (sealed_token_verifier context.token_verifier context.null_adapter pending.transform_token
            run.0 run.1 observed.1 i run.2)
          _ h1 in
      let (verified, suffix, h3) = >>=-eq-ok (verify_replicate_suffix fl pending) _ h2 in
      let (counted, count, h4) =
        >>=-eq-ok
          (count_replicate fl seed_digest sealed_token_verifier verified (some d) exceedances
            failures)
          _ h3 in
      let (e, is_pending, numbered, seeded, vector, supported) =
        prefix-checks fl seed_digest sealed_token_verifier policy run observed i o prefix in
      let (staged, one, one_failed) =
        suffix-counts fl seed_digest sealed_token_verifier policy run observed o e d exceedances
          failures (subst (λ p. verify_replicate_suffix fl p ≡ ok verified) is_pending suffix)
          count in
      let (all, more, more_failed) = verify_replicates-counts (suc i) os d counted.0 counted.1 h4 in
      (
        (
          record {
            numbered = numbered;
            seeded = seeded;
            owned =
                subst
                  (λ t.
                    sealed_token_verifier context.token_verifier context.null_adapter t run.0 run.1
                      observed.1 i run.2
                    ≡ ok tt)
                  (ap (λ (p : PendingReplicateEvidence Float). p.transform_token) is_pending
                    ∙ token_of o e)
                  token;
            evidence = e;
            vector = vector;
            supported = supported;
            staged = staged;
          },
          all,
        ),
        omega (
          arith,
          more,
          one,
          retained_step fl seed_digest sealed_token_verifier policy run observed d o os,
        ),
        omega (
          arith,
          more_failed,
          one_failed,
          failed_step fl seed_digest sealed_token_verifier policy run observed o os,
        ),
      )
    where
      token_of :
          (o : ReplicateOutcome Float) (e : VerifiedVectorEvidence Float)
          → (pending_of fl seed_digest sealed_token_verifier policy run observed o
              e).transform_token
            ≡ o.transform_token
      token_of o e = unfold pending_of in refl
