-- ===== src/Verifier/Derived.antt =====
-- What `verify_calibration_result` has derived of a result that it accepts.
use selcal.Prelude.{
  ℕ, ◌⊎◌, true, List, [], ◌∷◌, not, Option, none, some, ◌≡◌, refl, sym, ap, ◌∙◌, subst, arith,
  length, ◌==◌, inl, inr,
}
use selcal.Prelude.Int.{ℤ, ◌+ℤ◌}
use selcal.Errors.{Result, ok, integrity_error, >>=-eq-ok, >>-eq-ok, guard-eq-ok, ok-injective}
use selcal.Floats.{Float64}
use selcal.Contracts.{SelectionResult}
use selcal.Nulls.Token.{Text, NullTransformToken}
use selcal.Results.Outcome.{ReplicateOutcome}
use selcal.Results.Run.{
  RunFailureStage, replicate_execution, CalibrationResult, count_retained_exceedances,
  count_failures,
}
use selcal.Verifier.{VerifiedVectorEvidence, verify_complete_vector}
use selcal.Verifier.Terminal.{DerivedCounts, verify_terminal}
use selcal.Verifier.Run.{
  ResolutionContext, result_prefix, verify_observed, observed_decision, max_label, derive_counts,
  verify_calibration_result,
}
use selcal.Verifier.Plan.{IsLongest, plan_policy, max_label-IsLongest, prefix-plan}
use selcal.Verifier.Replicates.{AllVerified, verify_replicates-counts}

module _ (fl : Float64) (seed_digest : Text → ℕ → ℕ → Result Text)
    (sealed_token_verifier : ℕ
      → ℕ
      → NullTransformToken
      → Text
      → Text
      → ℤ
      → ℕ
      → ℕ
      → Result (Unit {0}))
    (context final : ResolutionContext fl.Float) where
  open fl use {Float, feq, flt, is_finite}

  abbrev pub verify : CalibrationResult Float → Result (Unit {0})
  verify r = verify_calibration_result fl seed_digest sealed_token_verifier r context final

  -- The result is one of the plan: its plan digest, number of replicates and alpha are the plan's.
  -- Its observed vector is verified by the plan's policy, on the support of `evidence`. Each
  -- replicate is verified by that policy, for the semantic and the plan digest of the result, on
  -- that support, of a series as long as the support and the longest lag together.
  pub record HasVerifiedReplicates (r : CalibrationResult Float) : Type 0 where
    pub plan : r.scientific_plan_sha256 ≡ context.plan_digest
    pub planned : r.planned_replicates ≡ context.planned_replicates
    pub alpha : feq r.alpha context.alpha ≡ true
    pub evidence : VerifiedVectorEvidence Float
    pub observed :
        verify_complete_vector fl r.observed_results r.observed_selection (plan_policy fl context)
        ≡ ok evidence
    pub longest : ℤ
    pub is_longest : IsLongest context.candidates longest
    pub all :
        AllVerified fl seed_digest sealed_token_verifier context
          (plan_policy fl context)
          (r.semantic_input_sha256, r.scientific_plan_sha256, r.planned_replicates)
          (evidence.support_n, evidence.support_n +ℤ longest)
          0
          r.replicates

  -- A stage with replicates has verified its observed vector.
  observed-verified :
      (stage : Option RunFailureStage) (r : CalibrationResult Float)
      {seen : Option (VerifiedVectorEvidence Float)}
      → (stage ≡ none) ⊎ (stage ≡ some replicate_execution)
      → verify_observed fl stage r (plan_policy fl context) ≡ ok seen
      → (evidence : VerifiedVectorEvidence Float) × (verify_complete_vector fl r.observed_results
            r.observed_selection
            (plan_policy fl context)
          ≡ ok evidence)
        × (seen ≡ some evidence)
  unfolding verify_observed
  observed-verified stage r {seen} c h = elim c [
    | inl e ↦ read (subst (λ t. verify_observed fl t r (plan_policy fl context) ≡ ok seen) e h)
    | inr e ↦ read (subst (λ t. verify_observed fl t r (plan_policy fl context) ≡ ok seen) e h)
  ]
    where
      read :
          verify_observed fl none r (plan_policy fl context) ≡ ok seen
          → (evidence : VerifiedVectorEvidence Float) × (verify_complete_vector fl
                r.observed_results r.observed_selection
                (plan_policy fl context)
              ≡ ok evidence)
            × (seen ≡ some evidence)
      read k =
          let (evidence, made, k1) =
            >>=-eq-ok
              (verify_complete_vector fl r.observed_results r.observed_selection
                (plan_policy fl context))
              _ k in
          (evidence, made, sym (ok-injective k1))

  derive_counts-counts :
      (run : Text × Text × ℕ) (evidence : VerifiedVectorEvidence Float) (longest : ℤ) (d : Float)
      (os : List (ReplicateOutcome Float)) {counts : ℕ × ℕ}
      → max_label context.candidates ≡ ok longest
      → derive_counts fl seed_digest sealed_token_verifier context
          (plan_policy fl context)
          run
          (some evidence)
          (some d)
          os
        ≡ ok counts
      → AllVerified fl seed_digest sealed_token_verifier context
          (plan_policy fl context)
          run
          (evidence.support_n, evidence.support_n +ℤ longest)
          0
          os
        × (counts.0 ≡ count_retained_exceedances fl d os)
        × (counts.1 ≡ count_failures fl os)
  unfolding derive_counts
  derive_counts-counts run evidence longest d [] most h =
      let e = ok-injective h in
      (
        tt,
        unfold count_retained_exceedances in sym (ap (λ (q : ℕ × ℕ). q.0) e),
        unfold count_failures in sym (ap (λ (q : ℕ × ℕ). q.1) e),
      )
  derive_counts-counts run evidence longest d (o ∷ os) most h =
      let (size, h1) = guard-eq-ok (not (length (o ∷ os) == run.2)) integrity_error _ h in
      let h2 = rw most at h1 in
      let (all, exceedances, failures) =
        verify_replicates-counts fl seed_digest sealed_token_verifier context
          (plan_policy fl context) run (evidence.support_n, evidence.support_n +ℤ longest) 0
          (o ∷ os) d 0 0 h2 in
      (all, exceedances ∙ (omega arith), failures ∙ (omega arith))

  -- A stage with an observed decision reads it from the selection.
  decision-some :
      (stage : Option RunFailureStage) (selection : Option (SelectionResult Float))
      {decision : Option Float}
      → (stage ≡ none) ⊎ (stage ≡ some replicate_execution)
      → observed_decision fl stage selection ≡ ok decision
      → (s : SelectionResult Float) × (selection ≡ some s) × (decision ≡ some s.decision_statistic)
  unfolding observed_decision
  decision-some stage none c h = elim c [
    | inl e ↦ let k = rw e at h in cc
    | inr e ↦ let k = rw e at h in cc
  ]
  decision-some stage (some s) c h = elim c [
    | inl e ↦ let k = rw e at h in (s, refl, sym (ok-injective k))
    | inr e ↦ let k = rw e at h in (s, refl, sym (ok-injective k))
  ]

  -- What the verifier has derived where the run has an observed decision
  pub verify_calibration_result-derived :
      (r : CalibrationResult Float)
      → (r.failure_stage ≡ none) ⊎ (r.failure_stage ≡ some replicate_execution)
      → verify r ≡ ok tt
      → (s : SelectionResult Float) × (r.observed_selection ≡ some s)
        × HasVerifiedReplicates r
        × (verify_terminal fl r (record {
          exceedances = count_retained_exceedances fl s.decision_statistic r.replicates;
          failures = count_failures fl r.replicates;
          retained_replicates = length r.replicates;
        })
            ≡ ok tt)
  unfolding verify_calibration_result
  verify_calibration_result-derived r stage h =
      let (prefix, scalars, k) = >>=-eq-ok (result_prefix fl r context) _ h in
      let (made, plan, planned, alpha, nonempty) = prefix-plan fl context r scalars in
      let (longest, most, is_longest) = max_label-IsLongest context.candidates nonempty in
      let h1 = rw made at h in
      let run : Text × Text × ℕ =
        (r.semantic_input_sha256, r.scientific_plan_sha256, r.planned_replicates) in
      let (seen, verified, h2) =
        >>=-eq-ok (verify_observed fl r.failure_stage r (plan_policy fl context)) _ h1 in
      let (evidence, observed, found) = observed-verified r.failure_stage r stage verified in
      let (decision, read, h3) =
        >>=-eq-ok (observed_decision fl r.failure_stage r.observed_selection) _ h2 in
      let (counts, derived, h4) =
        >>=-eq-ok
          (derive_counts fl seed_digest sealed_token_verifier context (plan_policy fl context) run
            seen decision r.replicates)
          _ h3 in
      let (terminal, h5) =
        >>-eq-ok
          (verify_terminal fl r (record {
            exceedances = counts.0;
            failures = counts.1;
            retained_replicates = length r.replicates;
          }))
          _ h4 in
      let (s, there, decided) = decision-some r.failure_stage r.observed_selection stage read in
      let (all, exceedances, failures) =
        derive_counts-counts run evidence longest s.decision_statistic r.replicates most
          (rw (found, decided) at derived) in
      (
        s,
        there,
        record {
          plan = plan;
          planned = planned;
          alpha = alpha;
          evidence = evidence;
          observed = observed;
          longest = longest;
          is_longest = is_longest;
          all = all;
        },
        subst
            (λ (c : ℕ × ℕ).
              verify_terminal fl r (record {
                exceedances = c.0;
                failures = c.1;
                retained_replicates = length r.replicates;
              })
              ≡ ok tt)
            (λ i. (exceedances i, failures i)) terminal,
      )

  pub verify_calibration_result-terminal :
      (r : CalibrationResult Float)
      → verify r ≡ ok tt
      → (derived : DerivedCounts) × (verify_terminal fl r derived ≡ ok tt)
  unfolding verify_calibration_result
  verify_calibration_result-terminal r h =
      let (prefix, scalars, h1) = >>=-eq-ok (result_prefix fl r context) _ h in
      let (evidence, seen, h2) = >>=-eq-ok (verify_observed fl r.failure_stage r prefix.2) _ h1 in
      let (decision, read, h3) =
        >>=-eq-ok (observed_decision fl r.failure_stage r.observed_selection) _ h2 in
      let (counts, derived, h4) =
        >>=-eq-ok
          (derive_counts fl seed_digest sealed_token_verifier context prefix.2
            (prefix.0, prefix.1, r.planned_replicates) evidence decision r.replicates)
          _ h3 in
      let made : DerivedCounts = record {
        exceedances = counts.0;
        failures = counts.1;
        retained_replicates = length r.replicates;
      } in
      let (terminal, h5) = >>-eq-ok (verify_terminal fl r made) _ h4 in (made, terminal)
