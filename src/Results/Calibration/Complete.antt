-- ===== src/Results/Calibration/Complete.antt =====
-- What an accepted COMPLETE result states.
use selcal.Prelude.{
  ℕ, zero, suc, ◌+◌, List, [], ◌∷◌, Bool, true, false, not, ◌||◌, Option, none, some, ◌≡◌, refl,
  sym, subst, ap, ◌∙◌, arith, length, or-eq-false, not-eq-false, some-injective, get_elem?, ◌==◌,
}
use selcal.Prelude.Int.{ℤ, pos, eqb_ℤ, eq_of_parts, pos_part, neg_part}
use selcal.Errors.{ok, integrity_error, >>=-eq-ok, >>-eq-ok, guard-eq-ok}
use selcal.Floats.{Float64}
use selcal.Contracts.{SelectionResult}
use selcal.Selection.Family.{is_some}
use selcal.Results.{validate_complete_scored_vector}
use selcal.Results.Vectors.{validate_complete_scored_vector-selection}
use selcal.Results.Outcome.{ReplicateStatus, ReplicateOutcome}
use selcal.Results.Run.{
  CalibrationResult, is_complete, any_misnumbered, require_exact_b_ids, require_run_token_ownership,
  any_incomplete, require_candidate_agreement, count_exceedances, not_equal, not_exactly,
}
use selcal.Results.Calibration.{validate_complete}

eqb_ℤ-parts : (a b : ℤ) → eqb_ℤ a b ≡ true → pos_part a + neg_part b ≡ pos_part b + neg_part a
eqb_ℤ-parts a b h = ground arith

is_complete-eq : (s : ReplicateStatus) → is_complete s ≡ true → s ≡ ReplicateStatus.complete
is_complete-eq ReplicateStatus.complete h = refl
is_complete-eq ReplicateStatus.analytic_failure h = cc

module _ (fl : Float64) where
  open fl use {Float, feq, fle, ratio}

  -- What a COMPLETE result says, given the decision statistic of its observed selection: B complete
  -- outcomes with the ids 0, 1, ..., B - 1, the number E of those that reach the observed statistic,
  -- the p-value (1 + E) / (B + 1), and a rejection exactly when that is at most alpha.
  pub record IsDecided (r : CalibrationResult Float) (observed : Float) : Type 0 where
    pub stage : r.failure_stage ≡ none
    pub count : length r.replicates ≡ r.planned_replicates
    pub numbered :
        (i : ℕ) (o : ReplicateOutcome Float)
        → get_elem? r.replicates i ≡ some o
        → o.replicate_id ≡ pos i
    pub completed :
        (i : ℕ) (o : ReplicateOutcome Float)
        → get_elem? r.replicates i ≡ some o
        → o.status ≡ ReplicateStatus.complete
    pub failures : r.failure_count ≡ 0
    pub exceedances : r.exceedance_count ≡ count_exceedances fl observed r.replicates
    pub p_stored :
        not_equal fl r.p_value (ratio (1 + r.exceedance_count) (r.planned_replicates + 1)) ≡ false
    pub no_low : r.exceedance_bound_low ≡ none
    pub no_high : r.exceedance_bound_high ≡ none
    pub decision :
        r.reject_null
        ≡ some (fle (ratio (1 + r.exceedance_count) (r.planned_replicates + 1)) r.alpha)

  pub numbered_from :
      (start : ℕ) (rs : List (ReplicateOutcome Float))
      → any_misnumbered fl start rs ≡ false
      → (i : ℕ) (o : ReplicateOutcome Float) → get_elem? rs i ≡ some o
      → o.replicate_id ≡ pos (start + i)
  unfolding any_misnumbered
  numbered_from start [] h i o e = cc
  numbered_from start (r ∷ rs) h zero o e =
      let (own, rest) =
        or-eq-false (not (eqb_ℤ r.replicate_id (pos start))) (any_misnumbered fl (suc start) rs)
          h in
      let here = eq_of_parts r.replicate_id (pos start) (
        eqb_ℤ-parts r.replicate_id (pos start)
          (not-eq-false (eqb_ℤ r.replicate_id (pos start)) own)) in
      subst (λ (q : ReplicateOutcome Float). q.replicate_id ≡ pos (start + 0)) (some-injective e)
        (here ∙ ap pos (omega arith))
  numbered_from start (r ∷ rs) h (suc i) o e =
      let (own, rest) =
        or-eq-false (not (eqb_ℤ r.replicate_id (pos start))) (any_misnumbered fl (suc start) rs)
          h in
      numbered_from (suc start) rs rest i o e ∙ ap pos (omega arith)

  completed_all :
      (rs : List (ReplicateOutcome Float))
      → any_incomplete fl rs ≡ false
      → (i : ℕ) (o : ReplicateOutcome Float) → get_elem? rs i ≡ some o
      → o.status ≡ ReplicateStatus.complete
  unfolding any_incomplete
  completed_all [] h i o e = cc
  completed_all (r ∷ rs) h zero o e =
      let (own, rest) = or-eq-false (not (is_complete r.status)) (any_incomplete fl rs) h in
      subst (λ (q : ReplicateOutcome Float). q.status ≡ ReplicateStatus.complete) (some-injective e)
        (is_complete-eq r.status (not-eq-false (is_complete r.status) own))
  completed_all (r ∷ rs) h (suc i) o e =
      let (own, rest) = or-eq-false (not (is_complete r.status)) (any_incomplete fl rs) h in
      completed_all rs rest i o e

  pub some-of : {A : Type 0} (o : Option A) → is_some o ≡ false → o ≡ none
  some-of none h = refl
  some-of (some a) h = cc

  pub decided_as : (o : Option Bool) (b : Bool) → not_exactly o b ≡ false → o ≡ some b
  decided_as none b h = cc
  decided_as (some true) b h = ap some (sym (not-eq-false _ h))
  decided_as (some false) b h = ap some (sym h)

  decided :
      (r : CalibrationResult Float) (e : ℕ) {observed : Float}
      → r.failure_stage ≡ none
      → (not (length r.replicates == r.planned_replicates) || any_misnumbered fl 0 r.replicates)
        ≡ false
      → any_incomplete fl r.replicates ≡ false
      → not (r.failure_count == 0) ≡ false
      → not (r.exceedance_count == e) ≡ false
      → e ≡ count_exceedances fl observed r.replicates
      → not_equal fl r.p_value (ratio (1 + e) (r.planned_replicates + 1)) ≡ false
      → (is_some r.exceedance_bound_low || is_some r.exceedance_bound_high) ≡ false
      → not_exactly r.reject_null (fle (ratio (1 + e) (r.planned_replicates + 1)) r.alpha) ≡ false
      → IsDecided r observed
  decided r e stage ids all failures exceedances count p_stored bounds decision =
      let (size, order) =
        or-eq-false (not (length r.replicates == r.planned_replicates))
          (any_misnumbered fl 0 r.replicates) ids in
      let (low, high) =
        or-eq-false (is_some r.exceedance_bound_low) (is_some r.exceedance_bound_high) bounds in
      let same : e ≡ r.exceedance_count = ground arith in
      record {
        stage = stage;
        count = ground arith;
        numbered = λ i o g. numbered_from 0 r.replicates order i o g ∙ ap pos (omega arith);
        completed = completed_all r.replicates all;
        failures = ground arith;
        exceedances = sym same ∙ count;
        p_stored =
            subst (λ n. not_equal fl r.p_value (ratio (1 + n) (r.planned_replicates + 1)) ≡ false)
              same p_stored;
        no_low = some-of r.exceedance_bound_low low;
        no_high = some-of r.exceedance_bound_high high;
        decision =
            subst
              (λ n. r.reject_null ≡ some (fle (ratio (1 + n) (r.planned_replicates + 1)) r.alpha))
              same (decided_as r.reject_null _ decision);
      }

  -- The checks of `_validate_complete` leave exactly the decided results.
  pub validate_complete-decides :
      (r : CalibrationResult Float)
      → validate_complete fl r ≡ ok tt
      → (s : SelectionResult Float) × (r.observed_selection ≡ some s)
        × IsDecided r s.decision_statistic
  unfolding validate_complete require_exact_b_ids
  validate_complete-decides r h =
      let (stage, h1) = guard-eq-ok (is_some r.failure_stage) integrity_error _ h in
      let (observed, scored, h2) =
        >>=-eq-ok (validate_complete_scored_vector fl r.observed_results r.observed_selection) _
          h1 in
      let e = count_exceedances fl observed.1.decision_statistic r.replicates in
      let (ids, h3) =
        guard-eq-ok
          (not (length r.replicates == r.planned_replicates) || any_misnumbered fl 0 r.replicates)
          integrity_error _ h2 in
      let (own, h4) =
        >>-eq-ok
          (require_run_token_ownership fl r.replicates r.semantic_input_sha256
            r.scientific_plan_sha256)
          _ h3 in
      let (all, h5) = guard-eq-ok (any_incomplete fl r.replicates) integrity_error _ h4 in
      let (agree, h6) = >>-eq-ok (require_candidate_agreement fl observed.0 r.replicates) _ h5 in
      let (failures, h7) = guard-eq-ok (not (r.failure_count == 0)) integrity_error _ h6 in
      let (exceedances, h8) = guard-eq-ok (not (r.exceedance_count == e)) integrity_error _ h7 in
      let p = ratio (1 + e) (r.planned_replicates + 1) in
      let (p_stored, h9) = guard-eq-ok (not_equal fl r.p_value p) integrity_error _ h8 in
      let (bounds, h10) =
        guard-eq-ok (is_some r.exceedance_bound_low || is_some r.exceedance_bound_high)
          integrity_error _ h9 in
      let (decision, h11) =
        guard-eq-ok (not_exactly r.reject_null (fle p r.alpha)) integrity_error _ h10 in
      (
        observed.1,
        validate_complete_scored_vector-selection fl r.observed_results r.observed_selection scored,
        decided r e (some-of r.failure_stage stage) ids all failures exceedances refl p_stored
            bounds decision,
      )
