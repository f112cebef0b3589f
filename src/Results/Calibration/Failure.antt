-- ===== src/Results/Calibration/Failure.antt =====
-- What an accepted result with failed replicates states.
use selcal.Prelude.{
  ℕ, ◌+◌, ◌≤◌, false, not, ◌||◌, none, some, ◌≡◌, refl, sym, subst, ap, get_elem?, ◌∙◌, arith,
  length, ltb, ◌==◌, or-eq-false,
}
use selcal.Errors.{ok, integrity_error, >>=-eq-ok, >>-eq-ok, guard-eq-ok}
use selcal.Floats.{Float64}
use selcal.Contracts.{SelectionResult}
use selcal.Selection.Family.{is_some}
use selcal.Results.{validate_complete_scored_vector}
use selcal.Results.Vectors.{validate_complete_scored_vector-selection}
use selcal.Results.Run.{
  CalibrationResult, any_misnumbered, require_exact_b_ids, require_run_token_ownership,
  require_candidate_agreement, count_retained_exceedances, count_failures, not_equal,
}
use selcal.Results.Calibration.{validate_replicate_failure}
use selcal.Results.Calibration.Complete.{some-of, numbered_from}
use selcal.Results.Outcome.{ReplicateOutcome}
use selcal.Results.Calibration.Tallies.{
  IsFailure, IsRetained, IsStored, not_equal-IsStored, IsFailure-Tally, IsRetained-Tally,
}
use selcal.Prelude.Tally.{Tally}
use selcal.Prelude.Int.{pos}

module _ (fl : Float64) where
  open fl use {Float, ratio}

  -- What a result with failed replicates says, given the decision statistic of its observed selection:
  -- B outcomes with the ids 0, 1, ..., B - 1, of which F >= 1 are failures and E are complete and
  -- have a selection at or above the observed statistic; the stored bounds (1 + E) / (B + 1) and
  -- (1 + E + F) / (B + 1), and neither a p-value nor a decision.
  pub record IsBounded (r : CalibrationResult Float) (observed : Float) : Type 0 where
    pub count : length r.replicates ≡ r.planned_replicates
    pub numbered :
        (i : ℕ) (o : ReplicateOutcome Float)
        → get_elem? r.replicates i ≡ some o
        → o.replicate_id ≡ pos i
    pub failures : Tally (IsFailure fl) r.replicates r.failure_count
    pub some_failure : 1 ≤ r.failure_count
    pub exceedances : Tally (IsRetained fl observed) r.replicates r.exceedance_count
    pub within : r.exceedance_count + r.failure_count ≤ r.planned_replicates
    pub no_p : r.p_value ≡ none
    pub no_decision : r.reject_null ≡ none
    pub low :
        IsStored fl r.exceedance_bound_low
          (ratio (1 + r.exceedance_count) (r.planned_replicates + 1))
    pub high :
        IsStored fl r.exceedance_bound_high
          (ratio (1 + r.exceedance_count + r.failure_count) (r.planned_replicates + 1))

  bounded :
      (r : CalibrationResult Float) (e f : ℕ) {observed : Float}
      → (not (length r.replicates == r.planned_replicates) || any_misnumbered fl 0 r.replicates)
        ≡ false
      → (ltb f 1 || not (r.failure_count == f)) ≡ false
      → not (r.exceedance_count == e) ≡ false
      → ltb r.planned_replicates (r.exceedance_count + r.failure_count) ≡ false
      → (is_some r.p_value || is_some r.reject_null) ≡ false
      → e ≡ count_retained_exceedances fl observed r.replicates
      → f ≡ count_failures fl r.replicates
      → (not_equal fl r.exceedance_bound_low (ratio (1 + e) (r.planned_replicates + 1))
          || not_equal fl r.exceedance_bound_high (ratio (1 + e + f) (r.planned_replicates + 1)))
        ≡ false
      → IsBounded r observed
  bounded r e f {observed} ids failures exceedances within undecided count_e count_f bounds =
      let (size, order) =
        or-eq-false (not (length r.replicates == r.planned_replicates))
          (any_misnumbered fl 0 r.replicates) ids in
      let (positive, agree) = or-eq-false (ltb f 1) (not (r.failure_count == f)) failures in
      let (no_p, no_decision) = or-eq-false (is_some r.p_value) (is_some r.reject_null) undecided in
      let (low, high) =
        or-eq-false (not_equal fl r.exceedance_bound_low (ratio (1 + e) (r.planned_replicates + 1)))
          (not_equal fl r.exceedance_bound_high (ratio (1 + e + f) (r.planned_replicates + 1)))
          bounds in
      let same_e : e ≡ r.exceedance_count = ground arith in
      let same_f : f ≡ r.failure_count = ground arith in
      record {
        count = ground arith;
        numbered = λ i o g. numbered_from fl 0 r.replicates order i o g ∙ ap pos (omega arith);
        failures =
            subst (Tally (IsFailure fl) r.replicates) (sym count_f ∙ same_f)
              (IsFailure-Tally fl r.replicates);
        some_failure = ground arith;
        exceedances =
            subst (Tally (IsRetained fl observed) r.replicates) (sym count_e ∙ same_e)
              (IsRetained-Tally fl observed r.replicates);
        within = ground arith;
        no_p = some-of fl r.p_value no_p;
        no_decision = some-of fl r.reject_null no_decision;
        low =
            subst
              (λ n. IsStored fl r.exceedance_bound_low (ratio (1 + n) (r.planned_replicates + 1)))
              same_e (not_equal-IsStored fl r.exceedance_bound_low _ low);
        high =
            subst
              (λ n.
                IsStored fl r.exceedance_bound_high
                  (ratio (1 + n + r.failure_count) (r.planned_replicates + 1)))
              same_e
              (subst
                (λ n.
                  IsStored fl r.exceedance_bound_high
                    (ratio (1 + e + n) (r.planned_replicates + 1)))
                same_f (not_equal-IsStored fl r.exceedance_bound_high _ high));
      }

  pub validate_replicate_failure-bounds :
      (r : CalibrationResult Float)
      → validate_replicate_failure fl r ≡ ok tt
      → (s : SelectionResult Float) × (r.observed_selection ≡ some s)
        × IsBounded r s.decision_statistic
  unfolding validate_replicate_failure require_exact_b_ids
  validate_replicate_failure-bounds r h =
      let (observed, scored, h1) =
        >>=-eq-ok (validate_complete_scored_vector fl r.observed_results r.observed_selection) _
          h in
      let e = count_retained_exceedances fl observed.1.decision_statistic r.replicates in
      let f = count_failures fl r.replicates in
      let (ids, h2) =
        guard-eq-ok
          (not (length r.replicates == r.planned_replicates) || any_misnumbered fl 0 r.replicates)
          integrity_error _ h1 in
      let (own, h3) =
        >>-eq-ok
          (require_run_token_ownership fl r.replicates r.semantic_input_sha256
            r.scientific_plan_sha256)
          _ h2 in
      let (agree, h4) = >>-eq-ok (require_candidate_agreement fl observed.0 r.replicates) _ h3 in
      let (failures, h5) =
        guard-eq-ok (ltb f 1 || not (r.failure_count == f)) integrity_error _ h4 in
      let (exceedances, h6) = guard-eq-ok (not (r.exceedance_count == e)) integrity_error _ h5 in
      let (within, h7) =
        guard-eq-ok (ltb r.planned_replicates (r.exceedance_count + r.failure_count))
          integrity_error _ h6 in
      let (undecided, h8) =
        guard-eq-ok (is_some r.p_value || is_some r.reject_null) integrity_error _ h7 in
      let (bounds, h9) =
        guard-eq-ok
          (not_equal fl r.exceedance_bound_low (ratio (1 + e) (r.planned_replicates + 1))
            || not_equal fl r.exceedance_bound_high (ratio (1 + e + f) (r.planned_replicates + 1)))
          integrity_error _ h8 in
      (
        observed.1,
        validate_complete_scored_vector-selection fl r.observed_results r.observed_selection scored,
        bounded r e f ids failures exceedances within undecided refl refl bounds,
      )
