-- ===== src/Results/Run.antt =====
-- The record of a calibration result in src/selcal/contracts_v2.py, and the checks and counts that
-- its constructor is made of.
use selcal.Prelude.{
  ℕ, suc, List, [], ◌∷◌, Bool, true, false, not, ◌&&◌, ◌||◌, Option, none, some, String, length,
  ◌==◌, if◌then◌else◌,
}
use selcal.Prelude.Int.{ℤ, pos, eqb_ℤ}
use selcal.Errors.{Result, ok, err, integrity_error, raise_if, ◌>>◌}
use selcal.Arrays.{equal_numbers}
use selcal.Floats.{Float64}
use selcal.Contracts.{StatisticResult, SelectionResult}
use selcal.Selection.Family.{is_some}
use selcal.Nulls.Token.{Text, NullTransformToken, equal_labels, differ}
use selcal.Results.{candidate_ids}
use selcal.Results.Outcome.{ReplicateStatus, ReplicateOutcome}

pub data RunStatus : Type 0 where
  complete : RunStatus
  not_evaluable : RunStatus

pub data RunFailureStage : Type 0 where
  null_bind : RunFailureStage
  observed_statistic_scan : RunFailureStage
  replicate_execution : RunFailureStage

-- `planned_replicates`, `exceedance_count` and `failure_count` are never negative once checked.
pub record CalibrationResult (F : Type 0) : Type 0 where
  pub status : RunStatus
  pub failure_stage : Option RunFailureStage
  pub semantic_input_sha256 : Text
  pub scientific_plan_sha256 : Text
  pub planned_replicates : ℕ
  pub alpha : F
  pub observed_results : List (StatisticResult F)
  pub observed_selection : Option (SelectionResult F)
  pub replicates : List (ReplicateOutcome F)
  pub exceedance_count : ℕ
  pub failure_count : ℕ
  pub p_value : Option F
  pub exceedance_bound_low : Option F
  pub exceedance_bound_high : Option F
  pub reject_null : Option Bool
  pub diagnostics : List String

abbrev pub is_complete : ReplicateStatus → Bool
is_complete ReplicateStatus.complete = true
is_complete ReplicateStatus.analytic_failure = false

-- `type(reject_null) is not bool or reject_null is not expected`
abbrev pub not_exactly : Option Bool → Bool → Bool
not_exactly none expected = true
not_exactly (some b) expected = differ b expected

module _ (fl : Float64) where
  open fl use {Float, one, is_finite, flt, fle, feq, ratio}

  -- `_require_exact_float` with bounds 0.0 and 1.0 excluded, for alpha
  unfoldable pub require_alpha : Float → Result Float
  require_alpha value = do
    raise_if (not (is_finite value)) integrity_error
    raise_if (fle value fl.zero || fle one value) integrity_error
    ok (if feq value fl.zero then fl.zero else value)

  -- `_require_optional_probability`
  unfoldable pub require_optional_probability : Option Float → Result (Option Float)
  require_optional_probability none = ok none
  require_optional_probability (some value) = do
    raise_if (not (is_finite value)) integrity_error
    raise_if (flt value fl.zero || flt one value) integrity_error
    ok (some (if feq value fl.zero then fl.zero else value))

  -- `any(outcome.replicate_id != expected_id for expected_id, outcome in enumerate(replicates))`
  unfoldable pub any_misnumbered : ℕ → List (ReplicateOutcome Float) → Bool
  any_misnumbered expected_id [] = false
  any_misnumbered expected_id (r ∷ rs) =
      not (eqb_ℤ r.replicate_id (pos expected_id)) || any_misnumbered (suc expected_id) rs

  -- `_require_exact_b_ids`
  unfoldable pub require_exact_b_ids : List (ReplicateOutcome Float) → ℕ → Result (Unit {0})
  require_exact_b_ids replicates planned_replicates =
      raise_if (not (length replicates == planned_replicates) || any_misnumbered 0 replicates)
        integrity_error

  unfoldable pub any_disagreement : List ℤ → List (ReplicateOutcome Float) → Bool
  any_disagreement expected [] = false
  any_disagreement expected (r ∷ rs) =
      not (equal_labels (candidate_ids fl r.statistic_results) expected)
      || any_disagreement expected rs

  -- `_require_candidate_agreement`
  unfoldable pub require_candidate_agreement :
      List ℤ → List (ReplicateOutcome Float) → Result (Unit {0})
  require_candidate_agreement expected replicates =
      raise_if (any_disagreement expected replicates) integrity_error

  -- The loop of `_require_run_token_ownership`
  unfoldable pub require_tokens :
      NullTransformToken → Text → Text → List (ReplicateOutcome Float) → Result (Unit {0})
  require_tokens snapshot semantic plan [] = ok tt
  require_tokens snapshot semantic plan (r ∷ rs) = do
    let token = r.transform_token
    raise_if (not (equal_numbers token.semantic_input_sha256 semantic)) integrity_error
    raise_if (not (equal_numbers token.scientific_plan_sha256 plan)) integrity_error
    raise_if
        (not (equal_numbers token.null_name snapshot.null_name)
          || (not (equal_numbers token.null_parameter_sha256 snapshot.null_parameter_sha256)
              || not
                  (equal_numbers token.bound_null_owner_sha256 snapshot.bound_null_owner_sha256)))
        integrity_error
    require_tokens snapshot semantic plan rs

  -- `_require_run_token_ownership`
  unfoldable pub require_run_token_ownership :
      List (ReplicateOutcome Float) → Text → Text → Result (Unit {0})
  require_run_token_ownership [] semantic plan = err integrity_error
  require_run_token_ownership (r ∷ rs) semantic plan =
      require_tokens r.transform_token semantic plan (r ∷ rs)

  unfoldable pub any_incomplete : List (ReplicateOutcome Float) → Bool
  any_incomplete [] = false
  any_incomplete (r ∷ rs) = not (is_complete r.status) || any_incomplete rs

  -- `outcome.selection is not None and outcome.selection.decision_statistic >= observed`
  abbrev pub reaches : Float → Option (SelectionResult Float) → Bool
  reaches observed none = false
  reaches observed (some s) = fle observed s.decision_statistic

  -- The sum over the outcomes for a COMPLETE result
  unfoldable pub count_exceedances : Float → List (ReplicateOutcome Float) → ℕ
  count_exceedances observed [] = 0
  count_exceedances observed (r ∷ rs) =
      let rest = count_exceedances observed rs in
      if reaches observed r.selection then suc rest else rest

  -- The sum over the complete outcomes of a failed result
  unfoldable pub count_retained_exceedances : Float → List (ReplicateOutcome Float) → ℕ
  count_retained_exceedances observed [] = 0
  count_retained_exceedances observed (r ∷ rs) =
      let rest = count_retained_exceedances observed rs in
      if is_complete r.status && reaches observed r.selection then suc rest else rest

  unfoldable pub count_failures : List (ReplicateOutcome Float) → ℕ
  count_failures [] = 0
  count_failures (r ∷ rs) =
      let rest = count_failures rs in if is_complete r.status then rest else suc rest

  -- `value != expected` of an optional float
  abbrev pub not_equal : Option Float → Float → Bool
  not_equal none expected = true
  not_equal (some x) expected = not (feq x expected)

  -- `_require_no_decision_fields`
  unfoldable pub require_no_decision_fields : CalibrationResult Float → Result (Unit {0})
  require_no_decision_fields r =
      raise_if
        (is_some r.p_value
          || (is_some r.exceedance_bound_low
              || (is_some r.exceedance_bound_high || is_some r.reject_null)))
        integrity_error
