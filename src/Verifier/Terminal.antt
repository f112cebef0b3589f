-- ===== src/Verifier/Terminal.antt =====
-- The terminal leaves of src/selcal/_verifier_primitives_v2.py: the counts and the decision of a
-- result against what was derived from its outcomes. The fields of `TerminalEvidenceV2` are those
-- of the result, so the result itself stands for them.
use selcal.Prelude.{ℕ, ◌+◌, Bool, true, false, not, ◌||◌, Option, none, some, ltb, ◌==◌}
use selcal.Errors.{Result, ok, err, integrity_error, raise_if, ◌>>◌}
use selcal.Floats.{Float64}
use selcal.Candidates.{is_empty}
use selcal.Selection.Family.{is_some}
use selcal.Results.Run.{
  RunStatus, complete, not_evaluable, RunFailureStage, null_bind, observed_statistic_scan,
  replicate_execution, CalibrationResult, not_equal, not_exactly,
}

pub record DerivedCounts : Type 0 where
  pub exceedances : ℕ
  pub failures : ℕ
  pub retained_replicates : ℕ

abbrev pub is_complete_run : RunStatus → Bool
is_complete_run complete = true
is_complete_run not_evaluable = false

module _ (fl : Float64) where
  open fl use {Float, fle, ratio}

  -- `verify_complete` of `_freeze_complete_terminal`
  unfoldable pub verify_complete : CalibrationResult Float → DerivedCounts → Result (Unit {0})
  verify_complete terminal derived = do
    raise_if
        (is_some terminal.failure_stage
          || (not (derived.failures == 0) || not (terminal.failure_count == 0)))
        integrity_error
    raise_if (not (derived.retained_replicates == terminal.planned_replicates)) integrity_error
    let expected_p = ratio (1 + derived.exceedances) (terminal.planned_replicates + 1)
    raise_if
        (not (terminal.exceedance_count == derived.exceedances)
          || (not_equal fl terminal.p_value expected_p
              || (is_some terminal.exceedance_bound_low
                  || (is_some terminal.exceedance_bound_high
                      || not_exactly terminal.reject_null (fle expected_p terminal.alpha)))))
        integrity_error
    ok tt

  -- `verify_execution`
  unfoldable pub verify_execution : CalibrationResult Float → DerivedCounts → Result (Unit {0})
  verify_execution terminal derived = do
    raise_if (is_complete_run terminal.status || ltb derived.failures 1) integrity_error
    raise_if (not (derived.retained_replicates == terminal.planned_replicates)) integrity_error
    let low = ratio (1 + derived.exceedances) (terminal.planned_replicates + 1)
    let high = ratio (1 + derived.exceedances + derived.failures) (terminal.planned_replicates + 1)
    raise_if
        (not (terminal.exceedance_count == derived.exceedances)
          || (not (terminal.failure_count == derived.failures)
              || (is_some terminal.p_value
                  || (is_some terminal.reject_null
                      || (not_equal fl terminal.exceedance_bound_low low
                          || not_equal fl terminal.exceedance_bound_high high)))))
        integrity_error
    ok tt

  -- What `verify_null` and `verify_observed` of the terminal leaves have in common
  abbrev has_decision : CalibrationResult Float → Bool
  has_decision terminal =
      is_some terminal.observed_selection
      || (not (is_empty terminal.replicates)
          || (not (terminal.exceedance_count == 0)
              || (not (terminal.failure_count == 0)
                  || (is_some terminal.p_value
                      || (is_some terminal.exceedance_bound_low
                          || (is_some terminal.exceedance_bound_high
                              || is_some terminal.reject_null))))))

  -- `verify_null`
  unfoldable pub verify_null : CalibrationResult Float → Result (Unit {0})
  verify_null terminal =
      raise_if
        (is_complete_run terminal.status
          || (not (is_empty terminal.observed_results) || has_decision terminal))
        integrity_error

  -- `verify_observed` of `_freeze_observed_terminal`
  unfoldable pub verify_observed_scan : CalibrationResult Float → Result (Unit {0})
  verify_observed_scan terminal =
      raise_if (is_complete_run terminal.status || has_decision terminal) integrity_error

  -- The branch of `verify_terminal` on the status and the failure stage
  unfoldable pub verify_by_stage :
      RunStatus
      → Option RunFailureStage
      → CalibrationResult Float
      → DerivedCounts
      → Result (Unit {0})
  verify_by_stage complete stage terminal derived = verify_complete terminal derived
  verify_by_stage not_evaluable (some replicate_execution) terminal derived =
      verify_execution terminal derived
  verify_by_stage not_evaluable (some null_bind) terminal derived = verify_null terminal
  verify_by_stage not_evaluable (some observed_statistic_scan) terminal derived =
      verify_observed_scan terminal
  verify_by_stage not_evaluable none terminal derived = err integrity_error

  -- `verify_terminal`
  unfoldable pub verify_terminal : CalibrationResult Float → DerivedCounts → Result (Unit {0})
  verify_terminal terminal derived =
      verify_by_stage terminal.status terminal.failure_stage terminal derived
