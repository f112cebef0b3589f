-- ===== src/Results/Calibration/Tallies.antt =====
-- The counts of a failed run, as tallies of its outcomes.
use selcal.Prelude.{
  List, [], ◌∷◌, Option, none, some, true, false, ◌&&◌, ◌≡◌, refl, Bool-cases, inl, inr,
  not-eq-false,
}
use selcal.Prelude.Tally.{Tally, nothing, counted, passed}
use selcal.Floats.{Float64}
use selcal.Contracts.{SelectionResult}
use selcal.Results.Outcome.{ReplicateStatus, ReplicateOutcome}
use selcal.Results.Run.{is_complete, reaches, count_retained_exceedances, count_failures, not_equal}

module _ (fl : Float64) where
  open fl use {Float, feq, fle}

  -- A replicate that ended with a failure
  abbrev pub IsFailure : ReplicateOutcome Float → Type 0
  IsFailure o = o.status ≡ ReplicateStatus.analytic_failure

  -- A complete replicate whose own selection has a statistic at or above `observed`
  pub record IsRetained (observed : Float) (o : ReplicateOutcome Float) : Type 0 where
    pub completed : o.status ≡ ReplicateStatus.complete
    pub selection : SelectionResult Float
    pub there : o.selection ≡ some selection
    pub reached : fle observed selection.decision_statistic ≡ true

  -- A stored number is the one expected, up to the equality of floats.
  pub record IsStored (stored : Option Float) (expected : Float) : Type 0 where
    pub number : Float
    pub there : stored ≡ some number
    pub same : feq number expected ≡ true

  pub not_equal-IsStored :
      (stored : Option Float) (expected : Float)
      → not_equal fl stored expected ≡ false
      → IsStored stored expected
  not_equal-IsStored none expected h = cc
  not_equal-IsStored (some x) expected h = record {
    number = x;
    there = refl;
    same = not-eq-false (feq x expected) h;
  }

  failed-IsFailure :
      (s : ReplicateStatus) → is_complete s ≡ false → s ≡ ReplicateStatus.analytic_failure
  failed-IsFailure ReplicateStatus.complete h = cc
  failed-IsFailure ReplicateStatus.analytic_failure h = refl

  no_failure :
      (s : ReplicateStatus) → is_complete s ≡ true → s ≡ ReplicateStatus.analytic_failure → ⊥
  no_failure s h e = let k = rw e at h in cc

  reaches-IsRetained :
      (observed : Float) (o : ReplicateOutcome Float) (status : ReplicateStatus)
      (selection : Option (SelectionResult Float))
      → o.status ≡ status
      → o.selection ≡ selection
      → (is_complete status && reaches fl observed selection) ≡ true
      → IsRetained observed o
  reaches-IsRetained observed o ReplicateStatus.complete none e f h = cc
  reaches-IsRetained observed o ReplicateStatus.complete (some s) e f h = record {
    completed = e;
    selection = s;
    there = f;
    reached = h;
  }
  reaches-IsRetained observed o ReplicateStatus.analytic_failure selection e f h = cc

  not_retained :
      (observed : Float) (o : ReplicateOutcome Float)
      → (is_complete o.status && reaches fl observed o.selection) ≡ false
      → IsRetained observed o
      → ⊥
  not_retained observed o h a = let k = rw (a.completed, a.there, a.reached) at h in cc

  pub IsFailure-Tally :
      (outcomes : List (ReplicateOutcome Float))
      → Tally IsFailure outcomes (count_failures fl outcomes)
  unfolding count_failures
  IsFailure-Tally [] = nothing
  IsFailure-Tally (o ∷ os) = elim (Bool-cases (is_complete o.status)) [
    | inl complete ↦ rw complete (passed (no_failure o.status complete) (IsFailure-Tally os))
    | inr failed ↦ rw failed (counted (failed-IsFailure o.status failed) (IsFailure-Tally os))
  ]

  pub IsRetained-Tally :
      (observed : Float) (outcomes : List (ReplicateOutcome Float))
      → Tally (IsRetained observed) outcomes (count_retained_exceedances fl observed outcomes)
  unfolding count_retained_exceedances
  IsRetained-Tally observed [] = nothing
  IsRetained-Tally observed (o ∷ os) =
      elim (Bool-cases (is_complete o.status && reaches fl observed o.selection)) [
        | inl reached ↦ rw reached (
            counted (reaches-IsRetained observed o o.status o.selection refl refl reached)
              (IsRetained-Tally observed os))
        | inr missed ↦
            rw missed (passed (not_retained observed o missed) (IsRetained-Tally observed os))
      ]
