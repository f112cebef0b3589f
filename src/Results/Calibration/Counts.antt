-- ===== src/Results/Calibration/Counts.antt =====
-- The exceedance and failure counts of a run: what a run with failed replicates knows of the
-- count that it would have had.
use selcal.Prelude.{◌+◌, ◌≤◌, List, [], ◌∷◌, true, false, ◌≡◌, arith, length, inl, inr, Bool-cases}
use selcal.Floats.{Float64}
use selcal.Results.Outcome.{ReplicateOutcome}
use selcal.Results.Run.{
  is_complete, reaches, count_exceedances, count_retained_exceedances, count_failures,
}

module _ (fl : Float64) where
  open fl use {Float, fle}

  -- `completed` has a complete outcome in the place of each failed one, and keeps the others.
  pub data Completes : List (ReplicateOutcome Float) → List (ReplicateOutcome Float) → Type 0 where
    done : Completes [] []
    kept :
        {r : ReplicateOutcome Float} {rs completed : List (ReplicateOutcome Float)}
        → is_complete r.status ≡ true
        → Completes rs completed
        → Completes (r ∷ rs) (r ∷ completed)
    replaced :
        {r new : ReplicateOutcome Float} {rs completed : List (ReplicateOutcome Float)}
        → is_complete r.status ≡ false
        → Completes rs completed
        → Completes (r ∷ rs) (new ∷ completed)

  -- The bounds of a failed run are right: however its failed replicates would have come out, the
  -- exceedance count of the completed run is at least the retained count and at most that count
  -- plus the number of failures.
  pub counts_enclose :
      (observed : Float) {replicates completed : List (ReplicateOutcome Float)}
      → Completes replicates completed
      → (count_retained_exceedances fl observed replicates
          ≤ count_exceedances fl observed completed)
        × (count_exceedances fl observed completed
            ≤ count_retained_exceedances fl observed replicates + count_failures fl replicates)
  unfolding count_exceedances count_retained_exceedances count_failures
  counts_enclose observed done = (omega arith, omega arith)
  counts_enclose observed (kept {r = r} e c) =
      let (low, high) = counts_enclose observed c in
      elim (Bool-cases (reaches fl observed r.selection)) [
        | inl reached ↦ rw (e, reached) (omega arith, omega arith)
        | inr missed ↦ rw (e, missed) (omega arith, omega arith)
      ]
  counts_enclose observed (replaced {new = new} e c) =
      let (low, high) = counts_enclose observed c in
      elim (Bool-cases (reaches fl observed new.selection)) [
        | inl reached ↦ rw (e, reached) (omega arith, omega arith)
        | inr missed ↦ rw (e, missed) (omega arith, omega arith)
      ]

  -- Neither count is more than the number of replicates, and together they are not.
  pub counts_bounded :
      (observed : Float) (replicates : List (ReplicateOutcome Float))
      → (count_exceedances fl observed replicates ≤ length replicates)
        × (count_retained_exceedances fl observed replicates + count_failures fl replicates
            ≤ length replicates)
  unfolding count_exceedances count_retained_exceedances count_failures
  counts_bounded observed [] = (omega arith, omega arith)
  counts_bounded observed (r ∷ rs) =
      let (a, b) = counts_bounded observed rs in (ground arith, ground arith)
