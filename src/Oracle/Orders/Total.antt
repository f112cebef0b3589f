-- ===== src/Oracle/Orders/Total.antt =====
-- The block enumeration: every order is transformed and evaluated, and the result is accepted.
use selcal.Prelude.{ℕ, List, ◌≢◌}
use selcal.Prelude.Tally.{Tally}
use selcal.Prelude.Int.{ℤ}
use selcal.Errors.{Result}
use selcal.Floats.{Float64}
use selcal.Contracts.{SeriesPair}
use selcal.Nulls.Token.{labels_below}
use selcal.Oracle.Blocks.{reordered}
use selcal.Oracle.Enumeration.{Reaches}

module _ (fl : Float64)
    (decision_statistic : SeriesPair (Float64.Float fl) → Result (Float64.Float fl)) where
  open fl use {Float, is_finite, feq, fle, ratio}

  -- An order of `q` labels is not the identity, and its pair, the join of the source blocks of
  -- length `l` in the order and the target unchanged, has a statistic at or above `observed`.
  unfoldable pub IsExceedance : SeriesPair Float → ℕ → ℕ → Float → List ℤ → Type 0
  IsExceedance pair q l observed order =
      (order ≢ labels_below q) × Reaches fl decision_statistic observed (reordered fl pair l order)
