-- ===== src/Oracle.antt =====
-- src/selcal/exact_oracle_v0.py: the independent enumeration of the states of the two nulls. The
-- decision statistic of a state, a call of the bound statistic adapter and a reselection, is a
-- parameter of the loops.
pub mod Counts
pub mod Blocks
pub mod Enumeration
pub mod Orders
mod Tests
use selcal.Prelude.{
  ℕ, zero, suc, ◌+◌, ◌-◌, ◌*◌, ◌/◌, ◌%◌, List, [], ◌∷◌, ◌++◌, Bool, true, false, not, ◌||◌, Option,
  none, some, ◌≡◌, length, map, if◌then◌else◌, leb, ltb, ◌==◌,
}
use selcal.Prelude.Int.{ℤ, pos, negsuc}
use selcal.Prelude.Index.{range_from}
use selcal.Errors.{Result, ok, err, integrity_error, resource_limit_error, raise_if, ◌>>=◌, ◌>>◌}
use selcal.Arrays.{lookup_all, sub_mod}
use selcal.Support.{magnitude}
use selcal.Floats.{Float64}
use selcal.Contracts.{SeriesPair, series_pair}

-- `MAX_EXACT_STATES_V0`
abbrev pub max_exact_states : ℕ
max_exact_states = 100_000

-- `_circular_state_count`
unfoldable pub circular_state_count : ℕ → ℤ → Result (ℕ × ℕ)
circular_state_count observed_length (negsuc n) = err integrity_error
circular_state_count observed_length (pos min_shift) = do
  raise_if (ltb min_shift 1) integrity_error
  raise_if (ltb observed_length (2 * min_shift)) integrity_error
  raise_if (ltb max_exact_states (observed_length - 2 * min_shift + 2)) resource_limit_error
  ok (observed_length - 2 * min_shift + 2, min_shift)

-- The loop of `_block_state_count`: `rounds` factors are left, from `factor` on.
unfoldable pub multiply_factors : ℕ → ℕ → ℕ → Result ℕ
multiply_factors zero total_state_count factor = ok total_state_count
multiply_factors (suc rounds) total_state_count factor = do
  raise_if (ltb (max_exact_states / factor) total_state_count) resource_limit_error
  multiply_factors rounds (total_state_count * factor) (suc factor)

-- `_block_state_count`; the factors run from 2 to the block count.
unfoldable pub block_state_count : ℕ → ℤ → Result (ℕ × ℕ × ℕ)
block_state_count observed_length (negsuc n) = err integrity_error
block_state_count observed_length (pos block_length) = do
  raise_if (ltb block_length 1) integrity_error
  raise_if (not (observed_length % block_length == 0)) integrity_error
  raise_if (ltb (observed_length / block_length) 2) integrity_error
  total_state_count ← multiply_factors (observed_length / block_length - 1) 1 2
  ok (total_state_count, block_length, observed_length / block_length)

pub record ExactOracleResult (F : Type 0) : Type 0 where
  pub p_exact : F
  pub total_state_count : ℕ
  pub nonidentity_exceedance_count : ℕ

module _ (fl : Float64) where
  open fl use {Float, is_finite, feq, fle, ratio}

  -- `ExactOracleResultV0.__post_init__`
  unfoldable pub exact_oracle_result : ExactOracleResult Float → Result (ExactOracleResult Float)
  exact_oracle_result r = do
    raise_if (ltb r.total_state_count 1 || ltb max_exact_states r.total_state_count) integrity_error
    raise_if (not (ltb r.nonidentity_exceedance_count r.total_state_count)) integrity_error
    raise_if (not (is_finite r.p_exact)) integrity_error
    raise_if (not (feq r.p_exact (ratio (1 + r.nonidentity_exceedance_count) r.total_state_count)))
        integrity_error
    ok r

  -- `_circular_pair`
  unfoldable pub circular_pair : SeriesPair Float → ℕ → Result (SeriesPair Float)
  circular_pair pair shift = do
    source ← lookup_all pair.source (
        map (λ index. sub_mod index shift (length pair.source)) (range_from 0 (length pair.source)))
    series_pair fl (record { source = source; target = pair.target })

  -- The loops of `_block_pair`: the entries of one block after those of the block before.
  unfoldable pub block_entries : List Float → ℕ → List ℤ → Result (List Float)
  block_entries source block_length [] = ok []
  block_entries source block_length (block_label ∷ block_order) = do
    block ← lookup_all source (range_from (magnitude block_label * block_length) block_length)
    rest ← block_entries source block_length block_order
    ok (block ++ rest)

  -- `_block_pair`
  unfoldable pub block_pair : SeriesPair Float → List ℤ → ℕ → Result (SeriesPair Float)
  block_pair pair block_order block_length = do
    source ← block_entries pair.source block_length block_order
    series_pair fl (record { source = source; target = pair.target })

  module _ (decision_statistic : SeriesPair Float → Result Float) where
    -- The loop of `_circular_exceedances` over a range of shifts
    unfoldable pub count_shifts : SeriesPair Float → Float → List ℕ → Result ℕ
    count_shifts pair observed [] = ok 0
    count_shifts pair observed (shift ∷ shifts) = do
      transformed ← circular_pair pair shift
      state_decision ← decision_statistic transformed
      rest ← count_shifts pair observed shifts
      ok (if fle observed state_decision then suc rest else rest)

    -- `range(min_shift, observed_length - min_shift + 1)`
    unfoldable pub circular_exceedances : SeriesPair Float → Float → ℕ → Result ℕ
    circular_exceedances pair observed min_shift =
        count_shifts pair observed
          (range_from min_shift (length pair.source - min_shift + 1 - min_shift))

    -- The circular branch of `exact_state_oracle_v0`
    unfoldable pub exact_circular_oracle : SeriesPair Float → ℤ → Result (ExactOracleResult Float)
    exact_circular_oracle pair min_shift_parameter = do
      counted ← circular_state_count (length pair.source) min_shift_parameter
      observed ← decision_statistic pair
      count ← circular_exceedances pair observed counted.1
      exact_oracle_result (record {
        p_exact = ratio (1 + count) counted.0;
        total_state_count = counted.0;
        nonidentity_exceedance_count = count;
      })
