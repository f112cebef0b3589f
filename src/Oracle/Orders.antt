-- ===== src/Oracle/Orders.antt =====
-- The block branch of src/selcal/exact_oracle_v0.py: every order of the blocks but the identity is
-- transformed and counted. `itertools.permutations` of the language takes each element in turn and
-- goes on with the others.
pub mod Permutations
pub mod Total
mod Tests
use selcal.Prelude.{
  ℕ, zero, suc, ◌+◌, List, [], ◌∷◌, ◌++◌, Bool, true, false, length, map, if◌then◌else◌,
}
use selcal.Prelude.Int.{ℤ}
use selcal.Errors.{Result, ok, ◌>>=◌}
use selcal.Floats.{Float64}
use selcal.Contracts.{SeriesPair}
use selcal.Nulls.Token.{equal_labels, labels_below}
use selcal.Oracle.{block_state_count, block_pair, ExactOracleResult, exact_oracle_result}

-- Each element, with the other elements in order
unfoldable pub picks : {A : Type 0} → List A → List (A × List A)
picks [] = []
picks (x ∷ xs) = (x, xs) ∷ map (λ p. (p.0, x ∷ p.1)) (picks xs)

-- What follows each first element
unfoldable pub begin_with :
    {A : Type 0} → (List A → List (List A)) → List (A × List A) → List (List A)
begin_with orders [] = []
begin_with orders (p ∷ ps) = map (λ order. p.0 ∷ order) (orders p.1) ++ begin_with orders ps

-- `itertools.permutations` of a sequence of `size` elements
unfoldable pub permutations : {A : Type 0} → ℕ → List A → List (List A)
unfolding picks begin_with
permutations zero xs = [] ∷ []
permutations (suc size) xs = begin_with (permutations size) (picks xs)

module _ (fl : Float64)
    (decision_statistic : SeriesPair (Float64.Float fl) → Result (Float64.Float fl)) where
  open fl use {Float, fle, ratio}

  -- The loop of `_block_exceedances`
  unfoldable pub count_orders : SeriesPair Float → Float → ℕ → List ℤ → List (List ℤ) → Result ℕ
  unfolding equal_labels
  count_orders pair observed block_length identity_order [] = ok 0
  count_orders pair observed block_length identity_order (block_order ∷ orders) =
      let counted = count_orders pair observed block_length identity_order orders in
      if equal_labels block_order identity_order then counted else (do
        transformed ← block_pair fl pair block_order block_length
        state_decision ← decision_statistic transformed
        rest ← counted
        ok (if fle observed state_decision then suc rest else rest))

  -- `_block_exceedances`
  unfoldable pub block_exceedances : SeriesPair Float → Float → ℕ → ℕ → Result ℕ
  unfolding permutations
  block_exceedances pair observed block_length block_count =
      count_orders pair observed block_length (labels_below block_count)
        (permutations block_count (labels_below block_count))

  -- The block branch of `exact_state_oracle_v0`
  unfoldable pub exact_block_oracle : SeriesPair Float → ℤ → Result (ExactOracleResult Float)
  exact_block_oracle pair block_length_parameter = do
    counted ← block_state_count (length pair.source) block_length_parameter
    observed ← decision_statistic pair
    count ← block_exceedances pair observed counted.1 counted.2
    exact_oracle_result fl (record {
      p_exact = ratio (1 + count) counted.0;
      total_state_count = counted.0;
      nonidentity_exceedance_count = count;
    })
