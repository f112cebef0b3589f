-- ===== src/Nulls/Block/Bound.antt =====
-- The bound null of src/selcal/nulls/block_shuffle_v2.py: binding, tokens and the transform. What
-- `np.empty_like` leaves in an array is a parameter, a vector for a vector.
pub mod Tokens
pub mod Apply
pub mod Accept
mod Tests
use selcal.Prelude.{
  ℕ, List, [], Bool, not, ◌||◌, Option, none, some, ◌/◌, ◌%◌, length, map, ltb, ◌==◌,
}
use selcal.Prelude.Factorial.{factorial}
use selcal.Prelude.Int.{ℤ}
use selcal.Errors.{Result, ok, err, integrity_error, raise_if, ◌>>=◌, ◌>>◌}
use selcal.Arrays.{equal_numbers}
use selcal.Floats.{Float64}
use selcal.Contracts.{SeriesPair, series_pair}
use selcal.Nulls.Token.{
  Text, token_schema, block_state_schema, block_shuffle_v2, BlockShuffleState, NullState, circular,
  block, NullTransformToken, NullTransformResult, differ, require_exact_schema, require_sha256,
  block_shuffle_state, null_transform_token, equal_labels, labels_below,
}
use selcal.Nulls.Owned.{
  Envelope, null_parameters, bound_owner, pair_content, Ownership, snapshot_common_token,
  require_owned_fields, require_ownership, prepare_owned_transform, finalize_transform_result,
}
use selcal.Nulls.Block.{
  validate_block_order, sample_block_order, write_blocks, expected_block_mapping, BlockBind,
  enabled, bind_block_count,
}

pub record BoundBlockShuffle (F : Type 0) : Type 0 where
  pub observed_pair : SeriesPair F
  pub block_length : ℕ
  pub block_count : ℕ
  pub owned : Ownership
  pub observed_length : ℕ
  pub total_state_count : ℕ

-- `NullBindResult`: a bound null when enabled, otherwise the reason.
pub data BlockBindResult (F : Type 0) : Type 0 where
  bound_null : BoundBlockShuffle F → BlockBindResult F
  disabled : BlockBind → BlockBindResult F

-- `_MAX_BLOCK_COUNT`
abbrev pub max_block_count : ℕ
max_block_count = 4096

-- The state of a token in the block policy, and the checks of `_snapshot_block_token`
unfoldable pub snapshot_block_state : Bool → NullState → Result BlockShuffleState
unfolding validate_block_order equal_labels
snapshot_block_state is_identity (circular s) = err integrity_error
snapshot_block_state is_identity (block s) = do
  schema ← require_exact_schema s.schema block_state_schema
  order ← validate_block_order s.block_order none
  raise_if (differ is_identity (equal_labels order (labels_below (length order)))) integrity_error
  block_shuffle_state schema order

-- `_snapshot_block_token`
unfoldable pub snapshot_block_token :
    NullTransformToken → Result (NullTransformToken × BlockShuffleState)
snapshot_block_token token = do
  common ← snapshot_common_token token block_shuffle_v2
  state ← snapshot_block_state common.is_identity common.state
  snapshot ← null_transform_token (record common { state = block state })
  ok (snapshot, state)

-- `observed_length % block_length != 0 or observed_length // block_length != block_count`
abbrev pub not_covered : ℕ → ℕ → ℕ → Bool
not_covered observed_length block_length block_count =
    not (observed_length % block_length == 0) || not (observed_length / block_length == block_count)

module _ (fl : Float64) (payload : Float64.Float fl → ℤ)
    (sha256 : Envelope (Float64.Float fl) → Text)
    (empty_like : List (Float64.Float fl) → List (Float64.Float fl)) where
  open fl use {Float}

  -- `_apply_state`
  unfoldable pub apply_block_state : SeriesPair Float → List ℤ → ℕ → Result (SeriesPair Float)
  apply_block_state pair block_order block_length = do
    source ← write_blocks pair.source block_length 0 block_order (empty_like pair.source)
    series_pair fl (record { source = source; target = pair.target })

  -- `_BoundBlockShuffleV2.__post_init__`. Its checks all raise the same exception, and those of the
  -- other digests stand in `require_ownership`.
  unfoldable pub bound_block_shuffle :
      SeriesPair Float → ℕ → ℕ → Ownership → Result (BoundBlockShuffle Float)
  bound_block_shuffle observed_pair block_length block_count owned = do
    raise_if (block_length == 0) integrity_error
    raise_if (ltb block_count 2 || ltb max_block_count block_count) integrity_error
    guard ← require_sha256 owned.observed_content_guard_sha256
    let observed_length = length observed_pair.source
    raise_if (not (equal_numbers guard (sha256 (pair_content observed_pair)))) integrity_error
    raise_if (not_covered observed_length block_length block_count) integrity_error
    require_ownership fl payload sha256 block_shuffle_v2 block_length observed_length owned
    ok (record {
      observed_pair = observed_pair;
      block_length = block_length;
      block_count = block_count;
      owned = owned;
      observed_length = observed_length;
      total_state_count = factorial block_count;
    })

  -- The last part of `bind`, after its tests of the length
  unfoldable pub bind_enabled :
      ℕ → ℕ → SeriesPair Float → Text → Text → Result (BlockBindResult Float)
  bind_enabled block_length block_count observed_pair semantic plan = do
    observed_snapshot ← series_pair fl observed_pair
    let parameter = sha256 (null_parameters block_shuffle_v2 block_length)
    let observed_length = length observed_pair.source
    bound ← bound_block_shuffle observed_snapshot block_length block_count (record {
      semantic_input_sha256 = semantic;
      scientific_plan_sha256 = plan;
      null_parameter_sha256 = parameter;
      bound_null_owner_sha256 = sha256 (bound_owner semantic plan parameter observed_length);
      observed_content_guard_sha256 = sha256 (pair_content observed_snapshot);
    })
    ok (bound_null bound)

  unfoldable pub bind_by_count :
      BlockBind → ℕ → SeriesPair Float → Text → Text → Result (BlockBindResult Float)
  bind_by_count (enabled block_count) block_length observed_pair semantic plan =
      bind_enabled block_length block_count observed_pair semantic plan
  bind_by_count reason block_length observed_pair semantic plan = ok (disabled reason)

  -- `BlockShuffleNullV2.bind`
  unfoldable pub bind_block : ℕ → SeriesPair Float → Text → Text → Result (BlockBindResult Float)
  bind_block block_length observed_pair semantic_input_sha256 scientific_plan_sha256 = do
    semantic ← require_sha256 semantic_input_sha256
    plan ← require_sha256 scientific_plan_sha256
    bind_by_count (bind_block_count (length observed_pair.source) block_length) block_length
        observed_pair semantic plan

  -- `_token_for_order`
  unfoldable pub token_for_order : BoundBlockShuffle Float → List ℤ → Result NullTransformToken
  token_for_order bound block_order = do
    state ← block_shuffle_state block_state_schema block_order
    null_transform_token (record {
      schema = token_schema;
      null_name = block_shuffle_v2;
      null_parameter_sha256 = bound.owned.null_parameter_sha256;
      semantic_input_sha256 = bound.owned.semantic_input_sha256;
      scientific_plan_sha256 = bound.owned.scientific_plan_sha256;
      bound_null_owner_sha256 = bound.owned.bound_null_owner_sha256;
      is_identity = equal_labels block_order (labels_below bound.block_count);
      state = block state;
    })

  -- `sample_token`
  unfoldable pub sample_block_token :
      {S : Type 0}
      → (ℕ → S → Result (ℤ × S))
      → BoundBlockShuffle Float
      → S
      → Result (NullTransformToken × S)
  sample_block_token randbelow bound s = do
    sampled ← sample_block_order randbelow bound.block_count s
    token ← token_for_order bound sampled.0
    ok (token, sampled.1)

  -- `_validate_token_before_data_access`
  unfoldable pub validate_block_token :
      BoundBlockShuffle Float → NullTransformToken → Result (NullTransformToken × BlockShuffleState)
  validate_block_token bound token = do
    raise_if
        (bound.block_length == 0
          || (ltb bound.block_count 2 || ltb max_block_count bound.block_count)
          || bound.observed_length == 0)
        integrity_error
    raise_if (not_covered bound.observed_length bound.block_length bound.block_count)
        integrity_error
    require_ownership fl payload sha256 block_shuffle_v2 bound.block_length bound.observed_length
        bound.owned
    snapshot ← snapshot_block_token token
    require_owned_fields snapshot.0 block_shuffle_v2 bound.owned
    order ← validate_block_order snapshot.1.block_order (some bound.block_count)
    ok snapshot

  -- `apply`
  unfoldable pub apply_block :
      BoundBlockShuffle Float → NullTransformToken → Result (NullTransformResult Float)
  apply_block bound token = do
    validated ← validate_block_token bound token
    prepared ←
        prepare_owned_transform fl payload sha256 bound.observed_pair
          bound.owned.observed_content_guard_sha256
    let golden = prepared.golden
    raise_if (not (length golden.source == bound.observed_length)) integrity_error
    let expected =
        map payload
          (expected_block_mapping golden.source bound.block_length validated.1.block_order)
    transformed ←
        apply_block_state prepared.transform_input validated.1.block_order bound.block_length
    finalize_transform_result fl payload sha256 transformed golden validated.0 expected
