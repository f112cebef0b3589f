-- ===== src/Nulls/Circular.antt =====
-- src/selcal/nulls/circular_shift_v2.py: the bound circular-shift null. The random source is a
-- state with a step, as its protocol `UniformIndexSource` has it.
pub mod Sampling
pub mod Sampled
pub mod Tokens
pub mod Laws
pub mod Binding
use selcal.Prelude.{
  ℕ, List, [], ◌∷◌, Bool, true, false, not, ◌&&◌, ◌||◌, Option, none, some, String, ◌+◌, ◌-◌, ◌*◌,
  ◌≡◌, length, map, if◌then◌else◌, leb, ltb, ◌==◌,
}
use selcal.Prelude.Int.{ℤ, pos, negsuc, ltb_ℤ, leb_ℤ}
use selcal.Prelude.Index.{range_from}
use selcal.Errors.{Result, ok, err, integrity_error, raise_if, ◌>>=◌, ◌>>◌}
use selcal.Arrays.{lookup_all, sub_mod, equal_numbers}
use selcal.Floats.{Float64}
use selcal.Contracts.{SeriesPair, series_pair}
use selcal.Nulls.Token.{
  Text, token_schema, circular_state_schema, circular_shift_v2, CircularShiftState, NullState,
  circular, block, NullTransformToken, NullTransformResult, differ, require_exact_schema,
  require_sha256, circular_shift_state, null_transform_token,
}
use selcal.Nulls.Owned.{
  Envelope, null_parameters, bound_owner, pair_content, Ownership, PreparedOwnedTransform,
  snapshot_common_token, require_owned_fields, require_ownership, prepare_owned_transform,
  finalize_transform_result,
}

pub record BoundCircularShift (F : Type 0) : Type 0 where
  pub observed_pair : SeriesPair F
  pub min_shift : ℕ
  pub owned : Ownership
  pub observed_length : ℕ
  pub total_state_count : ℕ

-- `NullBindResult`: a bound null when enabled, otherwise the reason.
pub data CircularBind (F : Type 0) : Type 0 where
  enabled : BoundCircularShift F → List String → CircularBind F
  shift_space_empty : CircularBind F

-- The state of a token in the circular policy, and the checks of `_snapshot_circular_token`.
-- The number `shift` is never negative.
unfoldable pub snapshot_circular_state : Bool → NullState → Result CircularShiftState
snapshot_circular_state is_identity (block s) = err integrity_error
snapshot_circular_state is_identity (circular s) = do
  schema ← require_exact_schema s.schema circular_state_schema
  raise_if (differ is_identity (s.shift == 0)) integrity_error
  circular_shift_state schema (pos s.shift)

-- `_snapshot_circular_token`
unfoldable pub snapshot_circular_token :
    NullTransformToken → Result (NullTransformToken × CircularShiftState)
snapshot_circular_token token = do
  common ← snapshot_common_token token circular_shift_v2
  state ← snapshot_circular_state common.is_identity common.state
  snapshot ← null_transform_token (record common { state = circular state })
  ok (snapshot, state)

-- `type(sampled_index) is not int or not 0 <= sampled_index < bound`
unfoldable pub require_index : ℤ → ℕ → Result ℕ
require_index (negsuc n) bound = err integrity_error
require_index (pos n) bound = do raise_if (not (ltb n bound)) integrity_error; ok n

-- The shift of a sampled index
abbrev pub shift_of_index : ℕ → ℕ → ℕ
shift_of_index min_shift sampled_index =
    if sampled_index == 0 then 0 else min_shift + sampled_index - 1

-- `(index - shift) % length for index in range(length)`
abbrev pub right_shift_indices : ℕ → ℕ → List ℕ
right_shift_indices shift length = map (λ index. sub_mod index shift length) (range_from 0 length)

module _ (fl : Float64) (payload : Float64.Float fl → ℤ)
    (sha256 : Envelope (Float64.Float fl) → Text) where
  open fl use {Float}

  -- The loop of `_apply_state`, which writes every entry of the new array once, in order.
  unfoldable pub shifted_source : List Float → ℕ → Result (List Float)
  shifted_source source shift = lookup_all source (right_shift_indices shift (length source))

  -- `_apply_state`
  unfoldable pub apply_circular_state : SeriesPair Float → ℕ → Result (SeriesPair Float)
  apply_circular_state pair shift = do
    source ← shifted_source pair.source shift
    series_pair fl (record { source = source; target = pair.target })

  -- `_expected_right_shift_bytes`
  unfoldable pub expected_right_shift_bytes : List Float → ℕ → Result (List ℤ)
  expected_right_shift_bytes source shift = do
    expected ← lookup_all source (right_shift_indices shift (length source))
    ok (map payload expected)

  -- `_BoundCircularShiftV2.__post_init__`. Its checks all raise the same exception, and those of the
  -- other digests stand in `require_ownership`.
  unfoldable pub bound_circular_shift :
      SeriesPair Float → ℕ → Ownership → Result (BoundCircularShift Float)
  bound_circular_shift observed_pair min_shift owned = do
    raise_if (min_shift == 0) integrity_error
    guard ← require_sha256 owned.observed_content_guard_sha256
    let observed_length = length observed_pair.source
    raise_if (not (equal_numbers guard (sha256 (pair_content observed_pair)))) integrity_error
    raise_if (ltb observed_length (2 * min_shift)) integrity_error
    require_ownership fl payload sha256 circular_shift_v2 min_shift observed_length owned
    ok (record {
      observed_pair = observed_pair;
      min_shift = min_shift;
      owned = owned;
      observed_length = observed_length;
      total_state_count = observed_length - 2 * min_shift + 2;
    })

  -- `CircularShiftNullV2.bind`
  unfoldable pub bind_circular : ℕ → SeriesPair Float → Text → Text → Result (CircularBind Float)
  bind_circular min_shift observed_pair semantic_input_sha256 scientific_plan_sha256 = do
    semantic ← require_sha256 semantic_input_sha256
    plan ← require_sha256 scientific_plan_sha256
    let observed_length = length observed_pair.source
    if ltb observed_length (2 * min_shift) then ok shift_space_empty else (do
      observed_snapshot ← series_pair fl observed_pair
      let parameter = sha256 (null_parameters circular_shift_v2 min_shift)
      bound ← bound_circular_shift observed_snapshot min_shift (record {
        semantic_input_sha256 = semantic;
        scientific_plan_sha256 = plan;
        null_parameter_sha256 = parameter;
        bound_null_owner_sha256 = sha256 (bound_owner semantic plan parameter observed_length);
        observed_content_guard_sha256 = sha256 (pair_content observed_snapshot);
      })
      ok (
          enabled bound (
            if 2 * min_shift == observed_length
            then "circular_shift_orbit_resolution_v2" ∷ []
            else [])))

  -- `_token_for_shift`
  unfoldable pub token_for_shift : BoundCircularShift Float → ℕ → Result NullTransformToken
  token_for_shift bound shift = do
    state ← circular_shift_state circular_state_schema (pos shift)
    null_transform_token (record {
      schema = token_schema;
      null_name = circular_shift_v2;
      null_parameter_sha256 = bound.owned.null_parameter_sha256;
      semantic_input_sha256 = bound.owned.semantic_input_sha256;
      scientific_plan_sha256 = bound.owned.scientific_plan_sha256;
      bound_null_owner_sha256 = bound.owned.bound_null_owner_sha256;
      is_identity = shift == 0;
      state = circular state;
    })

  -- `sample_token`
  unfoldable pub sample_circular_token :
      {S : Type 0}
      → (ℕ → S → Result (ℤ × S))
      → BoundCircularShift Float
      → S
      → Result (NullTransformToken × S)
  sample_circular_token randbelow bound s = do
    drawn ← randbelow bound.total_state_count s
    sampled_index ← require_index drawn.0 bound.total_state_count
    token ← token_for_shift bound (shift_of_index bound.min_shift sampled_index)
    ok (token, drawn.1)

  -- `_validate_token_before_data_access`
  unfoldable pub validate_circular_token :
      BoundCircularShift Float
      → NullTransformToken
      → Result (NullTransformToken × CircularShiftState)
  validate_circular_token bound token = do
    raise_if (bound.min_shift == 0) integrity_error
    raise_if (bound.observed_length == 0) integrity_error
    raise_if (ltb bound.observed_length (2 * bound.min_shift)) integrity_error
    require_ownership fl payload sha256 circular_shift_v2 bound.min_shift bound.observed_length
        bound.owned
    snapshot ← snapshot_circular_token token
    require_owned_fields snapshot.0 circular_shift_v2 bound.owned
    let shift = snapshot.1.shift
    raise_if
        (not (shift == 0)
          && not (leb bound.min_shift shift && leb shift (bound.observed_length - bound.min_shift)))
        integrity_error
    ok snapshot

  -- `apply`
  unfoldable pub apply_circular :
      BoundCircularShift Float → NullTransformToken → Result (NullTransformResult Float)
  apply_circular bound token = do
    validated ← validate_circular_token bound token
    prepared ←
        prepare_owned_transform fl payload sha256 bound.observed_pair
          bound.owned.observed_content_guard_sha256
    let golden = prepared.golden
    raise_if (not (length golden.source == bound.observed_length)) integrity_error
    expected ← expected_right_shift_bytes golden.source validated.1.shift
    transformed ← apply_circular_state prepared.transform_input validated.1.shift
    finalize_transform_result fl payload sha256 transformed golden validated.0 expected
