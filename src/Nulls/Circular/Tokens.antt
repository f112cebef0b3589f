-- ===== src/Nulls/Circular/Tokens.antt =====
-- The tokens of a bound circular null, which pass its checks.
use selcal.Prelude.{
  ℕ, Bool, true, false, not, ◌&&◌, ◌-◌, ◌*◌, ◌<◌, ◌≡◌, refl, arith, length, leb, ltb, ◌==◌, inl,
  inr,
}
use selcal.Prelude.Int.{ℤ, pos}
use selcal.Errors.{ok}
use selcal.Arrays.Laws.{equal_numbers_refl}
use selcal.Floats.{Float64}
use selcal.Contracts.Normal.{IsPair}
use selcal.Nulls.Token.{
  Text, token_schema, circular_state_schema, circular_shift_v2, circular, NullTransformToken,
  require_sha256, circular_shift_state, null_transform_token, expected_identity, differ,
}
use selcal.Nulls.Owned.{Envelope, pair_content, snapshot_common_token, require_ownership}
use selcal.Nulls.Owned.Laws.{IsOwned, require_ownership-IsOwned, require_owned_fields_lem}
use selcal.Nulls.Circular.{
  BoundCircularShift, snapshot_circular_state, snapshot_circular_token, token_for_shift,
  validate_circular_token,
}
use selcal.Nulls.Circular.Sampling.{IsShift}

pub differ_self : (b : Bool) → differ b b ≡ false
differ_self true = refl
differ_self false = refl

-- The last check of `_validate_token_before_data_access` passes for the null's shifts.
in_state_space :
    (m n shift : ℕ)
    → IsShift m n shift
    → (not (shift == 0) && not (leb m shift && leb shift (n - m))) ≡ false
unfolding IsShift
in_state_space m n shift (inl z) = ground arith
in_state_space m n shift (inr (low, high)) = ground arith

pub IsShift-lt :
    (m n shift : ℕ) → IsShift m n shift → (m == 0) ≡ false → ltb n (2 * m) ≡ false → shift < n
unfolding IsShift
IsShift-lt m n shift (inl z) p q = ground arith
IsShift-lt m n shift (inr (low, high)) p q = ground arith

pub filled_length : (n m : ℕ) → (m == 0) ≡ false → ltb n (2 * m) ≡ false → (n == 0) ≡ false
filled_length n m p q = ground arith

-- What `_BoundCircularShiftV2.__post_init__` has checked of a bound null.
module _ (fl : Float64) (payload : Float64.Float fl → ℤ)
    (sha256 : Envelope (Float64.Float fl) → Text) where
  open fl use {Float}

  pub record IsBound (bound : BoundCircularShift Float) : Type 0 where
    pub pair : IsPair fl bound.observed_pair
    pub positive : (bound.min_shift == 0) ≡ false
    pub enough : ltb bound.observed_length (2 * bound.min_shift) ≡ false
    pub size : bound.observed_length ≡ length bound.observed_pair.source
    pub guard :
        bound.owned.observed_content_guard_sha256 ≡ sha256 (pair_content bound.observed_pair)
    pub guard_hex :
        require_sha256 (sha256 (pair_content bound.observed_pair))
        ≡ ok (sha256 (pair_content bound.observed_pair))
    pub owned :
        require_ownership fl payload sha256 circular_shift_v2 bound.min_shift bound.observed_length
          bound.owned
        ≡ ok tt

  -- The token of a shift
  abbrev pub owned_token : BoundCircularShift Float → ℕ → NullTransformToken
  owned_token bound shift = record {
    schema = token_schema;
    null_name = circular_shift_v2;
    null_parameter_sha256 = bound.owned.null_parameter_sha256;
    semantic_input_sha256 = bound.owned.semantic_input_sha256;
    scientific_plan_sha256 = bound.owned.scientific_plan_sha256;
    bound_null_owner_sha256 = bound.owned.bound_null_owner_sha256;
    is_identity = shift == 0;
    state = circular (record { schema = circular_state_schema; shift = shift });
  }

  circular_shift_state_lem :
      (shift : ℕ)
      → circular_shift_state circular_state_schema (pos shift)
        ≡ ok (record { schema = circular_state_schema; shift = shift })
  unfolding circular_shift_state
  circular_shift_state_lem shift = rw (equal_numbers_refl circular_state_schema)

  null_transform_token_lem :
      (bound : BoundCircularShift Float) (shift : ℕ)
      → IsOwned bound.owned
      → null_transform_token (owned_token bound shift) ≡ ok (owned_token bound shift)
  unfolding null_transform_token expected_identity
  null_transform_token_lem bound shift h =
      rw
        (
          equal_numbers_refl token_schema,
          equal_numbers_refl circular_shift_v2,
          h.parameter,
          h.semantic,
          h.plan,
          h.owner,
        )
        (ground arith)

  pub token_for_shift_lem :
      (bound : BoundCircularShift Float) (shift : ℕ)
      → IsOwned bound.owned
      → token_for_shift fl payload sha256 bound shift ≡ ok (owned_token bound shift)
  unfolding token_for_shift
  token_for_shift_lem bound shift h =
      rw (circular_shift_state_lem shift, null_transform_token_lem bound shift h)

  pub snapshot_circular_token_lem :
      (bound : BoundCircularShift Float) (shift : ℕ)
      → IsOwned bound.owned
      → snapshot_circular_token (owned_token bound shift)
        ≡ ok (owned_token bound shift, record { schema = circular_state_schema; shift = shift })
  unfolding snapshot_circular_token snapshot_circular_state snapshot_common_token
  snapshot_circular_token_lem bound shift h =
      rw
        (
          equal_numbers_refl token_schema,
          equal_numbers_refl circular_shift_v2,
          h.parameter,
          h.semantic,
          h.plan,
          h.owner,
          equal_numbers_refl circular_state_schema,
        )
        (rw (
          differ_self (shift == 0),
          circular_shift_state_lem shift,
          null_transform_token_lem bound shift h,
        ))

  pub validate_circular_token_lem :
      (bound : BoundCircularShift Float) (shift : ℕ)
      → IsBound bound
      → IsShift bound.min_shift bound.observed_length shift
      → validate_circular_token fl payload sha256 bound (owned_token bound shift)
        ≡ ok (owned_token bound shift, record { schema = circular_state_schema; shift = shift })
  unfolding validate_circular_token
  validate_circular_token_lem bound shift b s =
      let owned =
        require_ownership-IsOwned fl payload sha256 circular_shift_v2 bound.min_shift
          bound.observed_length bound.owned b.owned in
      let fields =
        require_owned_fields_lem fl payload sha256 (owned_token bound shift) circular_shift_v2
          bound.owned refl refl refl refl refl refl in
      rw (
        b.positive,
        filled_length bound.observed_length bound.min_shift b.positive b.enough,
        b.enough,
        b.owned,
        snapshot_circular_token_lem bound shift owned,
        fields,
        in_state_space bound.min_shift bound.observed_length shift s,
      )
