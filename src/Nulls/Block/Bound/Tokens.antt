-- ===== src/Nulls/Block/Bound/Tokens.antt =====
-- The tokens of a bound block null, which pass its checks.
use mathlib.Core.List.{Perm}
use mathlib.Core.List.Perm as P
use selcal.Prelude.{
  ℕ, List, [], ◌∷◌, true, false, not, ◌≤◌, ◌≡◌, refl, sym, ◌∙◌, ap, arith, length, ltb, ◌==◌, some,
  none,
}
use selcal.Prelude.Int.{ℤ}
use selcal.Errors.{ok}
use selcal.Arrays.{equal_numbers}
use selcal.Arrays.Laws.{equal_numbers_refl}
use selcal.Floats.{Float64}
use selcal.Candidates.{contains}
use selcal.Candidates.Perms.{contains-perm}
use selcal.Contracts.Normal.{IsPair}
use selcal.Nulls.Token.{
  Text, token_schema, block_state_schema, block_shuffle_v2, circular_shift_v2,
  circular_shift_exact_v1, block, NullTransformToken, require_sha256, block_shuffle_state,
  null_transform_token, expected_identity, is_subset, equal_labels, labels_below,
}
use selcal.Nulls.Owned.{Envelope, pair_content, snapshot_common_token, require_ownership}
use selcal.Nulls.Owned.Laws.{
  IsOwned, require_ownership-IsOwned, require_owned_fields_lem, same_length,
}
use selcal.Nulls.Circular.Tokens.{differ_self}
use selcal.Nulls.Block.Shuffle.{length-perm, length-labels_below, validate_block_order-perm}
use selcal.Nulls.Block.Bound.{
  BoundBlockShuffle, max_block_count, not_covered, snapshot_block_state, snapshot_block_token,
  token_for_order, validate_block_token,
}

is_subset_of :
    (xs ys : List ℤ)
    → ((z : ℤ) → contains z xs ≡ true → contains z ys ≡ true)
    → is_subset xs ys ≡ true
unfolding is_subset contains
is_subset_of [] ys h = refl
is_subset_of (x ∷ xs) ys h =
    let first = h x (ground arith) in
    let rest = is_subset_of xs ys (λ z e. h z (ground arith)) in rw (first, rest) refl

is_subset-perm : {xs ys : List ℤ} → Perm xs ys → is_subset xs ys ≡ true
is_subset-perm {xs} {ys} p = is_subset_of xs ys (λ z e. sym (contains-perm z p) ∙ e)

not_circular : equal_numbers block_shuffle_v2 circular_shift_v2 ≡ false
unfolding equal_numbers
not_circular = refl

not_exact : equal_numbers block_shuffle_v2 circular_shift_exact_v1 ≡ false
unfolding equal_numbers
not_exact = refl

module _ (q : ℕ) (order : List ℤ) (enough : 2 ≤ q) (p : Perm (labels_below q) order) where
  length-order : length order ≡ q
  length-order = sym (length-perm p) ∙ length-labels_below q

  not_few : ltb q 2 ≡ false
  not_few = let h = enough in ground arith

  pub block_shuffle_state_lem :
      block_shuffle_state block_state_schema order
      ≡ ok (record { schema = block_state_schema; block_order = order })
  unfolding block_shuffle_state
  block_shuffle_state_lem = rw (
    equal_numbers_refl block_state_schema,
    length-order,
    not_few,
    is_subset-perm (P.symm p),
    is_subset-perm p,
  )

-- What `_BoundBlockShuffleV2.__post_init__` has checked of a bound null.
module _ (fl : Float64) (payload : Float64.Float fl → ℤ)
    (sha256 : Envelope (Float64.Float fl) → Text)
    (empty_like : List (Float64.Float fl) → List (Float64.Float fl)) where
  open fl use {Float}

  pub record IsBound (bound : BoundBlockShuffle Float) : Type 0 where
    pub pair : IsPair fl bound.observed_pair
    pub positive : (bound.block_length == 0) ≡ false
    pub enough : 2 ≤ bound.block_count
    pub small : bound.block_count ≤ max_block_count
    pub size : bound.observed_length ≡ length bound.observed_pair.source
    pub filled : (bound.observed_length == 0) ≡ false
    pub covered : not_covered bound.observed_length bound.block_length bound.block_count ≡ false
    pub guard :
        bound.owned.observed_content_guard_sha256 ≡ sha256 (pair_content bound.observed_pair)
    pub guard_hex :
        require_sha256 (sha256 (pair_content bound.observed_pair))
        ≡ ok (sha256 (pair_content bound.observed_pair))
    pub owned :
        require_ownership fl payload sha256 block_shuffle_v2 bound.block_length
          bound.observed_length bound.owned
        ≡ ok tt

  -- The token of an order
  abbrev pub owned_token : BoundBlockShuffle Float → List ℤ → NullTransformToken
  owned_token bound order = record {
    schema = token_schema;
    null_name = block_shuffle_v2;
    null_parameter_sha256 = bound.owned.null_parameter_sha256;
    semantic_input_sha256 = bound.owned.semantic_input_sha256;
    scientific_plan_sha256 = bound.owned.scientific_plan_sha256;
    bound_null_owner_sha256 = bound.owned.bound_null_owner_sha256;
    is_identity = equal_labels order (labels_below bound.block_count);
    state = block (record { schema = block_state_schema; block_order = order });
  }

  module _ (bound : BoundBlockShuffle Float) (order : List ℤ) (b : IsBound bound)
      (p : Perm (labels_below bound.block_count) order) where
    owned_digests : IsOwned bound.owned
    owned_digests =
        require_ownership-IsOwned fl payload sha256 block_shuffle_v2 bound.block_length
          bound.observed_length bound.owned b.owned

    null_transform_token_lem :
        null_transform_token (owned_token bound order) ≡ ok (owned_token bound order)
    unfolding null_transform_token expected_identity
    null_transform_token_lem =
        let h = owned_digests in
        let count = length-order bound.block_count order b.enough p in
        rw
          (
            equal_numbers_refl token_schema,
            equal_numbers_refl block_shuffle_v2,
            h.parameter,
            h.semantic,
            h.plan,
            h.owner,
            count,
          )
          (rw
            (
              not_circular,
              not_exact,
              differ_self (equal_labels order (labels_below bound.block_count)),
            )
            refl)

    pub token_for_order_lem :
        token_for_order fl payload sha256 empty_like bound order ≡ ok (owned_token bound order)
    unfolding token_for_order
    token_for_order_lem =
        rw (block_shuffle_state_lem bound.block_count order b.enough p, null_transform_token_lem)

    snapshot_block_token_lem :
        snapshot_block_token (owned_token bound order)
        ≡ ok (owned_token bound order, record { schema = block_state_schema; block_order = order })
    unfolding snapshot_block_token snapshot_block_state snapshot_common_token
    snapshot_block_token_lem =
        let h = owned_digests in
        let count = length-order bound.block_count order b.enough p in
        let any_count = validate_block_order-perm bound.block_count order none b.enough p refl in
        rw
          (
            equal_numbers_refl token_schema,
            equal_numbers_refl block_shuffle_v2,
            h.parameter,
            h.semantic,
            h.plan,
            h.owner,
            equal_numbers_refl block_state_schema,
            any_count,
            count,
            differ_self (equal_labels order (labels_below bound.block_count)),
            block_shuffle_state_lem bound.block_count order b.enough p,
            null_transform_token_lem,
          )
          refl

    pub validate_block_token_lem :
        validate_block_token fl payload sha256 empty_like bound (owned_token bound order)
        ≡ ok (owned_token bound order, record { schema = block_state_schema; block_order = order })
    unfolding validate_block_token
    validate_block_token_lem =
        let fields =
          require_owned_fields_lem fl payload sha256 (owned_token bound order) block_shuffle_v2
            bound.owned refl refl refl refl refl refl in
        let not_few : ltb bound.block_count 2 ≡ false = let h = b.enough in ground arith in
        let not_many : ltb max_block_count bound.block_count ≡ false =
          let h = b.small in ground arith in
        let exact =
          validate_block_order-perm bound.block_count order (some bound.block_count) b.enough p
            (ap not (same_length bound.block_count)) in
        rw
          (
            b.positive, not_few, not_many, b.filled, b.covered, b.owned, snapshot_block_token_lem,
            fields, exact,
          )
          refl
