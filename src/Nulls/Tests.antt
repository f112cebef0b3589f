-- ===== src/Nulls/Tests.antt =====
-- The two nulls on five and six points, with a digest that is the same for every envelope.
use mathlib.Core.List.{Perm}
use mathlib.Core.List.Perm as P
use selcal.Prelude.{
  ℕ, zero, suc, ◌*◌, List, [], ◌∷◌, Option, some, none, ◌≡◌, refl, arith, length, replicate, inr,
  ltb, if◌then◌else◌, ◌==◌, ◌↔◌,
}
use selcal.Prelude.Int.{ℤ, pos, negsuc}
use selcal.Errors.{Result, ok, err, integrity_error}
use selcal.Arrays.Laws.{rotated}
use selcal.Floats.Sample.{sample_float, sample_IsIeee}
use selcal.Contracts.{SeriesPair, series_pair, validated_series, all_finite, plus_zero}
use selcal.Contracts.Normal.{IsPair, series_pair-IsPair}
use selcal.Random.Seed.{all_hex}
use selcal.Random.Seed.Bytes.{is_hex_digit}
use selcal.Nulls.Token.{
  Text, NullTransformToken, circular_state_schema, require_sha256, labels_below,
}
use selcal.Nulls.Owned.{Envelope}
use selcal.Nulls.Owned.Laws.{finalized}
use selcal.Nulls.Circular.{
  BoundCircularShift, enabled, shift_space_empty, bind_circular, sample_circular_token,
  validate_circular_token, apply_circular,
}
use selcal.Nulls.Circular.Sampling.{IsShift}
use selcal.Nulls.Circular.Sampled.{draws, sample_circular_token_iff}
use selcal.Nulls.Circular.Tokens.{owned_token}
use selcal.Nulls.Circular.Laws.{apply_circular-rotates}
use selcal.Nulls.Circular.Binding.{bound_of, IsRequest, bound_of-IsBound, bind_circular-decides}
use selcal.Nulls.Block.{
  bind_block_count, enabled as blocks_enabled, validate_block_order, sample_block_order,
  write_blocks, expected_block_mapping, fitted, write_slice,
}
use selcal.Nulls.Block.Shuffle.{InRange, sample_block_order-permutes}
use selcal.Nulls.Block.Mapping.{write_blocks-permutes}

abbrev digest : Text
digest = replicate 64 97

abbrev constant_digest : Envelope (Option ℤ) → Text
constant_digest e = digest

abbrev code_of : Option ℤ → ℤ
code_of none = negsuc 0
code_of (some x) = x

abbrev five : List (Option ℤ)
five = some (pos 3) ∷ some (pos 1) ∷ some (pos 4) ∷ some (pos 1) ∷ some (pos 5) ∷ []

abbrev five_pair : SeriesPair (Option ℤ)
five_pair = record { source = five; target = five }

digest_hex : require_sha256 digest ≡ ok digest
unfolding require_sha256 all_hex is_hex_digit
digest_hex = refl

five_pair-IsPair : IsPair sample_float five_pair
unfolding series_pair validated_series all_finite plus_zero
five_pair-IsPair = (series_pair-IsPair sample_float sample_IsIeee five_pair refl).0

five-IsRequest : IsRequest sample_float code_of constant_digest 1 five_pair digest digest
five-IsRequest = record {
  accepted = five_pair-IsPair;
  positive = refl;
  semantic_hex = digest_hex;
  plan_hex = digest_hex;
  hexdigest = λ e. digest_hex;
}

abbrev five_bound : BoundCircularShift (Option ℤ)
five_bound = bound_of sample_float code_of constant_digest 1 five_pair digest digest

two_turns : IsShift 1 5 2
unfolding IsShift
two_turns = inr (omega arith, omega arith)

sample_circular_token_iff_example :
    ((shift : ℕ)
      → ((index : ℤ) × (sample_circular_token sample_float code_of constant_digest
              (draws index)
              five_bound
              tt
            ≡ ok (owned_token sample_float code_of constant_digest five_bound shift, tt)))
        ↔ (validate_circular_token sample_float code_of constant_digest five_bound
              (owned_token sample_float code_of constant_digest five_bound shift)
            ≡ ok (
              owned_token sample_float code_of constant_digest five_bound shift,
              record { schema = circular_state_schema; shift = shift },
            )))
    × ((i j : ℤ) (token : NullTransformToken)
        → sample_circular_token sample_float code_of constant_digest (draws i) five_bound tt
          ≡ ok (token, tt)
        → sample_circular_token sample_float code_of constant_digest (draws j) five_bound tt
          ≡ ok (token, tt)
        → i ≡ j)
sample_circular_token_iff_example =
    sample_circular_token_iff sample_float code_of constant_digest 1 five_pair digest digest
      five-IsRequest refl

apply_circular-rotates_example :
    apply_circular sample_float code_of constant_digest five_bound
      (owned_token sample_float code_of constant_digest five_bound 2)
    ≡ ok (
        finalized sample_float code_of constant_digest five_pair
          (rotated 2 five)
          (owned_token sample_float code_of constant_digest five_bound 2))
apply_circular-rotates_example =
    apply_circular-rotates sample_float code_of constant_digest sample_IsIeee five_bound 2
      (bound_of-IsBound sample_float code_of constant_digest five-IsRequest refl) two_turns

bind_circular-decides_example :
    bind_circular sample_float code_of constant_digest 1 five_pair digest digest ≡ (
      if ltb (length five_pair.source) (2 * 1)
      then ok shift_space_empty
      else ok (
          enabled five_bound (
            if 2 * 1 == length five_pair.source
            then "circular_shift_orbit_resolution_v2" ∷ []
            else [])))
bind_circular-decides_example =
    bind_circular-decides sample_float code_of constant_digest five-IsRequest

-- A source that always takes the last index below the bound
abbrev last_index : ℕ → Unit {0} → Result (ℤ × Unit {0})
last_index zero s = err integrity_error
last_index (suc n) s = ok (pos n, s)

last_index-InRange : InRange last_index
unfolding InRange
last_index-InRange zero s h = elim h [ ]
last_index-InRange (suc n) s h = (n, s, omega arith, refl)

sample_block_order-permutes_example :
    (out : List ℤ × Unit {0}) × (sample_block_order last_index 3 tt ≡ ok out)
    × Perm (labels_below 3) out.0
    × (validate_block_order out.0 (some 3) ≡ ok out.0)
sample_block_order-permutes_example =
    sample_block_order-permutes last_index last_index-InRange 3 tt (omega arith)

abbrev six : List ℕ
six = 10 ∷ 11 ∷ 20 ∷ 21 ∷ 30 ∷ 31 ∷ []

abbrev turned : List ℤ
turned = pos 1 ∷ pos 0 ∷ pos 2 ∷ []

turned-perm : Perm (labels_below 3) turned
turned-perm = P.swap (pos 1) (pos 0) (pos 2 ∷ [])

write_blocks-permutes_example :
    (write_blocks six 2 0 turned (replicate 6 0) ≡ ok (expected_block_mapping six 2 turned))
    × Perm (expected_block_mapping six 2 turned) six
write_blocks-permutes_example =
    write_blocks-permutes six 2 3 turned (replicate 6 0) refl turned-perm refl

-- The blocks 20 21, 10 11 and 30 31
turned_blocks : write_blocks six 2 0 turned (replicate 6 0) ≡ ok (20 ∷ 21 ∷ 10 ∷ 11 ∷ 30 ∷ 31 ∷ [])
unfolding write_blocks write_slice fitted
turned_blocks = refl

six_in_threes : bind_block_count 6 2 ≡ blocks_enabled 3
unfolding bind_block_count
six_in_threes = refl
