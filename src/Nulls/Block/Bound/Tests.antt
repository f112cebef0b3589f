-- ===== src/Nulls/Block/Bound/Tests.antt =====
-- The block null on six points in three blocks, with a digest that is the same for every envelope.
use mathlib.Core.List.{Perm}
use mathlib.Core.List.Perm as P
use selcal.Prelude.{
  ℕ, zero, suc, ◌*◌, ◌≤◌, List, [], ◌∷◌, Option, some, none, ◌≡◌, ◌↔◌, refl, arith, length,
  replicate,
}
use selcal.Prelude.Int.{ℤ, pos, negsuc}
use selcal.Errors.{Result, ok, err, integrity_error}
use selcal.Floats.Sample.{sample_float, sample_IsIeee}
use selcal.Contracts.{SeriesPair, series_pair, validated_series, all_finite, plus_zero}
use selcal.Contracts.Normal.{IsPair, series_pair-IsPair}
use selcal.Random.Seed.{all_hex}
use selcal.Random.Seed.Bytes.{is_hex_digit}
use selcal.Nulls.Token.{Text, NullTransformToken, require_sha256, labels_below}
use selcal.Nulls.Owned.{Envelope}
use selcal.Nulls.Owned.Laws.{finalized}
use selcal.Nulls.Circular.Binding.{IsRequest}
use selcal.Nulls.Block.{expected_block_mapping}
use selcal.Nulls.Block.Shuffle.{InRange}
use selcal.Nulls.Block.Bound.{
  BoundBlockShuffle, bound_null, max_block_count, bind_block, apply_block, sample_block_token,
}
use selcal.Nulls.Block.Bound.Tokens.{IsBound, owned_token}
use selcal.Nulls.Block.Bound.Apply.{apply_block-permutes, sample_block_token-applies}
use selcal.Nulls.Block.Bound.Accept.{bound_of, bound_of-IsBound, bind_block_iff}

abbrev digest : Text
digest = replicate 64 97

abbrev constant_digest : Envelope (Option ℤ) → Text
constant_digest e = digest

abbrev code_of : Option ℤ → ℤ
code_of none = negsuc 0
code_of (some x) = x

-- The new array holds ones.
abbrev ones : List (Option ℤ) → List (Option ℤ)
ones xs = replicate (length xs) (some (pos 1))

length-ones : (xs : List (Option ℤ)) → length (ones xs) ≡ length xs
length-ones [] = refl
length-ones (x ∷ xs) = let h = length-ones xs in omega arith

abbrev six : List (Option ℤ)
six = some (pos 3) ∷ some (pos 1) ∷ some (pos 4) ∷ some (pos 1) ∷ some (pos 5) ∷ some (pos 9) ∷ []

abbrev six_pair : SeriesPair (Option ℤ)
six_pair = record { source = six; target = six }

digest_hex : require_sha256 digest ≡ ok digest
unfolding require_sha256 all_hex is_hex_digit
digest_hex = refl

six_pair-IsPair : IsPair sample_float six_pair
unfolding series_pair validated_series all_finite plus_zero
six_pair-IsPair = (series_pair-IsPair sample_float sample_IsIeee six_pair refl).0

six-IsRequest : IsRequest sample_float code_of constant_digest 2 six_pair digest digest
six-IsRequest = record {
  accepted = six_pair-IsPair;
  positive = refl;
  semantic_hex = digest_hex;
  plan_hex = digest_hex;
  hexdigest = λ e. digest_hex;
}

abbrev three_blocks : BoundBlockShuffle (Option ℤ)
three_blocks = bound_of sample_float code_of constant_digest ones 2 six_pair digest digest 3

three_blocks-IsBound : IsBound sample_float code_of constant_digest ones three_blocks
three_blocks-IsBound =
    bound_of-IsBound sample_float code_of constant_digest ones 2 six_pair digest digest
      six-IsRequest 3 refl (omega arith) (omega arith)

abbrev turned : List ℤ
turned = pos 1 ∷ pos 0 ∷ pos 2 ∷ []

turned-perm : Perm (labels_below 3) turned
turned-perm = P.swap (pos 1) (pos 0) (pos 2 ∷ [])

apply_block-permutes_example :
    apply_block sample_float code_of constant_digest ones three_blocks
      (owned_token sample_float code_of constant_digest ones three_blocks turned)
    ≡ ok (
        finalized sample_float code_of constant_digest six_pair
          (expected_block_mapping six 2 turned)
          (owned_token sample_float code_of constant_digest ones three_blocks turned))
apply_block-permutes_example =
    apply_block-permutes sample_float code_of constant_digest ones sample_IsIeee length-ones
      three_blocks three_blocks-IsBound turned turned-perm

-- A source that always takes the last index below the bound
abbrev last_index : ℕ → Unit {0} → Result (ℤ × Unit {0})
last_index zero s = err integrity_error
last_index (suc n) s = ok (pos n, s)

last_index-InRange : InRange last_index
unfolding InRange
last_index-InRange zero s h = elim h [ ]
last_index-InRange (suc n) s h = (n, s, omega arith, refl)

sample_block_token-applies_example :
    (order : List ℤ) × (next : Unit {0}) × (token : NullTransformToken) × Perm
      (labels_below 3)
      order
    × (sample_block_token sample_float code_of constant_digest ones last_index three_blocks tt
        ≡ ok (token, next))
    × (apply_block sample_float code_of constant_digest ones three_blocks token
        ≡ ok (
            finalized sample_float code_of constant_digest six_pair
              (expected_block_mapping six 2 order)
              token))
sample_block_token-applies_example =
    sample_block_token-applies sample_float code_of constant_digest ones sample_IsIeee length-ones
      three_blocks three_blocks-IsBound last_index tt last_index-InRange

bind_block_iff_example :
    (bind_block sample_float code_of constant_digest ones 2 six_pair digest digest
      ≡ ok (bound_null three_blocks))
    ↔ ((q : ℕ) × (6 ≡ q * 2)
        × (2 ≤ q)
        × (q ≤ max_block_count)
        × (three_blocks
            ≡ bound_of sample_float code_of constant_digest ones 2 six_pair digest digest q))
bind_block_iff_example =
    bind_block_iff sample_float code_of constant_digest ones 2 six_pair digest digest six-IsRequest
      three_blocks
