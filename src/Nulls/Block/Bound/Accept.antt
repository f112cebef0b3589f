-- ===== src/Nulls/Block/Bound/Accept.antt =====
-- Binding the block null to a pair: an enabled null is one that its own constructor accepts.
use native.Mathlib.Nat.{one-le-mul, mul-div_left, mul-mod_left}
use selcal.Prelude.{
  ℕ, List, false, ◌*◌, ◌≤◌, ◌≡◌, ◌↔◌, refl, sym, ◌∙◌, ap, arith, length, ltb, ◌==◌,
}
use selcal.Prelude.Factorial.{factorial}
use selcal.Prelude.Int.{ℤ}
use selcal.Errors.{ok, ok-injective}
use selcal.Arrays.Laws.{equal_numbers_refl}
use selcal.Floats.{Float64}
use selcal.Contracts.{SeriesPair}
use selcal.Contracts.Normal.{series_pair_again}
use selcal.Nulls.Token.{Text, block_shuffle_v2}
use selcal.Nulls.Owned.{
  Envelope, null_parameters, bound_owner, pair_content, Ownership, require_ownership,
}
use selcal.Nulls.Owned.Laws.{same_length}
use selcal.Nulls.Circular.Binding.{IsRequest}
use selcal.Nulls.Block.{
  BlockBind, enabled, non_divisible_tail, fewer_than_two_blocks, too_many_blocks, bind_block_count,
}
use selcal.Nulls.Block.Binding.{bind_block_count_iff}
use selcal.Nulls.Block.Bound.{
  BoundBlockShuffle, BlockBindResult, bound_null, disabled, max_block_count, not_covered,
  bound_block_shuffle, bind_enabled, bind_by_count, bind_block,
}
use selcal.Nulls.Block.Bound.Tokens.{IsBound}

covered_whole : (q l : ℕ) → 1 ≤ l → not_covered (q * l) l q ≡ false
covered_whole q l positive = rw (mul-mod_left q l, mul-div_left q positive, same_length q) refl

bound_null-injective :
    {F : Type 0} {a b : BoundBlockShuffle F} → bound_null a ≡ bound_null b → b ≡ a
bound_null-injective h = cc

module _ (fl : Float64) (payload : Float64.Float fl → ℤ)
    (sha256 : Envelope (Float64.Float fl) → Text)
    (empty_like : List (Float64.Float fl) → List (Float64.Float fl)) where
  open fl use {Float}

  module _ (block_length : ℕ) (pair : SeriesPair Float) (semantic plan : Text) where
    -- What `bind` hands to the constructor of the bound null
    abbrev pub ownership_of : Ownership
    ownership_of = record {
      semantic_input_sha256 = semantic;
      scientific_plan_sha256 = plan;
      null_parameter_sha256 = sha256 (null_parameters block_shuffle_v2 block_length);
      bound_null_owner_sha256 = sha256 (
          bound_owner semantic plan (sha256 (null_parameters block_shuffle_v2 block_length))
            (length pair.source));
      observed_content_guard_sha256 = sha256 (pair_content pair);
    }

    abbrev pub bound_of : ℕ → BoundBlockShuffle Float
    bound_of q = record {
      observed_pair = pair;
      block_length = block_length;
      block_count = q;
      owned = ownership_of;
      observed_length = length pair.source;
      total_state_count = factorial q;
    }

    module _ (r : IsRequest fl payload sha256 block_length pair semantic plan) where
      positive_length : 1 ≤ block_length
      positive_length = let p = r.positive in ground arith

      owned_lem :
          require_ownership fl payload sha256 block_shuffle_v2 block_length
            (length pair.source)
            ownership_of
          ≡ ok tt
      unfolding require_ownership
      owned_lem =
          let parameter = sha256 (null_parameters block_shuffle_v2 block_length) in
          let owner = sha256 (bound_owner semantic plan parameter (length pair.source)) in
          rw
            (
              r.semantic_hex,
              r.plan_hex,
              r.hexdigest (null_parameters block_shuffle_v2 block_length),
              r.hexdigest (bound_owner semantic plan parameter (length pair.source)),
              equal_numbers_refl parameter,
              equal_numbers_refl owner,
            )
            refl

      covered :
          (q : ℕ)
          → length pair.source ≡ q * block_length
          → not_covered (length pair.source) block_length q ≡ false
      covered q whole = rw whole (covered_whole q block_length positive_length)

      not_empty :
          (q : ℕ)
          → length pair.source ≡ q * block_length
          → 2 ≤ q
          → (length pair.source == 0) ≡ false
      not_empty q whole enough =
          let some_block : 1 ≤ q * block_length = one-le-mul (omega arith) positive_length in
          ground arith

      pub bound_of-IsBound :
          (q : ℕ)
          → length pair.source ≡ q * block_length
          → 2 ≤ q
          → q ≤ max_block_count
          → IsBound fl payload sha256 empty_like (bound_of q)
      bound_of-IsBound q whole enough small = record {
        pair = r.accepted;
        positive = r.positive;
        enough = enough;
        small = small;
        size = refl;
        filled = not_empty q whole enough;
        covered = covered q whole;
        guard = refl;
        guard_hex = r.hexdigest (pair_content pair);
        owned = owned_lem;
      }

      bind_enabled_lem :
          (q : ℕ)
          → length pair.source ≡ q * block_length
          → 2 ≤ q
          → q ≤ max_block_count
          → bind_enabled fl payload sha256 empty_like block_length q pair semantic plan
            ≡ ok (bound_null (bound_of q))
      unfolding bind_enabled bound_block_shuffle
      bind_enabled_lem q whole enough small =
          let few : ltb q 2 ≡ false = ground arith in
          let many : ltb max_block_count q ≡ false = ground arith in
          rw
            (
              series_pair_again fl pair r.accepted,
              r.positive,
              few,
              many,
              r.hexdigest (pair_content pair),
              equal_numbers_refl (sha256 (pair_content pair)),
              covered q whole,
              owned_lem,
            )
            refl

      abbrev result_of : BlockBind → BlockBindResult Float
      result_of (enabled q) = bound_null (bound_of q)
      result_of reason = disabled reason

      bind_by_count_lem :
          (c : BlockBind)
          → bind_block_count (length pair.source) block_length ≡ c
          → bind_by_count fl payload sha256 empty_like c block_length pair semantic plan
            ≡ ok (result_of c)
      unfolding bind_by_count
      bind_by_count_lem (enabled q) e =
          let (whole, enough, small) =
            (bind_block_count_iff (length pair.source) block_length q positive_length).0 e in
          bind_enabled_lem q whole enough small
      bind_by_count_lem non_divisible_tail e = refl
      bind_by_count_lem fewer_than_two_blocks e = refl
      bind_by_count_lem too_many_blocks e = refl

      bind_block_lem :
          bind_block fl payload sha256 empty_like block_length pair semantic plan
          ≡ ok (result_of (bind_block_count (length pair.source) block_length))
      unfolding bind_block
      bind_block_lem =
          rw (r.semantic_hex, r.plan_hex)
            (bind_by_count_lem (bind_block_count (length pair.source) block_length) refl)

      result-enabled :
          (c : BlockBind) {bound : BoundBlockShuffle Float}
          → result_of c ≡ bound_null bound
          → (q : ℕ) × (c ≡ enabled q) × (bound ≡ bound_of q)
      result-enabled (enabled q) h = (q, refl, bound_null-injective h)
      result-enabled non_divisible_tail h = cc
      result-enabled fewer_than_two_blocks h = cc
      result-enabled too_many_blocks h = cc

      -- Binding: with an accepted pair, well-formed digests and a positive block length, `bind`
      -- returns a bound null exactly where the series is q whole blocks long for a q from 2 to 4096,
      -- and that null holds the very pair, the count q and the state count q!.
      pub bind_block_iff :
          (bound : BoundBlockShuffle Float)
          → (bind_block fl payload sha256 empty_like block_length pair semantic plan
              ≡ ok (bound_null bound))
            ↔ ((q : ℕ) × (length pair.source ≡ q * block_length)
                × (2 ≤ q)
                × (q ≤ max_block_count)
                × (bound ≡ bound_of q))
      bind_block_iff bound = (
        λ h.
            let (q, count, same) = result-enabled _ (ok-injective (sym bind_block_lem ∙ h)) in
            let (whole, enough, small) =
              (bind_block_count_iff (length pair.source) block_length q positive_length).0 count in
            (q, whole, enough, small, same),
        λ (q, whole, enough, small, same).
            let count =
              (bind_block_count_iff (length pair.source) block_length q positive_length).1
                (whole, enough, small) in
            bind_block_lem
            ∙ ap (λ c. ok (result_of c)) count
            ∙ ap (λ b. ok (bound_null b)) (sym same),
      )
