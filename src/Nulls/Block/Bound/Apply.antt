-- ===== src/Nulls/Block/Bound/Apply.antt =====
-- The block null applies every token of its own: it puts the blocks of the source in the order of
-- the token.
use mathlib.Core.List.{Perm}
use native.Mathlib.Nat.{div-add-mod'}
use selcal.Prelude.{
  suc, ◌+◌, ℕ, List, [], ◌∷◌, true, false, ◌*◌, ◌/◌, ◌%◌, ◌≡◌, refl, sym, subst, ◌∙◌, ap, arith,
  length,
}
use selcal.Prelude.Int.{ℤ}
use selcal.Errors.{Result, ok}
use selcal.Floats.{Float64, IsIeee}
use selcal.Contracts.Normal.{
  AllNormal, AllNormal-append, AllNormal-take, AllNormal-drop, filled_of_length, series_pair_normal,
}
use selcal.Support.{magnitude}
use selcal.Nulls.Token.{Text, NullTransformToken, labels_below, equal_labels}
use selcal.Nulls.Owned.{Envelope, array_equal}
use selcal.Nulls.Owned.Laws.{
  equal_labels-eq, finalized, finalize_rearranged, prepare_owned_transform_lem,
}
use selcal.Nulls.Circular.Laws.{array_equal_refl, equal_of_eq}
use selcal.Nulls.Block.{expected_block_mapping}
use selcal.Nulls.Block.Shuffle.{length-perm, InRange, sample_block_order-permutes}
use selcal.Nulls.Block.Mapping.{whole, write_blocks-permutes}
use selcal.Nulls.Block.Bound.{
  BoundBlockShuffle, not_covered, apply_block_state, apply_block, sample_block_token,
}
use selcal.Nulls.Block.Bound.Tokens.{
  IsBound, owned_token, validate_block_token_lem, token_for_order_lem,
}

covered-length : (n l q : ℕ) → not_covered n l q ≡ false → n ≡ q * l
covered-length n l q h =
    let none_left : n % l ≡ 0 = ground arith in
    let count : n / l ≡ q = ground arith in
    let split = div-add-mod' n l in
    sym split
    ∙ ap (λ (k : ℕ). n / l * l + k) none_left
    ∙ (omega arith)
    ∙ ap (λ (k : ℕ). k * l) count

module _ (fl : Float64) (payload : Float64.Float fl → ℤ)
    (sha256 : Envelope (Float64.Float fl) → Text)
    (empty_like : List (Float64.Float fl) → List (Float64.Float fl)) where
  open fl use {Float}

  mapped-AllNormal :
      (xs : List Float) (block_length : ℕ) (order : List ℤ)
      → AllNormal fl xs
      → AllNormal fl (expected_block_mapping xs block_length order)
  unfolding expected_block_mapping
  mapped-AllNormal xs l [] a = AllNormal.nothing
  mapped-AllNormal xs l (label ∷ order) a =
      AllNormal-append fl
        (AllNormal-drop fl (magnitude label * l) (AllNormal-take fl (suc (magnitude label) * l) a))
        (mapped-AllNormal xs l order a)

  module _ (laws : IsIeee fl) (same_size : (xs : List Float) → length (empty_like xs) ≡ length xs)
      (bound : BoundBlockShuffle Float) (b : IsBound fl payload sha256 empty_like bound) where
    -- Applying: a bound null that passed the checks of its constructor applies the token of each
    -- order of its blocks. The result holds the blocks of the observed source in that order, the
    -- target as it was, and the token; no check of the transform refuses it.
    pub apply_block-permutes :
        (order : List ℤ)
        → Perm (labels_below bound.block_count) order
        → apply_block fl payload sha256 empty_like bound
            (owned_token fl payload sha256 empty_like bound order)
          ≡ ok (
              finalized fl payload sha256 bound.observed_pair
                (expected_block_mapping bound.observed_pair.source bound.block_length order)
                (owned_token fl payload sha256 empty_like bound order))
    unfolding apply_block apply_block_state
    apply_block-permutes order p =
        let xs = bound.observed_pair.source in
        let q = bound.block_count in
        let l = bound.block_length in
        let out = expected_block_mapping xs l order in
        let token = owned_token fl payload sha256 empty_like bound order in
        let size : length xs ≡ q * l =
          sym b.size ∙ covered-length bound.observed_length l q b.covered in
        let (written, permuted) =
          write_blocks-permutes xs l q order (empty_like xs) size p (same_size xs) in
        let same = length-perm permuted in
        let normal = mapped-AllNormal xs l order b.pair.source in
        let filled = filled_of_length fl xs out b.pair.filled (sym same) in
        let accepted =
          series_pair_normal fl (record { source = out; target = bound.observed_pair.target })
            normal b.pair.target filled (same ∙ b.pair.aligned) in
        let identity = λ (e : equal_labels order (labels_below q) ≡ true).
          subst (λ ys. array_equal fl payload sha256 ys xs ≡ true)
            (sym (
              ap (expected_block_mapping xs l) (equal_labels-eq order (labels_below q) e)
              ∙ whole xs l q size))
            (array_equal_refl fl payload sha256 laws b.pair.source) in
        let result =
          finalize_rearranged fl payload sha256 bound.observed_pair out token b.pair normal filled
            same permuted identity in
        rw (
          validate_block_token_lem fl payload sha256 empty_like bound order b p,
          b.guard,
          prepare_owned_transform_lem fl payload sha256 bound.observed_pair b.pair b.guard_hex,
          equal_of_eq b.size,
          written,
          accepted,
          result,
        )

    -- Sampling and applying: with a source that keeps within its bounds, the null samples the token
    -- of an order that permutes its blocks, and applies that token.
    pub sample_block_token-applies :
        {S : Type 0} (randbelow : ℕ → S → Result (ℤ × S)) (s : S)
        → InRange randbelow
        → (order : List ℤ) × (next : S) × (token : NullTransformToken) × Perm
            (labels_below bound.block_count)
            order
          × (sample_block_token fl payload sha256 empty_like randbelow bound s ≡ ok (token, next))
          × (apply_block fl payload sha256 empty_like bound token
              ≡ ok (
                  finalized fl payload sha256 bound.observed_pair
                    (expected_block_mapping bound.observed_pair.source bound.block_length order)
                    token))
    unfolding sample_block_token
    sample_block_token-applies randbelow s source =
        let (out, sampled, p, _) =
          sample_block_order-permutes randbelow source bound.block_count s b.enough in
        let made = token_for_order_lem fl payload sha256 empty_like bound out.0 b p in
        (
          out.0,
          out.1,
          owned_token fl payload sha256 empty_like bound out.0,
          p,
          rw (sampled, made) refl,
          apply_block-permutes out.0 p,
        )
