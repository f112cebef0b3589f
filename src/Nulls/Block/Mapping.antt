-- ===== src/Nulls/Block/Mapping.antt =====
-- The block mapping: the slice writes of `_apply_state` give the join of
-- `_expected_block_mapping_bytes`, and that is a permutation of the source.
use mathlib.Core.List.{Perm, Permᴰ, perm_append_comm, append_assoc, append-nil, Perm-prop}
use mathlib.Core.List.Perm as P
use mathlib.Core.Logic.{∥∥₁_elim}
use mathlib.Core.Bool.{Bool-set}
use native.Mathlib.Nat.{suc-mul, add-mul}
use selcal.Prelude.{
  ℕ, zero, suc, ◌+◌, ◌*◌, ◌≤◌, List, [], ◌∷◌, ◌++◌, Bool, true, false, ◌≡◌, refl, sym, ap, subst,
  ◌∙◌, arith, leb, ◌&&◌, length, length-append, length-take, length-drop, length-map, map, take,
  drop,
}
use selcal.Prelude.Index.{range_from, length-range_from}
use selcal.Prelude.Int.{ℤ, pos, negsuc}
use selcal.Errors.{ok}
use selcal.Arrays.{slice}
use selcal.Arrays.Laws.{length-slice}
use selcal.Support.{magnitude}
use selcal.Nulls.Token.{labels_below}
use selcal.Nulls.Block.Shuffle.{length-perm}
use selcal.Nulls.Block.{write_blocks, expected_block_mapping}
use selcal.Nulls.Block.Slices.{
  take-append_exact, take_all, slice_empty, slice-append, write_slice_exact,
}

module _ {F : Type 0} where
  module _ (source : List F) (block_length : ℕ) where
    -- Each label is of a block that lies within the source.
    pub data InSource : List ℤ → Type 0 where
      done : InSource []
      more :
          {label : ℕ} {order : List ℤ}
          → suc label * block_length ≤ length source
          → InSource order
          → InSource (pos label ∷ order)

    block_of : ℕ → List F
    block_of label = slice (label * block_length) (suc label * block_length) source

    length-block_of :
        (label : ℕ)
        → suc label * block_length ≤ length source
        → length (block_of label) ≡ block_length
    unfolding block_of
    length-block_of label h =
        length-slice (label * block_length) (suc label * block_length) source h
        ∙ omega (arith, suc-mul label block_length)

    -- The blocks that are left are written behind those that are there.
    write_blocks_from :
        (out : ℕ) (order : List ℤ) (buffer : List F)
        → InSource order
        → length buffer ≡ out * block_length + length order * block_length
        → write_blocks source block_length out order buffer
          ≡ ok
              (take (out * block_length) buffer ++ expected_block_mapping source block_length order)
    unfolding write_blocks expected_block_mapping block_of
    write_blocks_from out [] buffer InSource.done h =
        let all : take (out * block_length) buffer ≡ buffer =
          take_all (out * block_length) buffer (omega arith) in
        rw (all, append-nil buffer)
    write_blocks_from out (negsuc _ ∷ order) buffer i h = elim i [ ]
    write_blocks_from out (pos label ∷ order) buffer (InSource.more inside rest) h =
        let start = out * block_length in
        let v = slice (label * block_length) (suc label * block_length) source in
        let p = take start buffer in
        let d = drop (start + block_length) buffer in
        let stop : label * block_length + block_length ≡ suc label * block_length =
          omega (arith, suc-mul label block_length) in
        let total : length buffer ≡ start + (block_length + length order * block_length) =
          h ∙ ap (λ k. start + k) (omega (arith, suc-mul (length order) block_length)) in
        let size_v : length v ≡ block_length = length-block_of label inside in
        let size_p : length p ≡ start = omega (arith, length-take start buffer) in
        let size_d : length d ≡ length order * block_length =
          omega (arith, length-drop (start + block_length) buffer) in
        let size_pv : length (p ++ v) ≡ suc out * block_length =
          omega (arith, length-append p v, suc-mul out block_length) in
        let size_w : length (p ++ (v ++ d)) ≡ suc out * block_length + length order * block_length =
          omega (arith, length-append p (v ++ d), length-append v d, suc-mul out block_length) in
        let room : start + block_length ≤ length buffer = omega arith in
        let tail = write_blocks_from (suc out) order (p ++ (v ++ d)) rest size_w in
        let front : take (suc out * block_length) (p ++ (v ++ d)) ≡ p ++ v =
          ap (take (suc out * block_length)) (sym (append_assoc p v d))
          ∙ take-append_exact (suc out * block_length) (p ++ v) d size_pv in
        rw (
          stop,
          write_slice_exact start block_length v buffer size_v room,
          tail,
          front,
          append_assoc p v (expected_block_mapping source block_length order),
        )

    -- Mapping: for an order of q labels of blocks within the source, writing the blocks one after
    -- the other into an array of q * block_length entries, whatever it holds before, gives the join
    -- of the source's blocks in that order.
    pub write_blocks-expected :
        (order : List ℤ) (empty_like : List F)
        → InSource order
        → length empty_like ≡ length order * block_length
        → write_blocks source block_length 0 order empty_like
          ≡ ok (expected_block_mapping source block_length order)
    write_blocks-expected order empty_like i h =
        let none_before : 0 * block_length ≡ 0 = omega arith in
        write_blocks_from 0 order empty_like i (omega (arith, none_before)) ∙ rw none_before

    abbrev labelled : ℤ → List F
    labelled label =
        slice (magnitude label * block_length) (suc (magnitude label) * block_length) source

    swap_blocks : (a b c : List F) → Perm (a ++ (b ++ c)) (b ++ (a ++ c))
    swap_blocks a b c =
        subst (λ l. Perm l (b ++ (a ++ c))) (append_assoc a b c)
          (subst (λ l. Perm ((a ++ b) ++ c) l) (append_assoc b a c)
            (P.append_right c (perm_append_comm a b)))

    expected_permᴰ :
        {xs ys : List ℤ}
        → Permᴰ xs ys
        → Perm
            (expected_block_mapping source block_length xs)
            (expected_block_mapping source block_length ys)
    unfolding expected_block_mapping
    expected_permᴰ Permᴰ.nil = P.rfl
    expected_permᴰ (Permᴰ.cons e d) = rw e (P.append_left _ (expected_permᴰ d))
    expected_permᴰ (Permᴰ.swap {a' = a'} {b' = b'} {l = l} e f) =
        rw (e, f)
          (swap_blocks (labelled b') (labelled a') (expected_block_mapping source block_length l))
    expected_permᴰ (Permᴰ.trans d d') = P.trans (expected_permᴰ d) (expected_permᴰ d')

    within : List ℤ → Bool
    within [] = true
    within (negsuc n ∷ order) = false
    within (pos label ∷ order) = leb (suc label * block_length) (length source) && within order

    within_swap : (a b : ℤ) (order : List ℤ) → within (b ∷ a ∷ order) ≡ within (a ∷ b ∷ order)
    unfolding within
    within_swap (pos a) (pos b) order = ground arith
    within_swap (pos a) (negsuc b) order = ground arith
    within_swap (negsuc a) (pos b) order = ground arith
    within_swap (negsuc a) (negsuc b) order = refl

    within_permᴰ : {xs ys : List ℤ} → Permᴰ xs ys → within xs ≡ within ys
    unfolding within
    within_permᴰ Permᴰ.nil = refl
    within_permᴰ (Permᴰ.cons {b = pos label} e d) = rw (e, within_permᴰ d)
    within_permᴰ (Permᴰ.cons {b = negsuc n} e d) = rw e
    within_permᴰ (Permᴰ.swap {a' = a'} {b' = b'} {l = l} e f) = rw (e, f) (within_swap a' b' l)
    within_permᴰ (Permᴰ.trans d d') = within_permᴰ d ∙ within_permᴰ d'

    within-InSource : (order : List ℤ) → within order ≡ true → InSource order
    unfolding within
    within-InSource [] h = InSource.done
    within-InSource (negsuc n ∷ order) h = cc
    within-InSource (pos label ∷ order) h =
        InSource.more (ground arith) (within-InSource order (ground arith))

    within-range :
        (start count : ℕ)
        → (start + count) * block_length ≤ length source
        → within (map pos (range_from start count)) ≡ true
    unfolding within
    within-range start zero h = refl
    within-range start (suc count) h =
        let shifted : start + suc count ≡ suc start + count = omega arith in
        let wide : (suc start + count) * block_length ≤ length source =
          subst (λ k. k * block_length ≤ length source) shifted h in
        let first : suc start * block_length ≤ length source =
          omega (arith, add-mul (suc start) count block_length) in
        rw (within-range (suc start) count wide) (ground arith)

    expected-range :
        (start count : ℕ)
        → expected_block_mapping source block_length (map pos (range_from start count))
          ≡ slice (start * block_length) ((start + count) * block_length) source
    unfolding expected_block_mapping
    expected-range start zero =
        let same : start + 0 ≡ start = omega arith in
        rw same (sym (slice_empty (start * block_length) source))
    expected-range start (suc count) =
        let shifted : start + suc count ≡ suc start + count = omega arith in
        rw (expected-range (suc start) count, shifted)
          (slice-append (start * block_length) (suc start * block_length)
            ((suc start + count) * block_length) source (omega (arith, suc-mul start block_length))
            (omega (arith, add-mul (suc start) count block_length)))

    all_in : (q : ℕ) → length source ≡ q * block_length → (0 + q) * block_length ≤ length source
    all_in q h = let same : 0 + q ≡ q = omega arith in rw same (omega arith)

    pub whole :
        (q : ℕ)
        → length source ≡ q * block_length
        → expected_block_mapping source block_length (labels_below q) ≡ source
    whole q h =
        let none_before : 0 * block_length ≡ 0 = omega arith in
        let same : 0 + q ≡ q = omega arith in
        expected-range 0 q ∙ (rw (none_before, same) (take_all (q * block_length) source h))

    pub permuted-InSource :
        (q : ℕ) (order : List ℤ)
        → length source ≡ q * block_length
        → Perm (labels_below q) order
        → InSource order
    permuted-InSource q order h p =
        within-InSource order
          (sym (∥∥₁_elim p (Bool-set _ _) within_permᴰ) ∙ within-range 0 q (all_in q h))

    -- Applying an order: for a source of q whole blocks and an order that permutes the labels 0 to
    -- q - 1, writing the blocks one after the other into an array as long as the source, whatever it
    -- holds before, gives the join of the source's blocks in that order, a permutation of the source.
    pub write_blocks-permutes :
        (q : ℕ) (order : List ℤ) (empty_like : List F)
        → length source ≡ q * block_length
        → Perm (labels_below q) order
        → length empty_like ≡ length source
        → (write_blocks source block_length 0 order empty_like
            ≡ ok (expected_block_mapping source block_length order))
          × Perm (expected_block_mapping source block_length order) source
    write_blocks-permutes q order empty_like h p e =
        let size : length order ≡ q =
          sym (length-perm p) ∙ (length-map (range_from 0 q) pos ∙ length-range_from 0 q) in
        let room : length empty_like ≡ length order * block_length =
          e ∙ h ∙ ap (λ k. k * block_length) (sym size) in
        let back : Perm (expected_block_mapping source block_length order)
            (expected_block_mapping source block_length (labels_below q)) =
          ∥∥₁_elim (P.symm p) Perm-prop expected_permᴰ in
        (
          write_blocks-expected order empty_like (permuted-InSource q order h p) room,
          subst (λ l. Perm (expected_block_mapping source block_length order) l) (whole q h) back,
        )
