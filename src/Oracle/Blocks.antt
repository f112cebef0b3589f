-- ===== src/Oracle/Blocks.antt =====
-- The oracle's block transform against the null's own mapping.
use mathlib.Core.List.{Perm}
use native.Mathlib.Nat.{suc-mul}
use selcal.Prelude.{
  ℕ, suc, ◌+◌, ◌*◌, ◌≤◌, ◌<◌, List, [], ◌∷◌, some, ◌≡◌, refl, sym, ap, ◌∙◌, arith, length,
  get_elem?,
}
use selcal.Prelude.Index.{range_from, length-range_from, get_elem?-range_from}
use selcal.Prelude.Int.{ℤ, pos, negsuc}
use selcal.Errors.{ok}
use selcal.Arrays.{lookup_all, slice}
use selcal.Arrays.Laws.{lookup_all_pointwise, length-slice, get_elem?-slice}
use selcal.Floats.{Float64}
use selcal.Contracts.{SeriesPair}
use selcal.Contracts.Normal.{
  IsPair, AllNormal, AllNormal-append, AllNormal-take, AllNormal-drop, filled_of_length,
  series_pair_again,
}
use selcal.Support.{magnitude}
use selcal.Nulls.Token.{labels_below}
use selcal.Nulls.Block.{expected_block_mapping}
use selcal.Nulls.Block.Shuffle.{length-perm}
use selcal.Nulls.Block.Mapping.{InSource, permuted-InSource, write_blocks-permutes}
use selcal.Oracle.{block_entries, block_pair}

some-eq : {a b : ℕ} → some a ≡ some b → a ≡ b
some-eq h = cc

-- Reading a range of positions takes a slice.
lookup_all-range :
    {F : Type 0} (xs : List F) (start count : ℕ)
    → start + count ≤ length xs
    → lookup_all xs (range_from start count) ≡ ok (slice start (start + count) xs)
lookup_all-range xs start count h =
    let size : length (slice start (start + count) xs) ≡ count =
      length-slice start (start + count) xs h ∙ omega arith in
    lookup_all_pointwise xs (range_from start count) (slice start (start + count) xs)
      (length-range_from start count ∙ sym size)
      (λ k i lt e.
        let small : k < count = omega arith in
        let place : i ≡ start + k = some-eq (sym e ∙ get_elem?-range_from start count k small) in
        ap (get_elem? xs) place ∙ sym (get_elem?-slice start (start + count) xs k (omega arith)))

module _ (fl : Float64) where
  open fl use {Float}

  block_entries-expected :
      (source : List Float) (block_length : ℕ) (order : List ℤ)
      → InSource source block_length order
      → block_entries fl source block_length order
        ≡ ok (expected_block_mapping source block_length order)
  unfolding block_entries expected_block_mapping
  block_entries-expected source l [] i = refl
  block_entries-expected source l (pos label ∷ order) (InSource.more inside rest) =
      let stop : label * l + l ≡ suc label * l = omega (arith, suc-mul label l) in
      let read = lookup_all-range source (label * l) l (omega arith) in
      rw (read, stop, block_entries-expected source l order rest)
  block_entries-expected source l (negsuc n ∷ order) i = elim i [ ]

  AllNormal-expected :
      {source : List Float} (block_length : ℕ) (order : List ℤ)
      → AllNormal fl source
      → AllNormal fl (expected_block_mapping source block_length order)
  unfolding expected_block_mapping
  AllNormal-expected l [] a = AllNormal.nothing
  AllNormal-expected l (label ∷ order) a =
      AllNormal-append fl
        (AllNormal-drop fl (magnitude label * l) (AllNormal-take fl (suc (magnitude label) * l) a))
        (AllNormal-expected l order a)

  -- The pair with the blocks of its source in an order
  abbrev pub reordered : SeriesPair Float → ℕ → List ℤ → SeriesPair Float
  reordered pair block_length order = record {
    source = expected_block_mapping pair.source block_length order;
    target = pair.target;
  }

  pub reordered-IsPair :
      (pair : SeriesPair Float) (q block_length : ℕ) (order : List ℤ)
      → IsPair fl pair
      → length pair.source ≡ q * block_length
      → Perm (labels_below q) order
      → IsPair fl (reordered pair block_length order)
        × (length (reordered pair block_length order).source ≡ length pair.source)
  reordered-IsPair pair q l order h whole p =
      let size : length (expected_block_mapping pair.source l order) ≡ length pair.source =
        length-perm (write_blocks-permutes pair.source l q order pair.source whole p refl).1 in
      (
        record {
          source = AllNormal-expected l order h.source;
          target = h.target;
          filled =
              filled_of_length fl pair.source (expected_block_mapping pair.source l order) h.filled
                (sym size);
          aligned = size ∙ h.aligned;
        },
        size,
      )

  -- The oracle and the null agree: for an accepted pair of q whole blocks and an order that permutes
  -- the labels 0 to q - 1, the oracle's loop over single entries returns the pair whose source is the
  -- null's block mapping, with the target as it was.
  pub block_pair-mapping :
      (pair : SeriesPair Float) (q block_length : ℕ) (order : List ℤ)
      → IsPair fl pair
      → length pair.source ≡ q * block_length
      → Perm (labels_below q) order
      → block_pair fl pair order block_length
        ≡ ok (record {
          source = expected_block_mapping pair.source block_length order;
          target = pair.target;
        })
  unfolding block_pair
  block_pair-mapping pair q l order h whole p =
      let inside = permuted-InSource pair.source l q order whole p in
      let accepted = (reordered-IsPair pair q l order h whole p).0 in
      rw (block_entries-expected pair.source l order inside)
        (series_pair_again fl (reordered pair l order) accepted)
