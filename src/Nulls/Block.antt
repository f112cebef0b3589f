-- ===== src/Nulls/Block.antt =====
-- src/selcal/nulls/block_shuffle_v2.py: the tests of its binding, the order of the blocks, its
-- sampling and its mapping; Block/Bound.antt the bound null.
pub mod Shuffle
mod Slices
pub mod Mapping
pub mod Binding
pub mod Bound
use selcal.Prelude.{
  ℕ, zero, suc, ◌+◌, ◌-◌, ◌*◌, ◌/◌, ◌%◌, List, [], ◌∷◌, ◌++◌, Bool, true, false, not, ◌||◌, Option,
  none, some, ◌≡◌, length, map, take, drop, get_elem?, set, replicate, if◌then◌else◌, leb, ltb,
  ◌==◌,
}
use selcal.Prelude.Int.{ℤ, pos}
use selcal.Errors.{
  Result, ok, err, integrity_error, value_error, index_error, raise_if, or_raise, ◌>>=◌, ◌>>◌,
}
use selcal.Arrays.{slice}
use selcal.Candidates.{sorted}
use selcal.Support.{magnitude}
use selcal.Nulls.Token.{equal_labels, labels_below}
use selcal.Nulls.Circular.{require_index}

-- `expected_count is not None and len(exact_order) != expected_count`
abbrev pub wrong_count : Option ℕ → ℕ → Bool
wrong_count none count = false
wrong_count (some expected) count = not (count == expected)

-- `_validate_block_order`
unfoldable pub validate_block_order : List ℤ → Option ℕ → Result (List ℤ)
validate_block_order order expected_count = do
  raise_if (ltb (length order) 2) integrity_error
  raise_if (wrong_count expected_count (length order)) integrity_error
  raise_if (not (equal_labels (sorted order) (labels_below (length order)))) integrity_error
  ok order

-- `labels[i], labels[j] = labels[j], labels[i]`
unfoldable pub swap_entries {ℓ} : {A : Type ℓ} → List A → ℕ → ℕ → Result (List A)
swap_entries labels i j = do
  at_j ← or_raise (get_elem? labels j) index_error
  at_i ← or_raise (get_elem? labels i) index_error
  ok (set (set labels i at_j) j at_i)

-- The loop of `sample_token`, from an index down to 1.
unfoldable pub shuffle_from :
    {S : Type 0} → (ℕ → S → Result (ℤ × S)) → ℕ → List ℤ → S → Result (List ℤ × S)
shuffle_from randbelow zero labels s = ok (labels, s)
shuffle_from randbelow (suc i) labels s = do
  drawn ← randbelow (suc (suc i)) s
  sampled_index ← require_index drawn.0 (suc (suc i))
  swapped ← swap_entries labels (suc i) sampled_index
  shuffle_from randbelow i swapped drawn.1

-- The order that `sample_token` makes its token of
unfoldable pub sample_block_order :
    {S : Type 0} → (ℕ → S → Result (ℤ × S)) → ℕ → S → Result (List ℤ × S)
sample_block_order randbelow block_count s =
    shuffle_from randbelow (block_count - 1) (labels_below block_count) s

-- NumPy fits a vector to a slice of `room` entries: as it is, or one entry for all.
unfoldable pub fitted : {F : Type 0} → ℕ → List F → Result (List F)
fitted room (v ∷ []) = ok (replicate room v)
fitted room values = do raise_if (not (length values == room)) value_error; ok values

-- `buffer[start:stop] = values`
unfoldable pub write_slice : {F : Type 0} → ℕ → ℕ → List F → List F → Result (List F)
write_slice start stop values buffer = do
  written ← fitted (length (slice start stop buffer)) values
  ok (take start buffer ++ (written ++ drop stop buffer))

-- The loop of `_apply_state` over `enumerate(block_order)`
unfoldable pub write_blocks : {F : Type 0} → List F → ℕ → ℕ → List ℤ → List F → Result (List F)
write_blocks source block_length output_block [] buffer = ok buffer
write_blocks source block_length output_block (source_block ∷ order) buffer = do
  let output_start = output_block * block_length
  let source_start = magnitude source_block * block_length
  written ←
      write_slice output_start (output_start + block_length)
        (slice source_start (source_start + block_length) source) buffer
  write_blocks source block_length (suc output_block) order written

-- The join of `_expected_block_mapping_bytes`, before the floats are turned into bytes
unfoldable pub expected_block_mapping : {F : Type 0} → List F → ℕ → List ℤ → List F
expected_block_mapping source block_length [] = []
expected_block_mapping source block_length (label ∷ order) =
    slice (magnitude label * block_length) (suc (magnitude label) * block_length) source
    ++ expected_block_mapping source block_length order

-- Whether `bind` is enabled, and the reason if not
pub data BlockBind : Type 0 where
  enabled : ℕ → BlockBind
  non_divisible_tail : BlockBind
  fewer_than_two_blocks : BlockBind
  too_many_blocks : BlockBind

-- The tests of `bind`, for a `block_length` that is not 0
unfoldable pub bind_block_count : ℕ → ℕ → BlockBind
bind_block_count observed_length block_length =
    if not (observed_length % block_length == 0)
    then non_divisible_tail
    else (if ltb (observed_length / block_length) 2
        then fewer_than_two_blocks
        else (if ltb 4096 (observed_length / block_length)
            then too_many_blocks
            else enabled (observed_length / block_length)))
