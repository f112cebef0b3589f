-- ===== src/Npz.antt =====
-- src/selcal/npz_safe.py: the bounded parsing of an NPZ archive. Here its reads of binary fields
-- and the small parsers; bytes are numbers below 256. A `struct.error` is turned into the
-- ValueError of a malformed archive wherever it can arise, and stands as that.

pub mod Extra
pub mod Archive
pub mod Safe
pub mod Extract
mod Rounds
pub mod Inflate
mod Tests
use selcal.Prelude.{
  ℕ, zero, suc, ◌+◌, ◌*◌, ◌/◌, ◌%◌, ◌^◌, List, [], ◌∷◌, ◌++◌, Bool, true, false, not, ◌&&◌, ◌||◌,
  Option, none, some, length, take, drop, ltb, ◌==◌, if◌then◌else◌,
}
use selcal.Errors.{
  Result, ok, err, value_error, resource_limit_error, raise_if, or_raise, ◌>>=◌, ◌>>◌,
}
use selcal.Arrays.{slice, equal_numbers}
use selcal.Selection.Family.{is_some}
use selcal.Nulls.Token.{text}

abbrev pub Bytes : Type 0
Bytes = List ℕ

-- `int.from_bytes(value, "little")`
unfoldable pub le_value : Bytes → ℕ
le_value [] = 0
le_value (b ∷ bs) = b + 256 * le_value bs

-- One unsigned field of a `struct` with little-endian layout
unfoldable pub read_uint : Bytes → ℕ → ℕ → ℕ
unfolding le_value
read_uint raw offset width = le_value (slice offset (offset + width) raw)

-- `Struct.unpack_from(raw, offset)` wants `size` bytes.
unfoldable pub require_bytes : Bytes → ℕ → ℕ → Result (Unit {0})
require_bytes raw offset size = raise_if (ltb (length raw) (offset + size)) value_error

-- `value & (1 << k)`
abbrev pub has_bit : ℕ → ℕ → Bool
has_bit value k = not (value / 2 ^ k % 2 == 0)

abbrev pub uint16_sentinel : ℕ
uint16_sentinel = 0xFFFF

abbrev pub uint32_sentinel : ℕ
uint32_sentinel = 0xFFFFFFFF

-- The dictionary of extra fields, in the order of their insertion
abbrev pub ExtraFields : Type 0
ExtraFields = List (ℕ × Bytes)

unfoldable pub lookup_field : ℕ → ExtraFields → Option Bytes
lookup_field id [] = none
lookup_field id ((i, payload) ∷ fields) = if i == id then some payload else lookup_field id fields

-- The loop of `_parse_extra_fields` over what is behind the cursor. `skip` counts the bytes of the
-- field before that the cursor has passed already.
unfoldable pub parse_extra_from : Bytes → ℕ → ExtraFields → Result ExtraFields
unfolding le_value
parse_extra_from [] skip fields = ok fields
parse_extra_from (b ∷ rest) (suc skip) fields = parse_extra_from rest skip fields
parse_extra_from (b ∷ rest) zero fields = do
  raise_if (ltb (length (b ∷ rest)) 4) value_error
  let field_id = le_value (take 2 (b ∷ rest))
  let payload_size = le_value (slice 2 4 (b ∷ rest))
  raise_if (ltb (length (b ∷ rest)) (4 + payload_size) || is_some (lookup_field field_id fields))
      value_error
  parse_extra_from rest (3 + payload_size)
      (fields ++ (field_id, slice 4 (4 + payload_size) (b ∷ rest)) ∷ [])

-- `_parse_extra_fields`
unfoldable pub parse_extra_fields : Bytes → Result ExtraFields
parse_extra_fields extra = parse_extra_from extra 0 []

pub data LogicalName : Type 0 where
  source : LogicalName
  target : LogicalName

abbrev pub same_name : LogicalName → LogicalName → Bool
same_name source source = true
same_name target target = true
same_name _ _ = false

-- `_logical_member_name`; the archive name is the text of the bytes themselves.
unfoldable pub logical_member_name : Bytes → Result LogicalName
logical_member_name name =
    if equal_numbers name (text "source") || equal_numbers name (text "source.npy")
    then ok source
    else (if equal_numbers name (text "target") || equal_numbers name (text "target.npy")
        then ok target
        else err value_error)

-- The `count` numbers of eight bytes that stand at the start
unfoldable pub uint64s : ℕ → Bytes → List ℕ
unfolding le_value
uint64s zero payload = []
uint64s (suc count) payload = le_value (take 8 payload) ∷ uint64s count (drop 8 payload)

abbrev pub listed_if : Bool → ℕ → List ℕ
listed_if true n = n ∷ []
listed_if false n = []

-- `_local_zip64_sizes`, where the ZIP64 payload is read
unfoldable pub zip64_sizes : ℕ → ℕ → ℕ → ℕ → Option Bytes → Result Bool
zip64_sizes local_compressed local_uncompressed central_compressed central_uncompressed zip64 = do
  payload ← or_raise zip64 value_error
  let compressed_sentinel = local_compressed == uint32_sentinel
  let uncompressed_sentinel = local_uncompressed == uint32_sentinel
  raise_if (not uncompressed_sentinel && not (local_uncompressed == central_uncompressed))
      value_error
  raise_if (not compressed_sentinel && not (local_compressed == central_compressed)) value_error
  let expected =
      listed_if uncompressed_sentinel central_uncompressed
      ++ listed_if compressed_sentinel central_compressed
  raise_if (not (length payload == length expected * 8)) value_error
  raise_if (not (equal_numbers (uint64s (length payload / 8) payload) expected)) value_error
  ok true

-- `_local_zip64_sizes`
unfoldable pub local_zip64_sizes : ℕ → ℕ → ℕ → ℕ → ExtraFields → Result Bool
unfolding lookup_field
local_zip64_sizes local_compressed local_uncompressed central_compressed central_uncompressed
      extra_fields =
    let zip64 = lookup_field 1 extra_fields in
    let long =
      zip64_sizes local_compressed local_uncompressed central_compressed central_uncompressed
        zip64 in
    if not (local_compressed == uint32_sentinel) && not (local_uncompressed == uint32_sentinel)
    then (do
      raise_if (is_some zip64) value_error
      raise_if
          (not (local_compressed == central_compressed)
            || not (local_uncompressed == central_uncompressed))
          value_error
      ok false)
    else long
