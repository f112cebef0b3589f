-- ===== src/Npz/Archive.antt =====
-- `_preflight_npz_archive` of src/selcal/npz_safe.py: the metadata of a ZIP archive with two members.
use selcal.Prelude.{
  ℕ, zero, suc, ◌+◌, ◌-◌, ◌/◌, ◌%◌, List, [], ◌∷◌, Bool, false, not, ◌&&◌, ◌||◌, length, ltb, leb,
  ◌==◌, if◌then◌else◌,
}
use selcal.Errors.{Result, ok, err, value_error, resource_limit_error, raise_if, ◌>>=◌, ◌>>◌}
use selcal.Arrays.{slice, equal_numbers}
use selcal.Selection.Family.{is_some}
use selcal.Npz.{
  Bytes, read_uint, require_bytes, has_bit, uint16_sentinel, uint32_sentinel, lookup_field,
  parse_extra_fields, LogicalName, source, target, same_name, logical_member_name,
  local_zip64_sizes,
}

pub record MemberMetadata : Type 0 where
  pub logical_name : LogicalName
  pub archive_name_bytes : Bytes
  pub flags : ℕ
  pub method : ℕ
  pub crc32 : ℕ
  pub compressed_size : ℕ
  pub uncompressed_size : ℕ
  pub local_offset : ℕ
  pub data_offset : ℕ
  pub data_end : ℕ
  pub local_zip64 : Bool

pub record ArchiveMetadata : Type 0 where
  pub central_offset : ℕ
  pub central_size : ℕ
  pub eocd_offset : ℕ
  pub members : MemberMetadata × MemberMetadata

-- What the central directory says of a member
pub record CentralEntry : Type 0 where
  pub archive_name_bytes : Bytes
  pub logical_name : LogicalName
  pub flags : ℕ
  pub method : ℕ
  pub crc32 : ℕ
  pub compressed_size : ℕ
  pub uncompressed_size : ℕ
  pub local_offset : ℕ

abbrev pub eocd_signature : Bytes
eocd_signature = 0x50 ∷ 0x4B ∷ 5 ∷ 6 ∷ []

abbrev pub zip64_locator_signature : Bytes
zip64_locator_signature = 0x50 ∷ 0x4B ∷ 6 ∷ 7 ∷ []

abbrev pub central_signature : Bytes
central_signature = 0x50 ∷ 0x4B ∷ 1 ∷ 2 ∷ []

abbrev pub local_signature : Bytes
local_signature = 0x50 ∷ 0x4B ∷ 3 ∷ 4 ∷ []

-- `raw[offset : offset + 4] == signature`
unfoldable pub has_signature : Bytes → ℕ → Bytes → Bool
has_signature raw offset signature = equal_numbers (slice offset (offset + 4) raw) signature

-- The candidates among the `count` positions from `offset` on: `find`, called again one behind the
-- last candidate, stops at each position with the signature.
unfoldable pub eocd_offsets : Bytes → ℕ → ℕ → List ℕ
unfolding has_signature
eocd_offsets raw offset zero = []
eocd_offsets raw offset (suc count) =
    let later = eocd_offsets raw (suc offset) count in
    if has_signature raw offset eocd_signature
      && (leb (offset + 22) (length raw)
          && (offset + 22 + read_uint raw (offset + 20) 2) == length raw)
    then offset ∷ later
    else later

-- `offsets[0]` where there is just one
abbrev only_offset : List ℕ → Result ℕ
only_offset (offset ∷ []) = ok offset
only_offset _ = err value_error

-- `_find_eocd_offset`
unfoldable pub find_eocd_offset : Bytes → Result ℕ
find_eocd_offset raw =
    let search_start = length raw - 65_557 in
    only_offset (eocd_offsets raw search_start (length raw - search_start))

-- `_parse_local_member`
unfoldable pub parse_local_member : Bytes → ℕ → CentralEntry → Result MemberMetadata
parse_local_member raw central_offset entry = do
  let local_offset = entry.local_offset
  raise_if (ltb central_offset (local_offset + 30)) value_error
  require_bytes raw local_offset 30
  raise_if (not (has_signature raw local_offset local_signature)) value_error
  let local_flags = read_uint raw (local_offset + 6) 2
  let local_method = read_uint raw (local_offset + 8) 2
  let local_crc32 = read_uint raw (local_offset + 14) 4
  let local_compressed = read_uint raw (local_offset + 18) 4
  let local_uncompressed = read_uint raw (local_offset + 22) 4
  let name_length = read_uint raw (local_offset + 26) 2
  let extra_length = read_uint raw (local_offset + 28) 2
  let variable_start = local_offset + 30
  let extra_start = variable_start + name_length
  let data_offset = extra_start + extra_length
  raise_if (ltb central_offset data_offset) value_error
  let local_name = slice variable_start extra_start raw
  let local_extra = slice extra_start data_offset raw
  raise_if (not (length local_name == name_length) || not (length local_extra == extra_length))
      value_error
  extra_fields ← parse_extra_fields local_extra
  raise_if
      (not (equal_numbers local_name entry.archive_name_bytes)
        || (not (local_flags == entry.flags)
            || (not (local_method == entry.method) || not (local_crc32 == entry.crc32))))
      value_error
  local_zip64 ←
      local_zip64_sizes local_compressed local_uncompressed entry.compressed_size
        entry.uncompressed_size extra_fields
  let data_end = data_offset + entry.compressed_size
  raise_if (ltb central_offset data_end) value_error
  ok (record {
    logical_name = entry.logical_name;
    archive_name_bytes = entry.archive_name_bytes;
    flags = entry.flags;
    method = entry.method;
    crc32 = entry.crc32;
    compressed_size = entry.compressed_size;
    uncompressed_size = entry.uncompressed_size;
    local_offset = local_offset;
    data_offset = data_offset;
    data_end = data_end;
    local_zip64 = local_zip64;
  })

-- `logical_name in logical_names`
abbrev pub seen_name : LogicalName → List LogicalName → Bool
seen_name name [] = false
seen_name name (n ∷ ns) = same_name name n || seen_name name ns

-- `flags & (0x0001 | 0x0008 | 0x0040 | 0x2000)`
abbrev pub forbidden_flags : ℕ → Bool
forbidden_flags flags =
    has_bit flags 0 || (has_bit flags 3 || (has_bit flags 6 || has_bit flags 13))

-- `external_attributes & 0x10 or stat.S_ISDIR(external_attributes >> 16)`
abbrev pub is_directory : ℕ → Bool
is_directory external_attributes =
    has_bit external_attributes 4 || (external_attributes / 0x10000 / 0x1000 % 0x10 == 4)

-- The central directory entry at the cursor, and where it ends
unfoldable pub central_entry : Bytes → ℕ → ℕ → List LogicalName → Result (CentralEntry × ℕ)
central_entry raw eocd_offset cursor logical_names = do
  raise_if (ltb eocd_offset (cursor + 46)) value_error
  require_bytes raw cursor 46
  raise_if (not (has_signature raw cursor central_signature)) value_error
  let flags = read_uint raw (cursor + 8) 2
  let method = read_uint raw (cursor + 10) 2
  let crc32 = read_uint raw (cursor + 16) 4
  let compressed_size = read_uint raw (cursor + 20) 4
  let uncompressed_size = read_uint raw (cursor + 24) 4
  let name_length = read_uint raw (cursor + 28) 2
  let extra_length = read_uint raw (cursor + 30) 2
  let comment_length = read_uint raw (cursor + 32) 2
  let disk_start = read_uint raw (cursor + 34) 2
  let external_attributes = read_uint raw (cursor + 38) 4
  let local_offset = read_uint raw (cursor + 42) 4
  raise_if (forbidden_flags flags || not (method == 0 || method == 8)) value_error
  raise_if (is_directory external_attributes) value_error
  raise_if
      (compressed_size == uint32_sentinel
        || (uncompressed_size == uint32_sentinel
            || (local_offset == uint32_sentinel
                || (disk_start == uint16_sentinel || not (disk_start == 0)))))
      value_error
  let variable_start = cursor + 46
  let extra_start = variable_start + name_length
  let record_end = extra_start + extra_length + comment_length
  raise_if (ltb eocd_offset record_end) value_error
  let archive_name_bytes = slice variable_start extra_start raw
  let central_extra = slice extra_start (extra_start + extra_length) raw
  raise_if
      (not (length archive_name_bytes == name_length) || not (length central_extra == extra_length))
      value_error
  extra_fields ← parse_extra_fields central_extra
  raise_if (is_some (lookup_field 1 extra_fields)) value_error
  logical_name ← logical_member_name archive_name_bytes
  raise_if (seen_name logical_name logical_names) value_error
  ok (
    record {
      archive_name_bytes = archive_name_bytes;
      logical_name = logical_name;
      flags = flags;
      method = method;
      crc32 = crc32;
      compressed_size = compressed_size;
      uncompressed_size = uncompressed_size;
      local_offset = local_offset;
    },
    record_end,
  )

-- One round of the loop over the central directory
unfoldable pub read_member : Bytes → ℕ → ℕ → ℕ → List LogicalName → Result (MemberMetadata × ℕ)
read_member raw central_offset eocd_offset cursor logical_names = do
  found ← central_entry raw eocd_offset cursor logical_names
  member ← parse_local_member raw central_offset found.0
  ok (member, found.1)

-- `sorted(...)` of the two pairs `(local_offset, data_end)`
abbrev pub ordered_ranges : MemberMetadata → MemberMetadata → (ℕ × ℕ) × (ℕ × ℕ)
ordered_ranges a b =
    if ltb b.local_offset a.local_offset
      || ((b.local_offset == a.local_offset) && ltb b.data_end a.data_end)
    then ((b.local_offset, b.data_end), (a.local_offset, a.data_end))
    else ((a.local_offset, a.data_end), (b.local_offset, b.data_end))

-- `sorted(members, key=lambda member: member.logical_name)`
abbrev pub ordered_by_name :
    LogicalName → MemberMetadata → MemberMetadata → MemberMetadata × MemberMetadata
ordered_by_name source a b = (a, b)
ordered_by_name target a b = (b, a)

abbrev pub ordered_members : MemberMetadata → MemberMetadata → MemberMetadata × MemberMetadata
ordered_members a b = ordered_by_name a.logical_name a b

-- `_enforce_central_directory_limit`
abbrev pub enforce_central_directory_limit : ℕ → Result (Unit {0})
enforce_central_directory_limit size = raise_if (ltb 16_384 size) resource_limit_error

-- The tests of the end record, before the central directory is read
unfoldable pub check_end_record : Bytes → ℕ → Result (ℕ × ℕ)
check_end_record raw eocd_offset = do
  let disk = read_uint raw (eocd_offset + 4) 2
  let central_disk = read_uint raw (eocd_offset + 6) 2
  let disk_entries = read_uint raw (eocd_offset + 8) 2
  let entries = read_uint raw (eocd_offset + 10) 2
  let central_size = read_uint raw (eocd_offset + 12) 4
  let central_offset = read_uint raw (eocd_offset + 16) 4
  raise_if
      (disk_entries == uint16_sentinel
        || (entries == uint16_sentinel
            || (central_size == uint32_sentinel || central_offset == uint32_sentinel)))
      value_error
  raise_if (not (disk == 0) || not (central_disk == 0)) value_error
  raise_if (not (disk_entries == 2) || not (entries == 2)) value_error
  raise_if (leb 20 eocd_offset && has_signature raw (eocd_offset - 20) zip64_locator_signature)
      value_error
  raise_if (not ((central_offset + central_size) == eocd_offset)) value_error
  enforce_central_directory_limit central_size
  ok (central_size, central_offset)

-- `_preflight_npz_archive`, its loop of two rounds written out
unfoldable pub preflight_npz_archive : Bytes → Result ArchiveMetadata
preflight_npz_archive raw = do
  eocd_offset ← find_eocd_offset raw
  require_bytes raw eocd_offset 22
  central ← check_end_record raw eocd_offset
  first ← read_member raw central.1 eocd_offset central.1 []
  second ← read_member raw central.1 eocd_offset first.1 (first.0.logical_name ∷ [])
  let names = first.0.logical_name ∷ second.0.logical_name ∷ []
  raise_if (not (second.1 == eocd_offset) || not (seen_name source names && seen_name target names))
      value_error
  let ranges = ordered_ranges first.0 second.0
  raise_if (ltb ranges.1.0 ranges.0.1) value_error
  raise_if (ltb central.1 ranges.0.1 || ltb central.1 ranges.1.1) value_error
  ok (record {
    central_offset = central.1;
    central_size = central.0;
    eocd_offset = eocd_offset;
    members = ordered_members first.0 second.0;
  })
