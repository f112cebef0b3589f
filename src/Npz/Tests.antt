-- ===== src/Npz/Tests.antt =====
-- A small archive of two stored members, and extraction with a decompressor that copies.
use selcal.Prelude.{
  ℕ, [], ◌∷◌, true, false, some, ◌≡◌, ◌↔◌, refl, ap, arith, length, take, drop, length-take,
  length-drop,
}
use selcal.Errors.{Result, ok, err, value_error, resource_limit_error, ok-injective}
use selcal.Arrays.{equal_numbers}
use selcal.Nulls.Token.{text}
use selcal.Npz.{
  Bytes, le_value, read_uint, require_bytes, ExtraFields, lookup_field, parse_extra_from,
  parse_extra_fields, source, target, logical_member_name, uint64s, zip64_sizes, local_zip64_sizes,
}
use selcal.Npz.Extra.{laid_out, IsFresh, parse_extra_fields_iff}
use selcal.Npz.Archive.{
  MemberMetadata, ArchiveMetadata, has_signature, eocd_offsets, find_eocd_offset,
  parse_local_member, central_entry, read_member, check_end_record, preflight_npz_archive,
}
use selcal.Npz.Safe.{IsSafeArchive, preflight_npz_archive-IsSafeArchive}
use selcal.Npz.Extract.{
  Inflater, IsInflater, joined, verify_extracted_member, extract_stored_member, refill,
  after_decompress, inflate_round, inflate_loop, finish_deflated, extract_deflated_member,
  extract_member_payload,
}
use selcal.Npz.Inflate.{IsVerifiedPayload, extract_member_payload-ends}

-- What `zipfile` writes for the members `source`, of the bytes 7 and 8, and `target`, of the byte 9
abbrev small_archive : Bytes
small_archive =
    80 ∷ 75 ∷ 3 ∷ 4 ∷ 20 ∷ 0 ∷ 0 ∷ 0 ∷ 0 ∷ 0 ∷ 0 ∷ 0 ∷ 33 ∷ 0 ∷ 10 ∷ 12 ∷ 67 ∷ 0 ∷ 2 ∷ 0 ∷ 0 ∷ 0 ∷ 2
    ∷ 0 ∷ 0 ∷ 0 ∷ 6 ∷ 0 ∷ 0 ∷ 0 ∷ 115 ∷ 111 ∷ 117 ∷ 114 ∷ 99 ∷ 101 ∷ 7 ∷ 8 ∷ 80 ∷ 75 ∷ 3 ∷ 4 ∷ 20
    ∷ 0 ∷ 0 ∷ 0 ∷ 0 ∷ 0 ∷ 0 ∷ 0 ∷ 33 ∷ 0 ∷ 41 ∷ 87 ∷ 222 ∷ 171 ∷ 1 ∷ 0 ∷ 0 ∷ 0 ∷ 1 ∷ 0 ∷ 0 ∷ 0 ∷ 6
    ∷ 0 ∷ 0 ∷ 0 ∷ 116 ∷ 97 ∷ 114 ∷ 103 ∷ 101 ∷ 116 ∷ 9 ∷ 80 ∷ 75 ∷ 1 ∷ 2 ∷ 20 ∷ 3 ∷ 20 ∷ 0 ∷ 0 ∷ 0
    ∷ 0 ∷ 0 ∷ 0 ∷ 0 ∷ 33 ∷ 0 ∷ 10 ∷ 12 ∷ 67 ∷ 0 ∷ 2 ∷ 0 ∷ 0 ∷ 0 ∷ 2 ∷ 0 ∷ 0 ∷ 0 ∷ 6 ∷ 0 ∷ 0 ∷ 0 ∷ 0
    ∷ 0 ∷ 0 ∷ 0 ∷ 0 ∷ 0 ∷ 0 ∷ 0 ∷ 128 ∷ 1 ∷ 0 ∷ 0 ∷ 0 ∷ 0 ∷ 115 ∷ 111 ∷ 117 ∷ 114 ∷ 99 ∷ 101 ∷ 80
    ∷ 75 ∷ 1 ∷ 2 ∷ 20 ∷ 3 ∷ 20 ∷ 0 ∷ 0 ∷ 0 ∷ 0 ∷ 0 ∷ 0 ∷ 0 ∷ 33 ∷ 0 ∷ 41 ∷ 87 ∷ 222 ∷ 171 ∷ 1 ∷ 0
    ∷ 0 ∷ 0 ∷ 1 ∷ 0 ∷ 0 ∷ 0 ∷ 6 ∷ 0 ∷ 0 ∷ 0 ∷ 0 ∷ 0 ∷ 0 ∷ 0 ∷ 0 ∷ 0 ∷ 0 ∷ 0 ∷ 128 ∷ 1 ∷ 38 ∷ 0 ∷ 0
    ∷ 0 ∷ 116 ∷ 97 ∷ 114 ∷ 103 ∷ 101 ∷ 116 ∷ 80 ∷ 75 ∷ 5 ∷ 6 ∷ 0 ∷ 0 ∷ 0 ∷ 0 ∷ 2 ∷ 0 ∷ 2 ∷ 0 ∷ 104
    ∷ 0 ∷ 0 ∷ 0 ∷ 75 ∷ 0 ∷ 0 ∷ 0 ∷ 0 ∷ 0 ∷ []

abbrev source_member : MemberMetadata
source_member = record {
  logical_name = source;
  archive_name_bytes = text "source";
  flags = 0;
  method = 0;
  crc32 = 4393994;
  compressed_size = 2;
  uncompressed_size = 2;
  local_offset = 0;
  data_offset = 36;
  data_end = 38;
  local_zip64 = false;
}

abbrev target_member : MemberMetadata
target_member = record {
  logical_name = target;
  archive_name_bytes = text "target";
  flags = 0;
  method = 0;
  crc32 = 2883475241;
  compressed_size = 1;
  uncompressed_size = 1;
  local_offset = 38;
  data_offset = 74;
  data_end = 75;
  local_zip64 = false;
}

abbrev small_metadata : ArchiveMetadata
small_metadata = record {
  central_offset = 75;
  central_size = 104;
  eocd_offset = 179;
  members = (source_member, target_member);
}

program : Unit {0}
unfolding le_value read_uint require_bytes lookup_field parse_extra_from parse_extra_fields
    logical_member_name uint64s zip64_sizes local_zip64_sizes has_signature eocd_offsets
    find_eocd_offset parse_local_member central_entry read_member check_end_record
    preflight_npz_archive equal_numbers joined verify_extracted_member extract_stored_member refill
    after_decompress inflate_round inflate_loop finish_deflated extract_deflated_member
    extract_member_payload
program = tt

small_accepted : preflight_npz_archive small_archive ≡ ok small_metadata
unfolding program
small_accepted = refl

-- One byte behind the end record, and an archive without its first byte, are refused.
refused :
    (preflight_npz_archive (0 ∷ small_archive) ≡ err value_error)
    × (preflight_npz_archive (drop 1 small_archive) ≡ err value_error)
unfolding program
refused = (refl, refl)

preflight_npz_archive-IsSafeArchive_example : IsSafeArchive small_archive small_metadata
preflight_npz_archive-IsSafeArchive_example =
    preflight_npz_archive-IsSafeArchive small_archive small_accepted

abbrev two_fields : ExtraFields
two_fields = (1, 5 ∷ []) ∷ (0x5455, 1 ∷ 2 ∷ []) ∷ []

abbrev two_fields_bytes : Bytes
two_fields_bytes = 1 ∷ 0 ∷ 1 ∷ 0 ∷ 5 ∷ 0x55 ∷ 0x54 ∷ 2 ∷ 0 ∷ 1 ∷ 2 ∷ []

parse_extra_fields_iff_example :
    (parse_extra_fields two_fields_bytes ≡ ok two_fields)
    ↔ ((two_fields_bytes ≡ laid_out two_fields) × IsFresh [] two_fields)
parse_extra_fields_iff_example = parse_extra_fields_iff two_fields_bytes two_fields (omega arith)

-- A field that is cut short and a repeated id are refused.
fields_refused :
    (parse_extra_fields (1 ∷ 0 ∷ 2 ∷ 0 ∷ 5 ∷ []) ≡ err value_error)
    × (parse_extra_fields (1 ∷ 0 ∷ 0 ∷ 0 ∷ 1 ∷ 0 ∷ 0 ∷ 0 ∷ []) ≡ err value_error)
unfolding program
fields_refused = (refl, refl)

-- What was not consumed is the state, and the stream ends with every answer.
abbrev copier : Inflater
copier = record {
  State = Bytes;
  start = [];
  decompress = λ s offered max_length. ok (take max_length offered, drop max_length offered);
  unconsumed_tail = λ s. s;
  eof = λ s. true;
  unused_data = λ s. [];
}

copier-IsInflater : IsInflater copier
copier-IsInflater = record {
  output_bounded = λ s offered max_length output next positive e. omega (
    arith,
    length-take max_length offered,
    ap (λ (q : Bytes × Bytes). length q.0) (ok-injective e),
  );
  tail_bounded = λ s offered max_length output next e. omega (
    arith,
    length-drop max_length offered,
    ap (λ (q : Bytes × Bytes). length q.1) (ok-injective e),
  );
}

-- The same member, as if it were deflated
abbrev deflated_member : MemberMetadata
deflated_member = record source_member { method = 8 }

-- A checksum that is right for the bytes 7 and 8
abbrev fixed_checksum : Bytes → ℕ
fixed_checksum payload = 4393994

both_extracted :
    (extract_member_payload copier fixed_checksum small_archive 10 20 source_member
      ≡ some (ok (7 ∷ 8 ∷ [])))
    × (extract_member_payload copier fixed_checksum small_archive 10 20 deflated_member
        ≡ some (ok (7 ∷ 8 ∷ [])))
    × (extract_member_payload copier fixed_checksum small_archive 2 20 deflated_member
        ≡ some (err resource_limit_error))
unfolding program
both_extracted = (refl, refl, refl)

extract_member_payload-ends_example :
    (r : Result Bytes) × (extract_member_payload copier fixed_checksum small_archive 10 20
        deflated_member
      ≡ some r)
    × ((payload : Bytes)
        → r ≡ ok payload
        → IsVerifiedPayload copier-IsInflater fixed_checksum small_archive 10 deflated_member
            payload)
extract_member_payload-ends_example =
    extract_member_payload-ends copier-IsInflater fixed_checksum small_archive 10 20 deflated_member
      (omega arith) (omega arith)
