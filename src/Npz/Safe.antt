-- ===== src/Npz/Safe.antt =====
-- What an archive that passed the preflight guarantees to the extraction.
use selcal.Prelude.{
  ℕ, ◌+◌, ◌-◌, ◌≤◌, List, [], ◌∷◌, true, false, not, ◌&&◌, ◌||◌, ◌≡◌, ◌⊎◌, inl, inr, refl, sym, ap,
  subst, arith, length, ltb, leb, ◌==◌, or-eq-false, not-eq-false, Bool-cases,
}
use selcal.Errors.{
  ok, value_error, resource_limit_error, >>=-eq-ok, >>-eq-ok, guard-eq-ok, ok-injective,
}
use selcal.Arrays.{slice, equal_numbers}
use selcal.Arrays.Laws.{equal_numbers-eq}
use selcal.Npz.{
  Bytes, read_uint, require_bytes, uint16_sentinel, uint32_sentinel, parse_extra_fields,
  LogicalName, source, target, local_zip64_sizes,
}
use selcal.Npz.Archive.{
  MemberMetadata, ArchiveMetadata, CentralEntry, has_signature, local_signature,
  zip64_locator_signature, find_eocd_offset, parse_local_member, central_entry, read_member,
  seen_name, ordered_ranges, ordered_by_name, ordered_members, check_end_record,
  preflight_npz_archive,
}

-- The data of a member lies behind a local header that names it, and ends before the central
-- directory.
pub record IsLocated (raw : Bytes) (central_offset : ℕ) (m : MemberMetadata) : Type 0 where
  pub header : has_signature raw m.local_offset local_signature ≡ true
  pub header_end : m.local_offset + 30 ≤ m.data_offset
  pub named :
      slice (m.local_offset + 30) (m.local_offset + 30 + read_uint raw (m.local_offset + 26) 2) raw
      ≡ m.archive_name_bytes
  pub sized : m.data_end ≡ m.data_offset + m.compressed_size
  pub inside : m.data_end ≤ central_offset

parse_local_member-IsLocated :
    (raw : Bytes) (central_offset : ℕ) (e : CentralEntry) {m : MemberMetadata}
    → parse_local_member raw central_offset e ≡ ok m
    → IsLocated raw central_offset m × (m.logical_name ≡ e.logical_name)
unfolding parse_local_member
parse_local_member-IsLocated raw central_offset e h =
    let start = e.local_offset in
    let name_length = read_uint raw (start + 26) 2 in
    let extra_length = read_uint raw (start + 28) 2 in
    let name_end = start + 30 + name_length in
    let data_offset = name_end + extra_length in
    let local_name = slice (start + 30) name_end raw in
    let local_extra = slice name_end data_offset raw in
    let (room, h1) = guard-eq-ok (ltb central_offset (start + 30)) value_error _ h in
    let (there, h2) = >>-eq-ok (require_bytes raw start 30) _ h1 in
    let (signed, h3) =
      guard-eq-ok (not (has_signature raw start local_signature)) value_error _ h2 in
    let (fits, h4) = guard-eq-ok (ltb central_offset data_offset) value_error _ h3 in
    let (whole, h5) =
      guard-eq-ok
        (not (length local_name == name_length) || not (length local_extra == extra_length))
        value_error _ h4 in
    let (fields, parsed, h6) = >>=-eq-ok (parse_extra_fields local_extra) _ h5 in
    let (agrees, h7) =
      guard-eq-ok
        (not (equal_numbers local_name e.archive_name_bytes)
          || (not (read_uint raw (start + 6) 2 == e.flags)
              || (not (read_uint raw (start + 8) 2 == e.method)
                  || not (read_uint raw (start + 14) 4 == e.crc32))))
        value_error _ h6 in
    let (zip64, sizes, h8) =
      >>=-eq-ok
        (local_zip64_sizes (read_uint raw (start + 18) 4) (read_uint raw (start + 22) 4)
          e.compressed_size e.uncompressed_size fields)
        _ h7 in
    let (ends, h9) =
      guard-eq-ok (ltb central_offset (data_offset + e.compressed_size)) value_error _ h8 in
    let made = ok-injective h9 in
    let same_name =
      (or-eq-false (not (equal_numbers local_name e.archive_name_bytes)) _ agrees).0 in
    let right = equal_numbers-eq local_name e.archive_name_bytes (not-eq-false _ same_name) in
    (
      subst (IsLocated raw central_offset) made (record {
        header = not-eq-false _ signed;
        header_end = omega arith;
        named = right;
        sized = refl;
        inside = ground arith;
      }),
      sym (ap (λ (m : MemberMetadata). m.logical_name) made),
    )

read_member-IsLocated :
    (raw : Bytes) (central_offset eocd_offset cursor : ℕ) (names : List LogicalName)
    {found : MemberMetadata × ℕ}
    → read_member raw central_offset eocd_offset cursor names ≡ ok found
    → IsLocated raw central_offset found.0
unfolding read_member
read_member-IsLocated raw central_offset eocd_offset cursor names h =
    let (entry, read, h1) = >>=-eq-ok (central_entry raw eocd_offset cursor names) _ h in
    let (m, local, h2) = >>=-eq-ok (parse_local_member raw central_offset entry.0) _ h1 in
    subst (IsLocated raw central_offset) (ap (λ (q : MemberMetadata × ℕ). q.0) (ok-injective h2))
      (parse_local_member-IsLocated raw central_offset entry.0 local).0

-- The two members are the source and the target, located inside of the archive and apart.
pub record IsSafeArchive (raw : Bytes) (a : ArchiveMetadata) : Type 0 where
  pub end_record : a.eocd_offset + 22 ≤ length raw
  pub directory : a.central_offset + a.central_size ≡ a.eocd_offset
  pub directory_size : a.central_size ≤ 16_384
  pub first_named : a.members.0.logical_name ≡ source
  pub second_named : a.members.1.logical_name ≡ target
  pub first_located : IsLocated raw a.central_offset a.members.0
  pub second_located : IsLocated raw a.central_offset a.members.1
  pub apart :
      (a.members.0.data_end ≤ a.members.1.local_offset)
      ⊎ (a.members.1.data_end ≤ a.members.0.local_offset)

check_end_record-sizes :
    (raw : Bytes) (eocd_offset : ℕ) {central : ℕ × ℕ}
    → check_end_record raw eocd_offset ≡ ok central
    → (central.1 + central.0 ≡ eocd_offset) × (central.0 ≤ 16_384)
unfolding check_end_record
check_end_record-sizes raw eocd_offset h =
    let disk_entries = read_uint raw (eocd_offset + 8) 2 in
    let entries = read_uint raw (eocd_offset + 10) 2 in
    let size = read_uint raw (eocd_offset + 12) 4 in
    let offset = read_uint raw (eocd_offset + 16) 4 in
    let (_, h1) =
      guard-eq-ok
        (disk_entries == uint16_sentinel
          || (entries == uint16_sentinel || (size == uint32_sentinel || offset == uint32_sentinel)))
        value_error _ h in
    let (_, h2) =
      guard-eq-ok
        (not (read_uint raw (eocd_offset + 4) 2 == 0)
          || not (read_uint raw (eocd_offset + 6) 2 == 0))
        value_error _ h1 in
    let (_, h3) = guard-eq-ok (not (disk_entries == 2) || not (entries == 2)) value_error _ h2 in
    let (_, h4) =
      guard-eq-ok
        (leb 20 eocd_offset && has_signature raw (eocd_offset - 20) zip64_locator_signature)
        value_error _ h3 in
    let (ends, h5) = guard-eq-ok (not ((offset + size) == eocd_offset)) value_error _ h4 in
    let (small, h6) = guard-eq-ok (ltb 16_384 size) resource_limit_error _ h5 in
    let made = ok-injective h6 in
    (
      subst (λ (q : ℕ × ℕ). q.1 + q.0 ≡ eocd_offset) made (ground arith),
      subst (λ (q : ℕ × ℕ). q.0 ≤ 16_384) made (ground arith),
    )

require_bytes-le :
    (raw : Bytes) (offset size : ℕ)
    → require_bytes raw offset size ≡ ok tt
    → offset + size ≤ length raw
unfolding require_bytes
require_bytes-le raw offset size h = ground arith

two_names :
    (x y : LogicalName)
    → (seen_name source (x ∷ y ∷ []) && seen_name target (x ∷ y ∷ [])) ≡ true
    → ((x ≡ source) × (y ≡ target)) ⊎ ((x ≡ target) × (y ≡ source))
two_names source source h = cc
two_names source target h = inl (refl, refl)
two_names target source h = inr (refl, refl)
two_names target target h = cc

ranges_apart :
    (a b : MemberMetadata)
    → ltb (ordered_ranges a b).1.0 (ordered_ranges a b).0.1 ≡ false
    → (a.data_end ≤ b.local_offset) ⊎ (b.data_end ≤ a.local_offset)
ranges_apart a b h =
    elim (Bool-cases (
      ltb b.local_offset a.local_offset
      || ((b.local_offset == a.local_offset) && ltb b.data_end a.data_end))) [
        | inl swapped ↦ let k = rw swapped at h in inr (ground arith)
        | inr kept ↦ let k = rw kept at h in inl (ground arith)
      ]

-- The two members in order, from their tests in the order that they were found in
ordered-safe :
    (raw : Bytes) (size offset eocd : ℕ) (a b : MemberMetadata)
    → eocd + 22 ≤ length raw
    → offset + size ≡ eocd
    → size ≤ 16_384
    → IsLocated raw offset a
    → IsLocated raw offset b
    → (seen_name source (a.logical_name ∷ b.logical_name ∷ [])
        && seen_name target (a.logical_name ∷ b.logical_name ∷ []))
      ≡ true
    → ltb (ordered_ranges a b).1.0 (ordered_ranges a b).0.1 ≡ false
    → IsSafeArchive raw (record {
      central_offset = offset;
      central_size = size;
      eocd_offset = eocd;
      members = ordered_members a b;
    })
ordered-safe raw size offset eocd a b e d s la lb names apart =
    elim (two_names a.logical_name b.logical_name names) [
      | inl (first, second) ↦ put (sym (ap (λ n. ordered_by_name n a b) first)) (record {
        end_record = e;
        directory = d;
        directory_size = s;
        first_named = first;
        second_named = second;
        first_located = la;
        second_located = lb;
        apart = ranges_apart a b apart;
      })
      | inr (first, second) ↦ put (sym (ap (λ n. ordered_by_name n a b) first)) (record {
        end_record = e;
        directory = d;
        directory_size = s;
        first_named = second;
        second_named = first;
        first_located = lb;
        second_located = la;
        apart = other_way (ranges_apart a b apart);
      })
    ]
  where
    put :
        {p q : MemberMetadata × MemberMetadata}
        → p ≡ q
        → IsSafeArchive raw (record {
          central_offset = offset;
          central_size = size;
          eocd_offset = eocd;
          members = p;
        })
        → IsSafeArchive raw (record {
          central_offset = offset;
          central_size = size;
          eocd_offset = eocd;
          members = q;
        })
    put e h =
        subst
          (λ m. IsSafeArchive raw (record {
            central_offset = offset;
            central_size = size;
            eocd_offset = eocd;
            members = m;
          }))
          e h

    other_way : {A B : Type 0} → A ⊎ B → B ⊎ A
    other_way (inl x) = inr x
    other_way (inr y) = inl y

-- Whatever archive passes the preflight has its end record within the bytes, directly behind a
-- central directory of at most 16384 bytes, and two members, the source and the target: each lies
-- behind a local header that carries its name, has the declared compressed size and ends before
-- the central directory, and their ranges do not overlap.
pub preflight_npz_archive-IsSafeArchive :
    (raw : Bytes) {a : ArchiveMetadata} → preflight_npz_archive raw ≡ ok a → IsSafeArchive raw a
unfolding preflight_npz_archive
preflight_npz_archive-IsSafeArchive raw h =
    let (eocd, found, h1) = >>=-eq-ok (find_eocd_offset raw) _ h in
    let (there, h2) = >>-eq-ok (require_bytes raw eocd 22) _ h1 in
    let (central, checked, h3) = >>=-eq-ok (check_end_record raw eocd) _ h2 in
    let (first, read_first, h4) = >>=-eq-ok (read_member raw central.1 eocd central.1 []) _ h3 in
    let (second, read_second, h5) =
      >>=-eq-ok (read_member raw central.1 eocd first.1 (first.0.logical_name ∷ [])) _ h4 in
    let names = first.0.logical_name ∷ second.0.logical_name ∷ [] in
    let ranges = ordered_ranges first.0 second.0 in
    let (named, h6) =
      guard-eq-ok (not (second.1 == eocd) || not (seen_name source names && seen_name target names))
        value_error _ h5 in
    let (apart, h7) = guard-eq-ok (ltb ranges.1.0 ranges.0.1) value_error _ h6 in
    let (inside, h8) =
      guard-eq-ok (ltb central.1 ranges.0.1 || ltb central.1 ranges.1.1) value_error _ h7 in
    let (directory, small) = check_end_record-sizes raw eocd checked in
    subst (IsSafeArchive raw) (ok-injective h8) (
      ordered-safe raw central.0 central.1 eocd first.0 second.0
        (require_bytes-le raw eocd 22 there) directory small
        (read_member-IsLocated raw central.1 eocd central.1 [] read_first)
        (read_member-IsLocated raw central.1 eocd first.1 (first.0.logical_name ∷ []) read_second)
        (not-eq-false _ (or-eq-false (not (second.1 == eocd)) _ named).1) apart)
