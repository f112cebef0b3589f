-- ===== src/Npz/Inflate.antt =====
-- What the extraction of a member ends with.
use selcal.Prelude.{
  ℕ, ◌+◌, ◌-◌, ◌%◌, ◌^◌, ◌≤◌, ◌<◌, false, not, ◌||◌, some, ◌≡◌, refl, subst, arith, length, leb,
  ◌==◌, inl, inr, Bool-cases,
}
use selcal.Errors.{
  Result, ok, err, value_error, resource_limit_error, >>=-eq-ok, guard-eq-ok, ok-injective,
}
use selcal.Arrays.{slice}
use selcal.Npz.{Bytes}
use selcal.Npz.Archive.{MemberMetadata}
use selcal.Npz.Extract.{
  Inflater, IsInflater, InflateState, is_empty_bytes, joined, verify_extracted_member,
  extract_stored_member, extract_deflated_member, inflate_start, finish_deflated,
  extract_member_payload,
}
use selcal.Npz.Rounds.{IsCounted, inflate_loop-ends}

module _ {z : Inflater} (law : IsInflater z) (crc32 : Bytes → ℕ) (raw : Bytes) (maximum : ℕ) where
  open z use {State, decompress, unconsumed_tail, eof, unused_data}

  -- A payload that was verified against its member, of a size below the maximum
  pub record IsVerifiedPayload (member : MemberMetadata) (payload : Bytes) : Type 0 where
    pub sized : length payload ≡ member.uncompressed_size
    pub bounded : length payload < maximum
    pub checked : crc32 payload % 2 ^ 32 ≡ member.crc32

  verified-payload :
      (member : MemberMetadata) (given : Bytes) {payload : Bytes}
      → length given < maximum
      → verify_extracted_member z crc32 raw maximum given member ≡ ok payload
      → IsVerifiedPayload member payload
  unfolding verify_extracted_member
  verified-payload member given below h =
      let (size, h1) =
        guard-eq-ok (not (length given == member.uncompressed_size)) value_error _ h in
      let (sum, h2) = guard-eq-ok (not (crc32 given % 2 ^ 32 == member.crc32)) value_error _ h1 in
      subst (IsVerifiedPayload member) (ok-injective h2)
        (record { sized = ==-eq _ _ size; bounded = below; checked = ==-eq _ _ sum })
    where
      ==-eq : (a b : ℕ) → not (a == b) ≡ false → a ≡ b
      ==-eq a b e = ground arith

  stored-payload :
      (member : MemberMetadata) {payload : Bytes}
      → extract_stored_member z crc32 raw maximum member ≡ ok payload
      → IsVerifiedPayload member payload
  unfolding extract_stored_member
  stored-payload member h =
      let size = member.data_end - member.data_offset in
      let stored = slice member.data_offset member.data_end raw in
      let (small, h1) = guard-eq-ok (leb maximum size) resource_limit_error _ h in
      let (below, h2) = guard-eq-ok (leb maximum (length stored)) resource_limit_error _ h1 in
      let (whole, h3) =
        guard-eq-ok
          (not (length stored == size)
            || (not (member.compressed_size == size)
                || not (member.compressed_size == member.uncompressed_size)))
          value_error _ h2 in
      verified-payload member stored (ground arith) h3

  deflated-payload :
      (member : MemberMetadata) (looped : Result (InflateState State)) {payload : Bytes}
      → ((left : InflateState State) → looped ≡ ok left → IsCounted law crc32 raw maximum left)
      → finish_deflated z crc32 raw maximum member looped ≡ ok payload
      → IsVerifiedPayload member payload
  unfolding finish_deflated
  deflated-payload member looped ends h =
      let (s, there, h1) = >>=-eq-ok looped _ h in
      let (clean, h2) =
        guard-eq-ok
          (not (s.cursor == member.data_end)
            || (not (is_empty_bytes s.pending)
                || (not (eof s.decompressor)
                    || (not (is_empty_bytes (unused_data s.decompressor))
                        || not (is_empty_bytes (unconsumed_tail s.decompressor))))))
          value_error _ h1 in
      let c = ends s there in
      verified-payload member (joined s.output_chunks) (omega (arith, c.counted, c.below)) h2

  -- The extraction of a member ends: with a decompressor as documented, a positive maximum and
  -- fuel above the compressed bytes and the maximum together it gives an error or a payload, and a
  -- payload has the declared size, which is below the maximum, and the declared checksum.
  pub extract_member_payload-ends :
      (fuel : ℕ) (member : MemberMetadata)
      → 1 ≤ maximum
      → (member.data_end - member.data_offset) + maximum < fuel
      → (r : Result Bytes) × (extract_member_payload z crc32 raw maximum fuel member ≡ some r)
        × ((payload : Bytes) → r ≡ ok payload → IsVerifiedPayload member payload)
  unfolding extract_member_payload extract_deflated_member
  extract_member_payload-ends fuel member positive enough = elim (Bool-cases (member.method == 0)) [
    | inl stored ↦ (
      extract_stored_member z crc32 raw maximum member,
      rw stored,
      λ p e. stored-payload member e,
    )
    | inr other ↦ elim (Bool-cases (member.method == 8)) [
      | inr neither ↦ (err value_error, rw (other, neither), λ p e. cc)
      | inl deflated ↦
          let start = inflate_start z crc32 raw maximum member in
          let counted : IsCounted law crc32 raw maximum start = record {
            counted = unfold joined in refl;
            below = omega arith;
          } in
          let (looped, run, ends) =
            inflate_loop-ends law crc32 raw maximum fuel member start counted (omega arith) in
          (
            finish_deflated z crc32 raw maximum member looped,
            rw (other, deflated, run),
            λ p e. deflated-payload member looped ends e,
          )
    ]
  ]
