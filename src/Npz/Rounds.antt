-- ===== src/Npz/Rounds.antt =====
-- The rounds of the loop that inflates a member: they end, and never hold more than the limit.
use selcal.Prelude.{
  ℕ, zero, suc, ◌+◌, ◌-◌, ◌≤◌, ◌<◌, min, List, [], ◌∷◌, ◌++◌, true, false, not, ◌&&◌, ◌||◌, some,
  ◌≡◌, refl, subst, arith, length, length-append, length-take, length-drop, take, ltb, leb, ◌==◌,
  if◌then◌else◌, inl, inr, Bool-cases,
}
use selcal.Errors.{
  Result, ok, err, value_error, resource_limit_error, >>=-eq-ok, guard-eq-ok, ok-injective,
  Result-cases,
}
use selcal.Arrays.{slice}
use selcal.Npz.{Bytes}
use selcal.Npz.Archive.{MemberMetadata}
use selcal.Npz.Extract.{
  Inflater, IsInflater, InflateState, Round, next_round, break_with, is_empty_bytes, joined, refill,
  after_decompress, inflate_round, after_round, inflate_loop,
}

length-joined_append :
    (chunks : List Bytes) (output : Bytes)
    → length (joined (chunks ++ output ∷ [])) ≡ length (joined chunks) + length output
unfolding joined
length-joined_append [] output = omega (arith, length-append output [])
length-joined_append (c ∷ cs) output = omega (
  arith,
  length-append c (joined (cs ++ output ∷ [])),
  length-append c (joined cs),
  length-joined_append cs output,
)

empty-length : (bytes : Bytes) → is_empty_bytes bytes ≡ true → length bytes ≡ 0
empty-length [] e = refl
empty-length (b ∷ bs) e = cc

full-length : (bytes : Bytes) → is_empty_bytes bytes ≡ false → 1 ≤ length bytes
full-length [] e = cc
full-length (b ∷ bs) e = omega arith

module _ {z : Inflater} (law : IsInflater z) (crc32 : Bytes → ℕ) (raw : Bytes) (maximum : ℕ) where
  open z use {State, decompress, unconsumed_tail, eof, unused_data}

  -- What the chunks hold is counted, and stays below the maximum.
  pub record IsCounted (s : InflateState State) : Type 0 where
    pub counted : length (joined s.output_chunks) ≡ s.observed
    pub below : s.observed < maximum

  -- The bytes that were not offered yet or not consumed, and the room for output
  abbrev pub left_to_do : ℕ → InflateState State → ℕ
  left_to_do data_end s = (data_end - s.cursor) + length s.pending + (maximum - s.observed)

  abbrev KeepsRound : ℕ → ℕ → Round State → Type 0
  KeepsRound data_end bound (next_round s) = IsCounted s × (left_to_do data_end s < bound)
  KeepsRound data_end bound (break_with s) = IsCounted s

  refill-keeps :
      (data_end cursor : ℕ) (pending : Bytes) {offered : ℕ × Bytes}
      → refill z crc32 raw maximum data_end cursor pending ≡ ok offered
      → (data_end - offered.0) + length offered.1 ≤ (data_end - cursor) + length pending
  unfolding refill
  refill-keeps data_end cursor (b ∷ pending) h =
      subst
        (λ (q : ℕ × Bytes).
          (data_end - q.0) + length q.1 ≤ (data_end - cursor) + suc (length pending))
        (ok-injective h) (omega arith)
  refill-keeps data_end cursor [] h =
      let chunk_end = min (cursor + 65_536) data_end in
      let chunk = slice cursor chunk_end raw in
      let (some_bytes, h1) = guard-eq-ok (is_empty_bytes chunk) value_error _ h in
      let full = full-length chunk some_bytes in
      subst (λ (q : ℕ × Bytes). (data_end - q.0) + length q.1 ≤ (data_end - cursor) + 0)
        (ok-injective h1)
        (omega (arith, length-drop cursor (take chunk_end raw), length-take chunk_end raw, full))

  chunks-counted :
      (s : InflateState State) (output : Bytes)
      → IsCounted s
      → length (
          joined
            (if is_empty_bytes output then s.output_chunks else s.output_chunks ++ output ∷ []))
        ≡ s.observed + length output
  chunks-counted s [] c = omega (arith, c.counted)
  chunks-counted s (b ∷ bs) c =
      omega (arith, c.counted, length-joined_append s.output_chunks (b ∷ bs))

  after_decompress-keeps :
      (member : MemberMetadata) (s : InflateState State) (offered : ℕ × Bytes) (output : Bytes)
      (decompressor : State) {round : Round State}
      → IsCounted s
      → length (unconsumed_tail decompressor) ≤ length offered.1
      → after_decompress z crc32 raw maximum member s offered (output, decompressor) ≡ ok round
      → KeepsRound member.data_end
          ((member.data_end - offered.0) + length offered.1 + (maximum - s.observed))
          round
  unfolding after_decompress
  after_decompress-keeps member s offered output decompressor c tail_le h =
      let tail = unconsumed_tail decompressor in
      let (fits, h1) =
        guard-eq-ok (not (is_empty_bytes output) && leb maximum (s.observed + length output))
          resource_limit_error _ h in
      let below : s.observed + length output < maximum = room output fits in
      elim (Bool-cases (eof decompressor)) [
        | inl ended ↦
            let h2 = rw ended at h1 in
            let (clean, h3) =
              guard-eq-ok
                (not (is_empty_bytes (unused_data decompressor))
                  || (not (is_empty_bytes tail) || not (offered.0 == member.data_end)))
                value_error _ h2 in
            subst (KeepsRound member.data_end _) (ok-injective h3)
              (record { counted = chunks-counted s output c; below = below })
        | inr going ↦
            let h2 = rw going at h1 in
            let (progress, h3) =
              guard-eq-ok (leb (length offered.1) (length tail) && is_empty_bytes output)
                value_error _ h2 in
            subst (KeepsRound member.data_end _) (ok-injective h3) (
              record { counted = chunks-counted s output c; below = below },
              smaller output progress below,
            )
      ]
    where
      room :
          (output : Bytes)
          → (not (is_empty_bytes output) && leb maximum (s.observed + length output)) ≡ false
          → s.observed + length output < maximum
      room [] f = omega (arith, c.below)
      room (b ∷ bs) f = ground arith

      smaller :
          (output : Bytes)
          → (leb (length offered.1) (length (unconsumed_tail decompressor))
              && is_empty_bytes output)
            ≡ false
          → s.observed + length output < maximum
          → (member.data_end - offered.0)
              + length (unconsumed_tail decompressor)
              + (maximum - (s.observed + length output))
            < (member.data_end - offered.0) + length offered.1 + (maximum - s.observed)
      smaller [] p b = ground arith
      smaller (x ∷ xs) p b = omega arith

  KeepsRound-le :
      (data_end bound more : ℕ) (round : Round State)
      → bound ≤ more
      → KeepsRound data_end bound round
      → KeepsRound data_end more round
  KeepsRound-le data_end bound more (next_round s) le (c, lt) = (c, omega arith)
  KeepsRound-le data_end bound more (break_with s) le c = c

  inflate_round-keeps :
      (member : MemberMetadata) (s : InflateState State) {round : Round State}
      → IsCounted s
      → inflate_round z crc32 raw maximum member s ≡ ok round
      → KeepsRound member.data_end (left_to_do member.data_end s) round
  unfolding inflate_round
  inflate_round-keeps member s {round} c h =
      let (offered, filled, h1) =
        >>=-eq-ok (refill z crc32 raw maximum member.data_end s.cursor s.pending) _ h in
      let (room, h2) = guard-eq-ok (leb maximum s.observed) resource_limit_error _ h1 in
      let (answer, given, h3) =
        >>=-eq-ok (decompress s.decompressor offered.1 (maximum - s.observed)) _ h2 in
      let kept = refill-keeps member.data_end s.cursor s.pending filled in
      KeepsRound-le member.data_end
        ((member.data_end - offered.0) + length offered.1 + (maximum - s.observed))
        (left_to_do member.data_end s) round (omega arith)
        (after_decompress-keeps member s offered answer.0 answer.1 c
          (law.tail_bounded s.decompressor offered.1 (maximum - s.observed) answer.0 answer.1 given)
          h3)

  pub inflate_loop-ends :
      (fuel : ℕ) (member : MemberMetadata) (s : InflateState State)
      → IsCounted s
      → left_to_do member.data_end s < fuel
      → (r : Result (InflateState State)) × (inflate_loop z crc32 raw maximum fuel member s
          ≡ some r)
        × ((left : InflateState State) → r ≡ ok left → IsCounted left)
  unfolding inflate_loop
  inflate_loop-ends zero member s c lt = absurd (omega arith)
  inflate_loop-ends (suc fuel) member s c lt =
      elim (Bool-cases (not (is_empty_bytes s.pending) || ltb s.cursor member.data_end)) [
        | inr stop ↦ (ok s, rw stop, λ left e. subst IsCounted (ok-injective e) c)
        | inl go ↦ elim (Result-cases (inflate_round z crc32 raw maximum member s)) [
          | inr (e, failed) ↦ (err e, rw (go, failed), λ left p. cc)
          | inl (round, played) ↦
              let keeps = inflate_round-keeps member s c played in
              let (r, run, ends) = rest round keeps (inflate_loop-ends fuel member) in
              (r, rw (go, played) run, ends)
        ]
      ]
    where
      rest :
          (round : Round State)
          → KeepsRound member.data_end (left_to_do member.data_end s) round
          → ((next : InflateState State)
              → IsCounted next
              → left_to_do member.data_end next < fuel
              → (r : Result (InflateState State)) × (inflate_loop z crc32 raw maximum fuel member
                    next
                  ≡ some r)
                × ((left : InflateState State) → r ≡ ok left → IsCounted left))
          → (r : Result (InflateState State)) × (after_round z crc32 raw maximum
                (inflate_loop z crc32 raw maximum fuel member)
                (ok round)
              ≡ some r)
            × ((left : InflateState State) → r ≡ ok left → IsCounted left)
      rest (break_with left) c' again = (ok left, refl, λ l e. subst IsCounted (ok-injective e) c')
      rest (next_round next) (c', less) again = again next c' (omega arith)
