-- ===== src/Npz/Extract.antt =====
-- The extraction of a member, from src/selcal/npz_safe.py. `zlib` is not code of the repository:
-- its checksum and its decompressor are parameters, a decompressor with what Python's documents say
-- of the length of its output and of its unconsumed tail.
use selcal.Prelude.{
  ℕ, zero, suc, ◌+◌, ◌-◌, ◌%◌, ◌^◌, ◌≤◌, min, List, [], ◌∷◌, ◌++◌, Bool, true, false, not, ◌&&◌,
  ◌||◌, Option, none, some, ◌≡◌, length, ltb, leb, ◌==◌, if◌then◌else◌,
}
use selcal.Errors.{Result, ok, err, value_error, resource_limit_error, raise_if, ◌>>=◌, ◌>>◌}
use selcal.Arrays.{slice}
use selcal.Npz.{Bytes}
use selcal.Npz.Archive.{MemberMetadata}

-- `zlib.decompressobj(wbits=-15)`, `decompress(data, max_length)` and the attributes that are read
pub record Inflater : Type 1 where
  pub State : Type 0
  pub start : State
  pub decompress : State → Bytes → ℕ → Result (Bytes × State)
  pub unconsumed_tail : State → Bytes
  pub eof : State → Bool
  pub unused_data : State → Bytes

-- The return value is no longer than a `max_length` above 0 (0 stands for no limit), and the tail
-- is what was not consumed of the data.
pub record IsInflater (z : Inflater) : Type 0 where
  pub output_bounded :
      (s : z.State) (offered : Bytes) (max_length : ℕ) (output : Bytes) (next : z.State)
      → 1 ≤ max_length
      → z.decompress s offered max_length ≡ ok (output, next)
      → length output ≤ max_length
  pub tail_bounded :
      (s : z.State) (offered : Bytes) (max_length : ℕ) (output : Bytes) (next : z.State)
      → z.decompress s offered max_length ≡ ok (output, next)
      → length (z.unconsumed_tail next) ≤ length offered

-- `INPUT_LIMITS_V1.npz_member_uncompressed_bytes`
abbrev pub member_limit : ℕ
member_limit = 8_004_108

-- The locals of the loop: the largest size that is refused is `maximum`.
pub record InflateState (State : Type 0) : Type 0 where
  pub decompressor : State
  pub observed : ℕ
  pub output_chunks : List Bytes
  pub cursor : ℕ
  pub pending : Bytes

-- A round goes on with the loop or leaves it by `break`.
pub data Round (State : Type 0) : Type 0 where
  next_round : InflateState State → Round State
  break_with : InflateState State → Round State

abbrev pub is_empty_bytes : Bytes → Bool
is_empty_bytes [] = true
is_empty_bytes (b ∷ bs) = false

-- `b"".join(output_chunks)`
unfoldable pub joined : List Bytes → Bytes
joined [] = []
joined (c ∷ cs) = c ++ joined cs

module _ (z : Inflater) (crc32 : Bytes → ℕ) (raw : Bytes) (maximum : ℕ) where
  open z use {State, decompress, unconsumed_tail, eof, unused_data}

  -- `_verify_extracted_member`
  unfoldable pub verify_extracted_member : Bytes → MemberMetadata → Result Bytes
  verify_extracted_member payload member = do
    raise_if (not (length payload == member.uncompressed_size)) value_error
    raise_if (not (crc32 payload % 2 ^ 32 == member.crc32)) value_error
    ok payload

  -- `_extract_stored_member`
  unfoldable pub extract_stored_member : MemberMetadata → Result Bytes
  extract_stored_member member = do
    let actual_size = member.data_end - member.data_offset
    raise_if (leb maximum actual_size) resource_limit_error
    let payload = slice member.data_offset member.data_end raw
    raise_if (leb maximum (length payload)) resource_limit_error
    raise_if
        (not (length payload == actual_size)
          || (not (member.compressed_size == actual_size)
              || not (member.compressed_size == member.uncompressed_size)))
        value_error
    verify_extracted_member payload member

  -- `if not pending: ...` at the head of a round: the cursor and what is pending after it
  unfoldable pub refill : ℕ → ℕ → Bytes → Result (ℕ × Bytes)
  refill data_end cursor (b ∷ pending) = ok (cursor, b ∷ pending)
  refill data_end cursor [] = do
    let chunk_end = min (cursor + 65_536) data_end
    let pending = slice cursor chunk_end raw
    raise_if (is_empty_bytes pending) value_error
    ok (chunk_end, pending)

  -- What a round does once the decompressor has answered
  unfoldable pub after_decompress :
      MemberMetadata → InflateState State → ℕ × Bytes → Bytes × State → Result (Round State)
  after_decompress member s offered (output, decompressor) = do
    let tail = unconsumed_tail decompressor
    let observed = s.observed + length output
    raise_if (not (is_empty_bytes output) && leb maximum observed) resource_limit_error
    let chunks = if is_empty_bytes output then s.output_chunks else s.output_chunks ++ output ∷ []
    if eof decompressor
        then (do
          raise_if
              (not (is_empty_bytes (unused_data decompressor))
                || (not (is_empty_bytes tail) || not (offered.0 == member.data_end)))
              value_error
          ok (
              break_with (record {
                decompressor = decompressor;
                observed = observed;
                output_chunks = chunks;
                cursor = offered.0;
                pending = [];
              })))
        else (do
          raise_if (leb (length offered.1) (length tail) && is_empty_bytes output) value_error
          ok (
              next_round (record {
                decompressor = decompressor;
                observed = observed;
                output_chunks = chunks;
                cursor = offered.0;
                pending = tail;
              })))

  -- The body of the loop of `_extract_deflated_member`
  unfoldable pub inflate_round : MemberMetadata → InflateState State → Result (Round State)
  inflate_round member s = do
    offered ← refill member.data_end s.cursor s.pending
    raise_if (leb maximum s.observed) resource_limit_error
    answer ← decompress s.decompressor offered.1 (maximum - s.observed)
    after_decompress member s offered answer

  -- The end of a round: leave the loop, or go round again
  abbrev pub after_round :
      (InflateState State → Option (Result (InflateState State)))
      → Result (Round State)
      → Option (Result (InflateState State))
  after_round again (err raised) = some (err raised)
  after_round again (ok (break_with left)) = some (ok left)
  after_round again (ok (next_round next)) = again next

  -- The loop, with fuel for its rounds; `none` means that the fuel ran out.
  unfoldable pub inflate_loop :
      ℕ → MemberMetadata → InflateState State → Option (Result (InflateState State))
  inflate_loop zero member s = none
  inflate_loop (suc fuel) member s =
      let rest = after_round (inflate_loop fuel member) (inflate_round member s) in
      if not (is_empty_bytes s.pending) || ltb s.cursor member.data_end then rest else some (ok s)

  abbrev pub inflate_start : MemberMetadata → InflateState State
  inflate_start member = record {
    decompressor = z.start;
    observed = 0;
    output_chunks = [];
    cursor = member.data_offset;
    pending = [];
  }

  -- What `_extract_deflated_member` does behind its loop
  unfoldable pub finish_deflated : MemberMetadata → Result (InflateState State) → Result Bytes
  finish_deflated member looped = do
    s ← looped
    raise_if
        (not (s.cursor == member.data_end)
          || (not (is_empty_bytes s.pending)
              || (not (eof s.decompressor)
                  || (not (is_empty_bytes (unused_data s.decompressor))
                      || not (is_empty_bytes (unconsumed_tail s.decompressor))))))
        value_error
    verify_extracted_member (joined s.output_chunks) member

  abbrev finish_loop : MemberMetadata → Option (Result (InflateState State)) → Option (Result Bytes)
  finish_loop member none = none
  finish_loop member (some looped) = some (finish_deflated member looped)

  -- `_extract_deflated_member`
  unfoldable pub extract_deflated_member : ℕ → MemberMetadata → Option (Result Bytes)
  extract_deflated_member fuel member =
      finish_loop member (inflate_loop fuel member (inflate_start member))

  -- `_extract_member_payload`, by the method of the member
  unfoldable pub extract_member_payload : ℕ → MemberMetadata → Option (Result Bytes)
  extract_member_payload fuel member =
      if member.method == 0
      then some (extract_stored_member member)
      else (if member.method == 8
          then extract_deflated_member fuel member
          else some (err value_error))
