-- ===== src/Random/Seed.antt =====
-- The seed of a replicate's stream: `derive_seed_digest` and its checks in src/selcal/randomness.py.
-- Texts and byte strings are lists of codes. SHA-256 (hashlib) is not code of the repository; the
-- model stops at the framed preimage that is handed to it.
pub mod Bytes
pub mod Injective
use selcal.Prelude.{
  ℕ, List, [], ◌∷◌, ◌++◌, Bool, true, false, not, ◌&&◌, ◌||◌, ◌≡◌, if◌then◌else◌, length, leb, ltb,
  ◌==◌, ◌^◌,
}
use selcal.Prelude.Int.{ℤ, pos, negsuc, ltb_ℤ, leb_ℤ}
use selcal.Errors.{Result, ok, err, integrity_error, raise_if, ◌>>=◌, ◌>>◌}
use selcal.Random.Seed.Bytes.{is_hex_digit, from_hex, to_bytes}

-- `character in "0123456789abcdef"` for each character
unfoldable pub all_hex : List ℕ → Bool
all_hex [] = true
all_hex (c ∷ cs) = is_hex_digit c && all_hex cs

-- `_require_plan_digest`
unfoldable pub require_plan_digest : List ℕ → Result (List ℕ)
require_plan_digest value = do
  raise_if (not (length value == 64) || not (all_hex value)) integrity_error
  ok value

-- `_require_planned_replicates`
unfoldable pub require_planned_replicates : ℤ → Result ℤ
require_planned_replicates value = do
  raise_if (ltb_ℤ value (pos 1) || ltb_ℤ (pos 1_000_000) value) integrity_error
  ok value

-- `_require_replicate_id`
unfoldable pub require_replicate_id : ℤ → ℤ → Result ℕ
require_replicate_id planned_replicates (negsuc n) = err integrity_error
require_replicate_id planned_replicates (pos n) = do
  raise_if (leb_ℤ planned_replicates (pos n) || leb (2 ^ 64) n) integrity_error
  ok n

-- `_SEED_DOMAIN`: the text "SELCAL-SEED" and the bytes 0 and 1.
abbrev pub seed_domain : List ℕ
seed_domain = 83 ∷ 69 ∷ 76 ∷ 67 ∷ 65 ∷ 76 ∷ 45 ∷ 83 ∷ 69 ∷ 69 ∷ 68 ∷ 0 ∷ 1 ∷ []

-- `NULL_TRANSFORM_STREAM`: the text "null_transform_v1".
abbrev pub null_transform_stream : List ℕ
null_transform_stream =
    110 ∷ 117 ∷ 108 ∷ 108 ∷ 95 ∷ 116 ∷ 114 ∷ 97 ∷ 110 ∷ 115 ∷ 102 ∷ 111 ∷ 114 ∷ 109 ∷ 95 ∷ 118 ∷ 49
    ∷ []

-- The checks of `derive_seed_digest` and the bytes that it hashes.
unfoldable pub seed_preimage : List ℕ → ℤ → ℤ → Result (List ℕ)
seed_preimage scientific_plan_sha256 replicate_id planned_replicates = do
  plan_digest ← require_plan_digest scientific_plan_sha256
  replicate_count ← require_planned_replicates planned_replicates
  exact_id ← require_replicate_id replicate_count replicate_id
  ok (
      seed_domain
      ++ (from_hex plan_digest
          ++ (to_bytes 8 exact_id
              ++ (to_bytes 2 (length null_transform_stream) ++ null_transform_stream))))
