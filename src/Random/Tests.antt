-- ===== src/Random/Tests.antt =====
-- The sampler on short streams of words.
use selcal.Prelude.{
  ℕ, some, none, ◌≡◌, refl, List, [], ◌∷◌, ◌<◌, ◌≤◌, ◌^◌, ◌*◌, ◌-◌, arith, ◌↔◌, replicate, length,
  ◌++◌,
}
use selcal.Prelude.Int.{ℤ, pos, negsuc}
use selcal.Errors.{ok, err, integrity_error}
use selcal.Random.Bits.{bit_length}
use selcal.Random.Seed.{
  all_hex, require_plan_digest, require_planned_replicates, require_replicate_id, seed_domain,
  null_transform_stream, seed_preimage,
}
use selcal.Random.Seed.Bytes.{from_hex, to_bytes, is_hex_digit}
use selcal.Random.Seed.Injective.{seed_preimage_injective}
use selcal.Random.{
  require_bound, require_raw64_word, read_words, attempt, reject_loop, uniform_randbelow,
  words_per_attempt,
}
use selcal.Random.Draws.{Draws, uniform_randbelow_iff}
use selcal.Random.Unbiased.{attempt_unbiased, Among, Gives}

-- Reads the list, then zeros.
abbrev script : List ℤ → ℤ × List ℤ
script [] = (pos 0, [])
script (w ∷ ws) = (w, ws)

program : Unit {0}
unfolding bit_length require_bound require_raw64_word read_words attempt reject_loop
    uniform_randbelow
program = tt

-- Below 6 three bits are kept: 15 and 22 are rejected as 7 and 6, and 12 is taken as 4.
draw_six :
    (bit_length 5 ≡ 3)
    × (uniform_randbelow script 3 (pos 6) (pos 15 ∷ pos 22 ∷ pos 12 ∷ pos 1 ∷ [])
        ≡ some (ok (4, pos 1 ∷ [])))
    × (uniform_randbelow script 2 (pos 6) (pos 15 ∷ pos 22 ∷ pos 12 ∷ []) ≡ none)
unfolding program
draw_six = (refl, refl, refl)

-- A bound of one reads no word, and a bad word or bound is refused.
draw_edges :
    (uniform_randbelow script 1 (pos 1) (pos 9 ∷ []) ≡ some (ok (0, pos 9 ∷ [])))
    × (uniform_randbelow script 1 (pos 6) (negsuc 0 ∷ []) ≡ some (err integrity_error))
    × (uniform_randbelow script 1 (pos 0) [] ≡ some (err integrity_error))
unfolding program
draw_edges = (refl, refl, refl)

uniform_randbelow_iff_example :
    ((fuel : ℕ) × (uniform_randbelow script fuel (pos 6) (pos 15 ∷ pos 12 ∷ [])
        ≡ some (ok (4, []))))
    ↔ Draws script 6 (bit_length 5) 4 [] (pos 15 ∷ pos 12 ∷ [])
uniform_randbelow_iff_example =
    uniform_randbelow_iff script 6 (pos 15 ∷ pos 12 ∷ []) 4 [] (omega arith)

attempt_unbiased_example :
    ((v : ℕ)
      → v < 2 ^ bit_length 5
      → Among
          (Gives (bit_length 5) v)
          (2 ^ (64 * words_per_attempt (bit_length 5)))
          (2 ^ (64 * words_per_attempt (bit_length 5) - bit_length 5)))
    × (6 ≤ 2 ^ bit_length 5)
    × (2 ^ bit_length 5 < 2 * 6)
attempt_unbiased_example = attempt_unbiased 6 (omega arith)

-- Sixty-four digits "a"
abbrev digest : List ℕ
digest = replicate 64 97

abbrev digest_bytes : List ℕ
digest_bytes =
    seed_domain
    ++ (from_hex digest
        ++ (to_bytes 8 3 ++ (to_bytes 2 (length null_transform_stream) ++ null_transform_stream)))

framed : seed_preimage digest (pos 3) (pos 10) ≡ ok digest_bytes
unfolding seed_preimage require_plan_digest require_planned_replicates require_replicate_id all_hex
    is_hex_digit
framed = refl

seed_preimage_injective_example : (digest ≡ digest) × (pos 3 ≡ pos 3)
seed_preimage_injective_example =
    seed_preimage_injective digest digest (pos 3) (pos 3) (pos 10) (pos 10) framed framed
