-- ===== src/Random.antt =====
-- src/selcal/randomness.py: uniform integers below a bound from a stream of raw 64-bit words, by
-- rejection. The bit generator (NumPy's PCG64) and SHA-256 are not code of the repository: the
-- generator is a parameter, a state with the function that reads the next word.
pub mod Bits
pub mod Attempts
pub mod Draws
pub mod Unbiased
pub mod Seed
mod Tests
use selcal.Prelude.{
  ℕ, zero, suc, ◌+◌, ◌-◌, ◌*◌, ◌/◌, ◌%◌, ◌^◌, Bool, true, false, not, ◌||◌, Option, none, some, ◌≡◌,
  if◌then◌else◌, leb, ltb, ◌==◌,
}
use selcal.Prelude.Int.{ℤ, pos, negsuc, ltb_ℤ}
use selcal.Errors.{Result, ok, err, integrity_error, raise_if, ◌>>=◌, ◌>>◌}
use selcal.Random.Bits.{bit_length}

-- `_UINT64_LIMIT`
abbrev pub uint64_limit : ℕ
uint64_limit = 2 ^ 64

-- `_require_raw64_word`
unfoldable pub require_raw64_word : ℤ → Result ℕ
require_raw64_word (negsuc n) = err integrity_error
require_raw64_word (pos n) = do raise_if (leb uint64_limit n) integrity_error; ok n

-- `_require_bound`
unfoldable pub require_bound : ℤ → Result ℕ
require_bound (negsuc n) = err integrity_error
require_bound (pos n) = do raise_if (n == 0) integrity_error; ok n

-- `(bit_count + 63) // 64`
abbrev pub words_per_attempt : ℕ → ℕ
words_per_attempt bit_count = (bit_count + 63) / 64

module _ {S : Type 0} (random_raw : S → ℤ × S) where
  -- `for _ in range(words_per_attempt)`: as a word fits 64 bits, `(candidate << 64) | word` is a sum.
  unfoldable pub read_words : ℕ → ℕ → S → Result (ℕ × S)
  read_words zero candidate s = ok (candidate, s)
  read_words (suc count) candidate s = do
    word ← require_raw64_word (random_raw s).0
    read_words count (candidate * uint64_limit + word) (random_raw s).1

  -- One attempt of the `while` loop; `candidate & ((1 << bit_count) - 1)` keeps the low bits.
  unfoldable pub attempt : ℕ → S → Result (ℕ × S)
  attempt bit_count s = do
    drawn ← read_words (words_per_attempt bit_count) 0 s
    ok (drawn.0 % 2 ^ bit_count, drawn.1)

  -- The `while True` loop of `_uniform_randbelow_from_next`, for at most `fuel` attempts. `none`
  -- means that every attempt so far was rejected.
  unfoldable pub reject_loop : ℕ → ℕ → ℕ → S → Option (Result (ℕ × S))
  reject_loop zero bound bit_count s = none
  reject_loop (suc fuel) bound bit_count s = elim (attempt bit_count s) [
    | err e ↦ some (err e)
    | ok drawn ↦
        let rest = reject_loop fuel bound bit_count drawn.1 in
        if ltb drawn.0 bound then some (ok drawn) else rest
  ]

  -- `_uniform_randbelow_from_next`
  unfoldable pub uniform_randbelow : ℕ → ℤ → S → Option (Result (ℕ × S))
  uniform_randbelow fuel bound s = elim (require_bound bound) [
    | err e ↦ some (err e)
    | ok exact_bound ↦
        let drawn = reject_loop fuel exact_bound (bit_length (exact_bound - 1)) s in
        if exact_bound == 1 then some (ok (0, s)) else drawn
  ]
