-- ===== src/Random/Attempts.antt =====
-- One attempt of the sampler, described by the words that it reads.
use native.Mathlib.Nat.{mod-lt, div-add-mod', mul-add-mod_self_right, mod-eq_of_lt}
use selcal.Prelude.{
  ℕ, zero, suc, ◌+◌, ◌*◌, ◌/◌, ◌%◌, ◌^◌, ◌≤◌, ◌<◌, List, [], ◌∷◌, ◌≡◌, refl, sym, ap, ◌∙◌, subst,
  arith, length, leb,
}
use selcal.Prelude.Int.{ℤ, pos, negsuc}
use selcal.Errors.{ok, integrity_error, >>=-eq-ok, guard-eq-ok, ok-injective}
use selcal.Random.Bits.{pow_pos, pow-add}
use selcal.Random.{uint64_limit, require_raw64_word, words_per_attempt, read_words, attempt}

-- The number that a list of 64-bit words writes, the most significant word first
unfoldable pub number : List ℕ → ℕ
number [] = 0
number (w ∷ ws) = w * 2 ^ (64 * length ws) + number ws

require_raw64_word-pos : (z : ℤ) {w : ℕ} → require_raw64_word z ≡ ok w → (z ≡ pos w) × (w < 2 ^ 64)
unfolding require_raw64_word
require_raw64_word-pos (negsuc n) h = cc
require_raw64_word-pos (pos n) {w} h =
    let (small, e) = guard-eq-ok (leb uint64_limit n) integrity_error _ h in
    let same : n ≡ w = ok-injective e in (ap pos same, ground arith)

require_raw64_word-ok : (w : ℕ) → w < 2 ^ 64 → require_raw64_word (pos w) ≡ ok w
unfolding require_raw64_word
require_raw64_word-ok w h = ground arith

shift_word :
    (c w k p rest : ℕ)
    → 2 ^ (64 * suc k) ≡ uint64_limit * p
    → (c * uint64_limit + w) * p + rest ≡ c * 2 ^ (64 * suc k) + (w * p + rest)
shift_word c w k p rest e = rw e (grind arith)

next_word : (k : ℕ) → 2 ^ (64 * suc k) ≡ uint64_limit * 2 ^ (64 * k)
next_word k = let split : 64 * suc k ≡ 64 + 64 * k = omega arith in rw split (pow-add 64 (64 * k))

module _ {S : Type 0} (random_raw : S → ℤ × S) where
  -- From state `s` the generator gives these words, each of 64 bits, and is left in state `after`.
  pub data Reads (after : S) : List ℕ → S → Type 0 where
    done : Reads after [] after
    word :
        {s : S} (w : ℕ) {ws : List ℕ}
        → (random_raw s).0 ≡ pos w
        → w < 2 ^ 64
        → Reads after ws (random_raw s).1
        → Reads after (w ∷ ws) s

  -- An attempt reads the fewest words that hold `bit_count` bits, and its value is the number that
  -- they write in its low bits: what is left of it after whole multiples of 2 ^ bit_count.
  pub record IsAttempt (bit_count value : ℕ) (after s : S) : Type 0 where
    pub words : List ℕ
    pub reads : Reads after words s
    pub enough : bit_count ≤ 64 * length words
    pub fewest : 64 * length words < bit_count + 64
    pub masked : value < 2 ^ bit_count
    pub multiples : ℕ
    pub low_bits : number words ≡ multiples * 2 ^ bit_count + value

  read_words-Reads :
      (count candidate : ℕ) (s : S) {value : ℕ} {after : S}
      → read_words random_raw count candidate s ≡ ok (value, after)
      → (ws : List ℕ) × Reads after ws s
        × (length ws ≡ count)
        × (value ≡ candidate * 2 ^ (64 * length ws) + number ws)
  unfolding read_words number
  read_words-Reads zero candidate s {value} {after} h =
      let same : s ≡ after = ap (λ (q : ℕ × S). q.1) (ok-injective h) in
      let there : candidate ≡ value = ap (λ (q : ℕ × S). q.0) (ok-injective h) in
      ([], subst (λ t. Reads after [] t) (sym same) done, refl, sym there ∙ omega arith)
  read_words-Reads (suc count) candidate s h =
      let (w, read, h1) = >>=-eq-ok (require_raw64_word (random_raw s).0) _ h in
      let (raw, small) = require_raw64_word-pos (random_raw s).0 read in
      let (ws, rest, size, value) =
        read_words-Reads count (candidate * uint64_limit + w) (random_raw s).1 h1 in
      (
        w ∷ ws,
        word w raw small rest,
        omega (arith, size),
        value
            ∙ shift_word candidate w (length ws) (2 ^ (64 * length ws)) (number ws)
                (next_word (length ws)),
      )

  read_words-ok :
      {after : S} (candidate : ℕ) {s : S} {ws : List ℕ}
      → Reads after ws s
      → read_words random_raw (length ws) candidate s
        ≡ ok (candidate * 2 ^ (64 * length ws) + number ws, after)
  unfolding read_words number
  read_words-ok {after} candidate done = ap (λ n. ok (n, after)) (omega arith)
  read_words-ok {after} candidate (word w {ws} raw small rest) =
      rw (raw, require_raw64_word-ok w small)
        (read_words-ok (candidate * uint64_limit + w) rest
          ∙ ap (λ n. ok (n, after))
              (shift_word candidate w (length ws) (2 ^ (64 * length ws)) (number ws)
                (next_word (length ws))))

  pub attempt-IsAttempt :
      (bit_count : ℕ) (s : S) {value : ℕ} {after : S}
      → attempt random_raw bit_count s ≡ ok (value, after)
      → IsAttempt bit_count value after s
  unfolding attempt
  attempt-IsAttempt bit_count s {value} {after} h =
      let (drawn, read, h1) =
        >>=-eq-ok (read_words random_raw (words_per_attempt bit_count) 0 s) _ h in
      let (ws, reads, size, there) = read_words-Reads (words_per_attempt bit_count) 0 s read in
      let state : drawn.1 ≡ after = ap (λ (q : ℕ × S). q.1) (ok-injective h1) in
      let kept : drawn.0 % 2 ^ bit_count ≡ value = ap (λ (q : ℕ × S). q.0) (ok-injective h1) in
      let all : drawn.0 ≡ number ws = there ∙ omega arith in
      record {
        words = ws;
        reads = subst (λ t. Reads t ws s) state reads;
        enough = omega (arith, size);
        fewest = omega (arith, size);
        masked = subst (λ n. n < 2 ^ bit_count) kept (mod-lt drawn.0 (pow_pos bit_count));
        multiples = drawn.0 / 2 ^ bit_count;
        low_bits =
            sym all
            ∙ (sym (div-add-mod' drawn.0 (2 ^ bit_count))
                ∙ ap (λ n. drawn.0 / 2 ^ bit_count * 2 ^ bit_count + n) kept);
      }

  pub IsAttempt-attempt :
      {bit_count : ℕ} {s : S} {value : ℕ} {after : S}
      → IsAttempt bit_count value after s
      → attempt random_raw bit_count s ≡ ok (value, after)
  unfolding attempt
  IsAttempt-attempt {bit_count} {s} {value} {after} a =
      let size : length a.words ≡ words_per_attempt bit_count = omega (arith, a.enough, a.fewest) in
      let all : 0 * 2 ^ (64 * length a.words) + number a.words ≡ number a.words = omega arith in
      let read =
        subst
          (λ k.
            read_words random_raw k 0 s
            ≡ ok (0 * 2 ^ (64 * length a.words) + number a.words, after))
          size (read_words-ok 0 a.reads) in
      rw (read, all, a.low_bits)
        (ap (λ n. ok (n, after))
          (mul-add-mod_self_right a.multiples (2 ^ bit_count) value ∙ mod-eq_of_lt a.masked))
