-- ===== src/Random/Unbiased.antt =====
-- The masking of an attempt is fair: each value is returned for equally many sequences of words.
use native.Mathlib.Nat.{
  mul_assoc, add_assoc, add-mul, div-lt_iff_lt-mul, div-add-mod', mod-lt, mul-add-mod_self_right,
  mod-eq_of_lt,
}
use selcal.Prelude.Int.{ℤ, pos}
use selcal.Errors.{ok, ok-injective}
use selcal.Prelude.{
  ℕ, ◌/◌, subst, leb, false, Bool-cases, inl, inr, zero, suc, ◌+◌, ◌-◌, ◌*◌, ◌%◌, ◌^◌, ◌≤◌, ◌<◌,
  ◌≡◌, refl, ap, sym, ◌∙◌, arith, if◌then◌else◌, ltb, ◌==◌,
}
use selcal.Random.Bits.{bit_length, mask_bounds, pow_pos, pow-add}
use selcal.Random.{words_per_attempt, uint64_limit, require_raw64_word, read_words, attempt}

-- How many of the first `n` numbers have the remainder `v` by `m`.
abbrev pub count_remainder : ℕ → ℕ → ℕ → ℕ
count_remainder m v zero = 0
count_remainder m v (suc n) = (if n % m == v then 1 else 0) + count_remainder m v n

-- Within one period from `p * m` the remainder `v` occurs once, at the `v`-th place.
count_period :
    (m v p k : ℕ)
    → 0 < m
    → k ≤ m
    → count_remainder m v (k + p * m) ≡ (if ltb v k then 1 else 0) + count_remainder m v (p * m)
count_period m v p zero positive h =
    let start : 0 + p * m ≡ p * m = omega arith in rw start (ground arith)
count_period m v p (suc k) positive h =
    let next : suc k + p * m ≡ suc (k + p * m) = omega arith in
    let turn : k + p * m ≡ p * m + k = omega arith in
    let place : (k + p * m) % m ≡ k =
      ap (λ n. n % m) turn ∙ mul-add-mod_self_right p m k ∙ mod-eq_of_lt h in
    rw (next, place) (ground (arith, count_period m v p k positive (omega arith)))

count_periods : (m v p : ℕ) → 0 < m → v < m → count_remainder m v (p * m) ≡ p
count_periods m v zero positive h = let none_yet : 0 * m ≡ 0 = omega arith in rw none_yet
count_periods m v (suc p) positive h =
    let next : suc p * m ≡ m + p * m = omega arith in
    rw next
      (ground (arith, count_period m v p m positive (omega arith), count_periods m v p positive h))

-- How many numbers below a bound have a property.
pub data Among (P : ℕ → Type 0) : ℕ → ℕ → Type 0 where
  nothing : Among P 0 0
  hit : {n count : ℕ} → P n → Among P n count → Among P (suc n) (suc count)
  miss : {n count : ℕ} → (P n → ⊥) → Among P n count → Among P (suc n) count

-- A generator that gives the `left` words that write a number, the most significant word first
abbrev pub words_of : ℕ × ℕ → ℤ × (ℕ × ℕ)
words_of (zero, n) = (pos 0, (0, n))
words_of (suc left, n) = (pos (n / 2 ^ (64 * left)), (left, n % 2 ^ (64 * left)))

next_power : (left : ℕ) → 2 ^ (64 * suc left) ≡ uint64_limit * 2 ^ (64 * left)
next_power left =
    let split : 64 * suc left ≡ 64 + 64 * left = omega arith in rw split (pow-add 64 (64 * left))

joined_word : (c n p : ℕ) → (c * uint64_limit + n / p) * p + n % p ≡ c * (uint64_limit * p) + n
joined_word c n p =
    let whole : n / p * p + n % p ≡ n = div-add-mod' n p in
    let parts : (c * uint64_limit + n / p) * p ≡ c * (uint64_limit * p) + n / p * p =
      add-mul (c * uint64_limit) (n / p) p ∙ ap (λ k. k + n / p * p) (mul_assoc c uint64_limit p) in
    ap (λ k. k + n % p) parts
    ∙ (add_assoc (c * (uint64_limit * p)) (n / p * p) (n % p)
        ∙ ap (λ k. c * (uint64_limit * p) + k) whole)

word_below : (n p : ℕ) → 0 < p → n < uint64_limit * p → n / p < uint64_limit
word_below n p positive h = (div-lt_iff_lt-mul positive).1 h

read_words-words_of :
    (left c n : ℕ)
    → n < 2 ^ (64 * left)
    → read_words words_of left c (left, n) ≡ ok (c * 2 ^ (64 * left) + n, (0, 0))
unfolding read_words require_raw64_word
read_words-words_of zero c n h =
    let gone : n ≡ 0 = omega arith in rw gone (ap (λ k. ok (k, (0, 0))) (omega arith))
read_words-words_of (suc left) c n h =
    let p = 2 ^ (64 * left) in
    let positive = pow_pos (64 * left) in
    let lt : n < uint64_limit * p = subst (λ k. n < k) (next_power left) h in
    let small : leb uint64_limit (n / p) ≡ false = ground (arith, word_below n p positive lt) in
    rw
      (
        small,
        read_words-words_of left (c * uint64_limit + n / p) (n % p) (mod-lt n positive),
        next_power left,
        joined_word c n p,
      )
      refl

attempt-words_of :
    (bits n : ℕ)
    → n < 2 ^ (64 * words_per_attempt bits)
    → attempt words_of bits (words_per_attempt bits, n) ≡ ok (n % 2 ^ bits, (0, 0))
unfolding attempt
attempt-words_of bits n h =
    let k = words_per_attempt bits in
    let same : 0 * 2 ^ (64 * k) + n ≡ n = omega arith in rw (read_words-words_of k 0 n h, same) refl

-- One attempt on the words that write a number returns `v`.
unfoldable pub Gives : ℕ → ℕ → ℕ → Type 0
Gives bits v n =
    (after : ℕ × ℕ) × (attempt words_of bits (words_per_attempt bits, n) ≡ ok (v, after))

Among-remainder :
    (bits v n : ℕ)
    → n ≤ 2 ^ (64 * words_per_attempt bits)
    → Among (Gives bits v) n (count_remainder (2 ^ bits) v n)
unfolding Gives
Among-remainder bits v zero h = nothing
Among-remainder bits v (suc n) h =
    let rest = Among-remainder bits v n (omega arith) in
    let c = count_remainder (2 ^ bits) v n in
    let one_more : suc c ≡ 1 + c = omega arith in
    let no_more : c ≡ 0 + c = omega arith in
    let made = attempt-words_of bits n (omega arith) in
    elim (Bool-cases (n % 2 ^ bits == v)) [
      | inl same ↦
          let value : n % 2 ^ bits ≡ v = ground arith in
          rw same (
            subst (Among (Gives bits v) (suc n)) one_more
              (hit ((0, 0), made ∙ ap (λ k. ok (k, (0, 0))) value) rest))
      | inr other ↦ rw other (
          subst (Among (Gives bits v) (suc n)) no_more
            (miss (λ (after, given). differ other (made_value made given)) rest))
    ]
  where
    made_value :
        {after : ℕ × ℕ}
        → attempt words_of bits (words_per_attempt bits, n) ≡ ok (n % 2 ^ bits, (0, 0))
        → attempt words_of bits (words_per_attempt bits, n) ≡ ok (v, after)
        → n % 2 ^ bits ≡ v
    made_value made given = ap (λ (q : ℕ × (ℕ × ℕ)). q.0) (ok-injective (sym made ∙ given))

    differ : (n % 2 ^ bits == v) ≡ false → n % 2 ^ bits ≡ v → ⊥
    differ other e = ground arith

-- For a bound above one, let an attempt of its bits run on every sequence of as many words as it
-- reads, each sequence as the number that it writes: every value that the bits can hold is
-- returned equally often. And more than half of these values lie below the bound.
pub attempt_unbiased :
    (bound : ℕ)
    → 1 < bound
    → let bits = bit_length (bound - 1) in
      ((v : ℕ)
        → v < 2 ^ bits
        → Among
            (Gives bits v)
            (2 ^ (64 * words_per_attempt bits))
            (2 ^ (64 * words_per_attempt bits - bits)))
      × (bound ≤ 2 ^ bits)
      × (2 ^ bits < 2 * bound)
attempt_unbiased bound h =
    (fair (bit_length (bound - 1)), (mask_bounds bound h).0, (mask_bounds bound h).1)
  where
    fair :
        (bits v : ℕ)
        → v < 2 ^ bits
        → Among
            (Gives bits v)
            (2 ^ (64 * words_per_attempt bits))
            (2 ^ (64 * words_per_attempt bits - bits))
    fair bits v lt =
        let w = words_per_attempt bits in
        let split : 64 * w ≡ (64 * w - bits) + bits = omega arith in
        let total : 2 ^ (64 * w) ≡ 2 ^ (64 * w - bits) * 2 ^ bits =
          ap (λ n. 2 ^ n) split ∙ pow-add (64 * w - bits) bits in
        let count : count_remainder (2 ^ bits) v (2 ^ (64 * w)) ≡ 2 ^ (64 * w - bits) =
          ap (count_remainder (2 ^ bits) v) total
          ∙ count_periods (2 ^ bits) v (2 ^ (64 * w - bits)) (pow_pos bits) lt in
        subst (Among (Gives bits v) (2 ^ (64 * w))) count
          (Among-remainder bits v (2 ^ (64 * w)) (omega arith))
