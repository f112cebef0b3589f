-- ===== src/Nulls/Block/Binding.antt =====
-- The tests of `BlockShuffleNullV2.bind`: which lengths are enabled.
use native.Mathlib.Nat.{div-add-mod', mul-div_left, mul-mod_left}
use selcal.Prelude.{
  ℕ, ◌+◌, ◌*◌, ◌/◌, ◌%◌, ◌≤◌, ◌≡◌, ◌↔◌, refl, sym, ap, subst, ◌∙◌, arith, Bool, true, false, not,
  ltb, ◌==◌, if◌then◌else◌,
}
use selcal.Nulls.Block.{
  enabled, non_divisible_tail, fewer_than_two_blocks, too_many_blocks, bind_block_count,
}

le→ltb_false : (a b : ℕ) → a ≤ b → ltb b a ≡ false
le→ltb_false a b h = ground arith

ltb_false→le : (a b : ℕ) → ltb b a ≡ false → a ≤ b
ltb_false→le a b h = ground arith

equal_zero : (a : ℕ) → (a == 0) ≡ true → a ≡ 0
equal_zero a h = ground arith

-- Only the last of the four outcomes is enabled.
enabled_tests :
    (divides few many : Bool) (c q : ℕ)
    → (if not divides
        then non_divisible_tail
        else (if few then fewer_than_two_blocks else (if many then too_many_blocks else enabled c)))
      ≡ enabled q
    → (divides ≡ true) × (few ≡ false) × (many ≡ false) × (c ≡ q)
enabled_tests false few many c q h = absurd (cc)
enabled_tests true true many c q h = absurd (cc)
enabled_tests true false true c q h = absurd (cc)
enabled_tests true false false c q h = (refl, refl, refl, cc)

bind_block_count-whole :
    (n l q : ℕ) → bind_block_count n l ≡ enabled q → (n ≡ q * l) × (2 ≤ q) × (q ≤ 4_096)
unfolding bind_block_count
bind_block_count-whole n l q h =
    let t = enabled_tests (n % l == 0) (ltb (n / l) 2) (ltb 4_096 (n / l)) (n / l) q h in
    let r = equal_zero (n % l) t.0 in
    let low = ltb_false→le 2 (n / l) t.1 in
    let high = ltb_false→le (n / l) 4_096 t.2 in
    let c = t.3 in
    let whole = div-add-mod' n l in
    (
      sym whole ∙ ap (λ (k : ℕ). n / l * l + k) r ∙ (omega arith) ∙ ap (λ (k : ℕ). k * l) c,
      subst (λ (k : ℕ). 2 ≤ k) c low,
      subst (λ (k : ℕ). k ≤ 4_096) c high,
    )

bind_block_count-enabled :
    (block_length q : ℕ)
    → 1 ≤ block_length
    → 2 ≤ q
    → q ≤ 4_096
    → bind_block_count (q * block_length) block_length ≡ enabled q
unfolding bind_block_count
bind_block_count-enabled l q positive low high =
    rw (mul-mod_left q l, mul-div_left q positive, le→ltb_false 2 q low, le→ltb_false q 4_096 high)

-- Block binding: with a positive block length, the tests of `bind` let a series pass with q blocks
-- exactly where it is q whole blocks long and q is from 2 to 4096.
pub bind_block_count_iff :
    (observed_length block_length q : ℕ)
    → 1 ≤ block_length
    → (bind_block_count observed_length block_length ≡ enabled q)
      ↔ ((observed_length ≡ q * block_length) × (2 ≤ q) × (q ≤ 4_096))
bind_block_count_iff n l q positive = (
  bind_block_count-whole n l q,
  λ h. ap (λ (k : ℕ). bind_block_count k l) h.0 ∙ bind_block_count-enabled l q positive h.1 h.2,
)
