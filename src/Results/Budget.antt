-- ===== src/Results/Budget.antt =====
-- The in-memory execution budget of src/selcal/calibration_v2.py: B replicates of C candidates on
-- N points, with S units of token state.
use native.Mathlib.Nat.{pow-le-pow_right, suc-mul}
use selcal.Prelude.{
  ℕ, zero, suc, ◌-◌, refl, Bool-cases, inl, inr, ◌+◌, ◌*◌, ◌≤◌, Bool, true, false, ◌||◌, ◌≡◌, arith,
  ltb, ◌↔◌, ◌^◌,
}
use selcal.Errors.{Result, ok, integrity_error, resource_limit_error, raise_if, guard-eq-ok, ◌>>◌}
use selcal.Random.Bits.{bit_length, bit_length_bounds}

-- `_require_in_memory_execution_budget_values`; the four values are ints that are not negative.
unfoldable pub require_execution_budget : ℕ → ℕ → ℕ → ℕ → Result (Unit {0})
require_execution_budget b c n s = do
  raise_if (ltb b 1 || (ltb c 1 || (ltb n 1 || ltb s 1))) integrity_error
  raise_if
      (ltb 256 (bit_length b)
        || (ltb 256 (bit_length c) || (ltb 256 (bit_length n) || ltb 256 (bit_length s))))
      resource_limit_error
  raise_if
      (ltb 1_000 b
        || (ltb 5_000 (b * c) || (ltb 25_000 (b * s) || ltb 2_500_000 (b * (c * n + s + n)))))
      resource_limit_error
  ok tt

-- A number of more than 256 bits is far beyond the caps.
bit_length_small : (n : ℕ) → n ≤ 2_500_000 → ltb 256 (bit_length n) ≡ false
unfolding bit_length
bit_length_small zero h = refl
bit_length_small (suc m) h = elim (Bool-cases (ltb 256 (bit_length (suc m)))) [
  | inl long ↦
      let (positive, low, high) = bit_length_bounds (suc m) (omega arith) in
      let more : 256 ≤ bit_length (suc m) - 1 = long_le (bit_length (suc m)) long in
      let power : 2 ^ 256 ≤ 2 ^ (bit_length (suc m) - 1) = pow-le-pow_right (omega arith) more in
      absurd (omega arith)
  | inr short ↦ short
]
  where
    long_le : (k : ℕ) → ltb 256 k ≡ true → 256 ≤ k - 1
    long_le k e = ground arith

le-mul : (b c : ℕ) → 1 ≤ b → c ≤ b * c
le-mul zero c h = elim h [ ]
le-mul (suc b) c h = omega (arith, suc-mul b c)

not_over : (m n : ℕ) → n ≤ m → ltb m n ≡ false
not_over m n h = ground arith

over_not : (m n : ℕ) → ltb m n ≡ false → n ≤ m
over_not m n h = ground arith

not_under : (n : ℕ) → 1 ≤ n → ltb n 1 ≡ false
not_under n h = ground arith

under_not : (n : ℕ) → ltb n 1 ≡ false → 1 ≤ n
under_not n h = ground arith

none_of :
    (p q r s : Bool)
    → (p || (q || (r || s))) ≡ false
    → (p ≡ false) × (q ≡ false) × (r ≡ false) × (s ≡ false)
none_of p q r s h = ground arith

-- The budget: exactly the runs of at least one replicate, candidate, point and state unit pass that
-- keep the four caps, B <= 1000, B C <= 5000, B S <= 25000 and B (C N + S + N) <= 2500000. The
-- separate guard on the size of the operands refuses no run within the caps.
pub require_execution_budget_iff :
    (b c n s : ℕ)
    → (require_execution_budget b c n s ≡ ok tt) ↔ (
        (1 ≤ b)
        × (1 ≤ c)
        × (1 ≤ n)
        × (1 ≤ s)
        × (b ≤ 1_000)
        × (b * c ≤ 5_000)
        × (b * s ≤ 25_000)
        × (b * (c * n + s + n) ≤ 2_500_000))
unfolding require_execution_budget
require_execution_budget_iff b c n s = (passed, within)
  where
    passed :
        require_execution_budget b c n s ≡ ok tt
        → (1 ≤ b)
          × (1 ≤ c)
          × (1 ≤ n)
          × (1 ≤ s)
          × (b ≤ 1_000)
          × (b * c ≤ 5_000)
          × (b * s ≤ 25_000)
          × (b * (c * n + s + n) ≤ 2_500_000)
    passed h =
        let (positive, h1) =
          guard-eq-ok (ltb b 1 || (ltb c 1 || (ltb n 1 || ltb s 1))) integrity_error _ h in
        let (narrow, h2) =
          guard-eq-ok
            (ltb 256 (bit_length b)
              || (ltb 256 (bit_length c) || (ltb 256 (bit_length n) || ltb 256 (bit_length s))))
            resource_limit_error _ h1 in
        let (caps, h3) =
          guard-eq-ok
            (ltb 1_000 b
              || (ltb 5_000 (b * c) || (ltb 25_000 (b * s) || ltb 2_500_000 (b * (c * n + s + n)))))
            resource_limit_error _ h2 in
        let (pb, pc, pn, ps) = none_of (ltb b 1) (ltb c 1) (ltb n 1) (ltb s 1) positive in
        let (cb, bc, bs, work) =
          none_of (ltb 1_000 b) (ltb 5_000 (b * c)) (ltb 25_000 (b * s))
            (ltb 2_500_000 (b * (c * n + s + n))) caps in
        (
          under_not b pb,
          under_not c pc,
          under_not n pn,
          under_not s ps,
          over_not 1_000 b cb,
          over_not 5_000 (b * c) bc,
          over_not 25_000 (b * s) bs,
          over_not 2_500_000 (b * (c * n + s + n)) work,
        )

    within :
        (1 ≤ b)
          × (1 ≤ c)
          × (1 ≤ n)
          × (1 ≤ s)
          × (b ≤ 1_000)
          × (b * c ≤ 5_000)
          × (b * s ≤ 25_000)
          × (b * (c * n + s + n) ≤ 2_500_000)
        → require_execution_budget b c n s ≡ ok tt
    within (pb, pc, pn, ps, cb, cc', cs, cw) =
        let wide_b = bit_length_small b (omega arith) in
        let wide_c = bit_length_small c (omega (arith, le-mul b c pb)) in
        let wide_n = bit_length_small n (omega (arith, le-mul b (c * n + s + n) pb)) in
        let wide_s = bit_length_small s (omega (arith, le-mul b s pb)) in
        rw (
          not_under b pb,
          not_under c pc,
          not_under n pn,
          not_under s ps,
          wide_b,
          wide_c,
          wide_n,
          wide_s,
          not_over 1_000 b cb,
          not_over 5_000 (b * c) cc',
          not_over 25_000 (b * s) cs,
          not_over 2_500_000 (b * (c * n + s + n)) cw,
        )
