-- ===== src/Random/Bits.antt =====
-- `int.bit_length` of the language, and the bounds that fix it.
use selcal.Prelude.{
  ℕ, zero, suc, ◌+◌, ◌-◌, ◌*◌, ◌/◌, ◌^◌, ◌≤◌, ◌<◌, ◌≡◌, refl, arith, if◌then◌else◌, ◌==◌,
  Bool-cases, inl, inr, false,
}
use native.Mathlib.Nat.{pow-suc, mul_assoc}

-- The number of binary digits, where `fuel` is at least the number.
bit_length_from : ℕ → ℕ → ℕ
bit_length_from zero n = 0
bit_length_from (suc fuel) n =
    let rest = bit_length_from fuel (n / 2) in if n == 0 then 0 else suc rest

unfoldable pub bit_length : ℕ → ℕ
unfolding bit_length_from
bit_length n = bit_length_from n n

pub pow_pos : (k : ℕ) → 0 < 2 ^ k
pow_pos zero = omega arith
pow_pos (suc k) = omega (arith, pow_pos k, pow-suc 2 k)

bit_length_from_zero : (fuel : ℕ) → bit_length_from fuel 0 ≡ 0
unfolding bit_length_from
bit_length_from_zero zero = refl
bit_length_from_zero (suc fuel) = refl

-- One digit more than half the number has.
double_bounds :
    (n k : ℕ) → 0 < k → 2 ^ (k - 1) ≤ n / 2 → n / 2 < 2 ^ k → (2 ^ k ≤ n) × (n < 2 ^ suc k)
double_bounds n zero p lo hi = absurd (omega arith)
double_bounds n (suc k) p lo hi =
    let lo' : 2 ^ k ≤ n / 2 = ground (arith, lo) in
    (omega (arith, pow-suc 2 k), omega (arith, pow-suc 2 (suc k)))

bit_length_from_bounds :
    (fuel n : ℕ)
    → n ≤ fuel
    → 0 < n
    → let k = bit_length_from fuel n in (0 < k) × (2 ^ (k - 1) ≤ n) × (n < 2 ^ k)
unfolding bit_length_from
bit_length_from_bounds zero n h p = absurd (omega arith)
bit_length_from_bounds (suc fuel) n h p =
    let nonzero : (n == 0) ≡ false = ground arith in
    elim (Bool-cases (n / 2 == 0)) [
      | inl one ↦
          let half : n / 2 ≡ 0 = ground arith in
          rw (nonzero, half, bit_length_from_zero fuel) (omega arith, omega arith, omega arith)
      | inr more ↦
          let (k, lo, hi) = bit_length_from_bounds fuel (n / 2) (omega arith) (ground arith) in
          let (lo', hi') = double_bounds n (bit_length_from fuel (n / 2)) k lo hi in
          rw nonzero (omega arith, ground (arith, lo'), hi')
    ]

-- A positive number has `k` digits when it lies from `2 ^ (k - 1)` up to, not including, `2 ^ k`.
pub bit_length_bounds :
    (n : ℕ) → 0 < n → (0 < bit_length n) × (2 ^ (bit_length n - 1) ≤ n) × (n < 2 ^ bit_length n)
unfolding bit_length
bit_length_bounds n p = bit_length_from_bounds n n (omega arith) p

-- Between the bound and twice the bound: more than half of all masked candidates are accepted.
pub mask_bounds :
    (bound : ℕ)
    → 1 < bound
    → (bound ≤ 2 ^ bit_length (bound - 1)) × (2 ^ bit_length (bound - 1) < 2 * bound)
mask_bounds bound h = mask (bit_length (bound - 1)) (bit_length_bounds (bound - 1) (omega arith))
  where
    mask :
        (k : ℕ)
        → (0 < k) × (2 ^ (k - 1) ≤ bound - 1) × (bound - 1 < 2 ^ k)
        → (bound ≤ 2 ^ k) × (2 ^ k < 2 * bound)
    mask zero b = absurd (omega arith)
    mask (suc k) b =
        let lo : 2 ^ k ≤ bound - 1 = ground (arith, b.1) in
        (omega (arith, b.2), omega (arith, pow-suc 2 k))

pub pow-add : (a b : ℕ) → 2 ^ (a + b) ≡ 2 ^ a * 2 ^ b
pow-add a zero = let same : a + 0 ≡ a = omega arith in rw same (omega arith)
pow-add a (suc b) =
    let next : a + suc b ≡ suc (a + b) = omega arith in
    rw (next, pow-suc 2 (a + b), pow-suc 2 b, pow-add a b) (mul_assoc (2 ^ a) (2 ^ b) 2)
