-- ===== src/Oracle/Counts.antt =====
-- The state counts of the oracle against their closed forms.
use native.Mathlib.Nat.{
  one-le-mul, mul_assoc, mul_comm, div-lt_iff_lt-mul, le-div_iff_mul-le, le-mul_of_pos_right,
}
use selcal.Prelude.{
  ℕ, zero, suc, ◌+◌, ◌-◌, ◌*◌, ◌/◌, ◌%◌, ◌≤◌, ◌<◌, true, false, ◌≡◌, refl, sym, ap, ◌∙◌, arith,
  if◌then◌else◌, ltb, ltb→lt, lt→ltb, Bool-cases, inl, inr,
}
use selcal.Prelude.Factorial.{factorial}
use selcal.Prelude.Int.{pos}
use selcal.Errors.{ok, err, resource_limit_error}
use selcal.Oracle.{max_exact_states, multiply_factors, block_state_count}

-- factor * (factor + 1) * ..., of `rounds` factors
product : ℕ → ℕ → ℕ
product zero factor = 1
product (suc rounds) factor = factor * product rounds (suc factor)

product_pos : (rounds factor : ℕ) → 1 ≤ factor → 1 ≤ product rounds factor
unfolding product
product_pos zero factor h = omega arith
product_pos (suc rounds) factor h = one-le-mul h (product_pos rounds (suc factor) (omega arith))

-- The loop multiplies its factors, unless the product passes the cap.
multiply_factors_lem :
    (rounds total factor : ℕ)
    → 1 ≤ factor
    → total ≤ max_exact_states
    → multiply_factors rounds total factor ≡ (
        if ltb max_exact_states (total * product rounds factor)
        then err resource_limit_error
        else ok (total * product rounds factor))
unfolding multiply_factors product
multiply_factors_lem zero total factor h cap =
    let one : total * 1 ≡ total = omega arith in
    let under : ltb max_exact_states total ≡ false = ground arith in rw (one, under)
multiply_factors_lem (suc rounds) total factor h cap =
    let rest = product rounds (suc factor) in
    let grouped : total * (factor * rest) ≡ total * factor * rest =
      sym (mul_assoc total factor rest) in
    elim (Bool-cases (ltb (max_exact_states / factor) total)) [
      | inl over ↦
          let past : max_exact_states < total * factor =
            (div-lt_iff_lt-mul (omega arith)).0 (ltb→lt (max_exact_states / factor) total over) in
          let more : total * factor ≤ total * factor * rest =
            le-mul_of_pos_right (total * factor) (product_pos rounds (suc factor) (omega arith)) in
          let beyond : ltb max_exact_states (total * factor * rest) ≡ true =
            lt→ltb max_exact_states (total * factor * rest) (omega arith) in
          rw (over, grouped, beyond)
      | inr under ↦
          let fits : total * factor ≤ max_exact_states =
            (le-div_iff_mul-le (omega arith)).0
              (ltb-false (max_exact_states / factor) total under) in
          rw (under, grouped)
            (multiply_factors_lem rounds (total * factor) (suc factor) (omega arith) fits)
    ]
  where
    ltb-false : (a b : ℕ) → ltb a b ≡ false → b ≤ a
    ltb-false a b e = ground arith

product-factorial :
    (rounds factor : ℕ)
    → factorial factor * product rounds (suc factor) ≡ factorial (factor + rounds)
unfolding product factorial
product-factorial zero factor =
    let whole : factor + 0 ≡ factor = omega arith in rw whole (omega arith)
product-factorial (suc rounds) factor =
    let next = product-factorial rounds (suc factor) in
    let shifted : factor + suc rounds ≡ suc factor + rounds = omega arith in
    let regrouped : factorial factor * (suc factor * product rounds (suc (suc factor)))
        ≡ suc factor * factorial factor * product rounds (suc (suc factor)) =
      sym (mul_assoc (factorial factor) (suc factor) (product rounds (suc (suc factor))))
      ∙ ap (λ k. k * product rounds (suc (suc factor)))
          (mul_comm (factorial factor) (suc factor)) in
    rw shifted (regrouped ∙ next)

factorial_one : factorial 1 ≡ 1
unfolding factorial
factorial_one = refl

-- Counting: for a positive block length that divides the length of the series into q >= 2 blocks, the
-- oracle's loop gives the number of orders q! exactly when that is at most 100000, and otherwise
-- stops with a resource error.
pub block_state_count-factorial :
    (observed_length block_length : ℕ)
    → 1 ≤ block_length
    → observed_length % block_length ≡ 0
    → 2 ≤ observed_length / block_length
    → block_state_count observed_length (pos block_length) ≡ (
        if ltb max_exact_states (factorial (observed_length / block_length))
        then err resource_limit_error
        else ok (
          factorial (observed_length / block_length),
          block_length,
          observed_length / block_length,
        ))
unfolding block_state_count
block_state_count-factorial n l positive whole blocks =
    let q = n / l in
    let not_small : ltb l 1 ≡ false = ground arith in
    let enough : ltb q 2 ≡ false = not_lt q blocks in
    let loop = multiply_factors_lem (q - 1) 1 2 (omega arith) (omega arith) in
    let value : 1 * product (q - 1) 2 ≡ factorial q =
      ap (λ k. k * product (q - 1) 2) (sym factorial_one)
      ∙ product-factorial (q - 1) 1
      ∙ ap factorial (omega arith) in
    rw (not_small, whole, enough, loop, value)
      (elim (Bool-cases (ltb max_exact_states (factorial q))) [
        | inl over ↦ rw over
        | inr under ↦ rw under
      ])
  where
    not_lt : (q : ℕ) → 2 ≤ q → ltb q 2 ≡ false
    not_lt q h = ground arith
