-- ===== src/Random/Draws.antt =====
-- Rejection sampling as a relation, and the loop against it.
use selcal.Prelude.{
  ℕ, zero, suc, ◌-◌, ◌≤◌, ◌<◌, true, Option, some, ◌≡◌, ◌↔◌, ap, sym, ◌∙◌, arith, if◌then◌else◌,
  Bool-cases, inl, inr, ltb,
}
use selcal.Prelude.Int.{ℤ, pos}
use selcal.Errors.{Error, Result, ok, err, Result-cases}
use selcal.Random.Bits.{bit_length}
use selcal.Random.Attempts.{IsAttempt, attempt-IsAttempt, IsAttempt-attempt}
use selcal.Random.{require_bound, attempt, reject_loop, uniform_randbelow}

module _ {S : Type 0} (random_raw : S → ℤ × S) (bound bit_count : ℕ) where
  -- From state `s` the attempts give `value`, and leave state `after`: each attempt at or above
  -- the bound is dropped, and the first one below it is taken. An attempt is given by the words
  -- that the generator returns and the low bits of the number that they write.
  pub data Draws (value : ℕ) (after : S) : S → Type 0 where
    accept :
        {s : S} → IsAttempt random_raw bit_count value after s → value < bound → Draws value after s
    reject :
        {s : S} (candidate : ℕ) (next : S)
        → IsAttempt random_raw bit_count candidate next s
        → bound ≤ candidate
        → Draws value after next
        → Draws value after s

  pub Draws-lt : {value : ℕ} {after : S} {s : S} → Draws value after s → value < bound
  Draws-lt (accept e h) = h
  Draws-lt (reject c n e h d) = Draws-lt d

  -- The attempts that a derivation makes.
  pub attempts : {value : ℕ} {after : S} {s : S} → Draws value after s → ℕ
  attempts (accept e h) = 1
  attempts (reject c n e h d) = suc (attempts d)

  loop_drawn :
      (fuel : ℕ) (s : S) {c : ℕ} {next : S}
      → attempt random_raw bit_count s ≡ ok (c, next)
      → reject_loop random_raw (suc fuel) bound bit_count s ≡ (
          if ltb c bound
          then some (ok (c, next))
          else reject_loop random_raw fuel bound bit_count next)
  unfolding reject_loop
  loop_drawn fuel s e = rw (e, reject_loop)

  loop_failed :
      (fuel : ℕ) (s : S) {x : Error}
      → attempt random_raw bit_count s ≡ err x
      → reject_loop random_raw (suc fuel) bound bit_count s ≡ some (err x)
  unfolding reject_loop
  loop_failed fuel s e = rw (e, reject_loop)

  no_fuel :
      (s : S) {r : Result (ℕ × S)} → reject_loop random_raw zero bound bit_count s ≡ some r → ⊥
  unfolding reject_loop
  no_fuel s e = cc

  pub reject_loop_sound :
      (fuel : ℕ) (s : S) (value : ℕ) (after : S)
      → reject_loop random_raw fuel bound bit_count s ≡ some (ok (value, after))
      → Draws value after s
  reject_loop_sound zero s value after e = absurd (no_fuel s e)
  reject_loop_sound (suc fuel) s value after e =
      elim (Result-cases (attempt random_raw bit_count s)) [
        | inr (x, failed) ↦ absurd (other x (sym (loop_failed fuel s failed) ∙ e))
        | inl ((c, next), drawn) ↦ elim (Bool-cases (ltb c bound)) [
          | inl low ↦ taken c next drawn low (rw low at (sym (loop_drawn fuel s drawn) ∙ e))
          | inr high ↦
              reject c next (attempt-IsAttempt random_raw bit_count s drawn) (ground arith) (
                reject_loop_sound fuel next value after
                  (rw high at (sym (loop_drawn fuel s drawn) ∙ e)))
        ]
      ]
    where
      other :
          (x : Error)
          → ◌≡◌ {A = Option (Result (ℕ × S))} (some (err x)) (some (ok (value, after)))
          → ⊥
      other x e = cc

      taken :
          (c : ℕ) (next : S)
          → attempt random_raw bit_count s ≡ ok (c, next)
          → ltb c bound ≡ true
          → ◌≡◌ {A = Option (Result (ℕ × S))} (some (ok (c, next))) (some (ok (value, after)))
          → Draws value after s
      taken c next drawn low e =
          let same : c ≡ value = ground arith in
          let state : next ≡ after = ground arith in
          accept (attempt-IsAttempt random_raw bit_count s (drawn ∙ ap ok (λ i. (same i, state i))))
            (ground arith)

  pub reject_loop_complete :
      (fuel : ℕ) {value : ℕ} {after : S} {s : S} (d : Draws value after s)
      → attempts d ≤ fuel
      → reject_loop random_raw fuel bound bit_count s ≡ some (ok (value, after))
  unfolding attempts
  reject_loop_complete zero (accept e h) le = absurd (omega arith)
  reject_loop_complete (suc fuel) {s = s} (accept a h) le =
      loop_drawn fuel s (IsAttempt-attempt random_raw a) ∙ ground arith
  reject_loop_complete zero (reject c n e h d) le = absurd (omega arith)
  reject_loop_complete (suc fuel) {s = s} (reject c n e h d) le =
      loop_drawn fuel s (IsAttempt-attempt random_raw e)
      ∙ ground (arith, reject_loop_complete fuel d (omega arith))

module _ {S : Type 0} (random_raw : S → ℤ × S) where
  unfold_call :
      (fuel bound : ℕ) (s : S)
      → 1 < bound
      → uniform_randbelow random_raw fuel (pos bound) s
        ≡ reject_loop random_raw fuel bound (bit_length (bound - 1)) s
  unfolding uniform_randbelow require_bound
  unfold_call fuel bound s h = ground arith

  -- For a bound above one, the call with some fuel returns a value and the state behind it exactly
  -- when the stream leads there: by attempts that are rejected and a last one that is accepted.
  -- Each attempt reads the fewest 64-bit words that hold the bits of `bound - 1`, and its value is
  -- the number that they write, most significant word first, less whole multiples of the power of
  -- two of those bits.
  pub uniform_randbelow_iff :
      (bound : ℕ) (s : S) (value : ℕ) (after : S)
      → 1 < bound
      → ((fuel : ℕ) × (uniform_randbelow random_raw fuel (pos bound) s ≡ some (ok (value, after))))
        ↔ Draws random_raw bound (bit_length (bound - 1)) value after s
  uniform_randbelow_iff bound s value after h = (
    λ (fuel, e).
        reject_loop_sound random_raw bound (bit_length (bound - 1)) fuel s value after
          (sym (unfold_call fuel bound s h) ∙ e),
    λ d. (
      attempts random_raw bound (bit_length (bound - 1)) d,
      unfold_call _ bound s h
          ∙ reject_loop_complete random_raw bound (bit_length (bound - 1)) _ d (omega arith),
    ),
  )
