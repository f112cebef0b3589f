-- ===== src/Oracle/Enumeration.antt =====
-- The circular enumeration: every shift is counted once, and the oracle's own result is accepted.
use selcal.Prelude.{ℕ, ◌+◌, ◌≤◌, ◌<◌, true, false, ◌≡◌, sym, subst, ◌∙◌, arith, length, ltb, lt→ltb}
use selcal.Prelude.Tally.{Tally}
use selcal.Errors.{Result, ok, ok-injective}
use selcal.Arrays.Laws.{rotated}
use selcal.Floats.{Float64, IsIeee}
use selcal.Contracts.{SeriesPair}
use selcal.Contracts.Normal.{IsPair}
use selcal.Oracle.{max_exact_states, exact_oracle_result}

not_under : (m n : ℕ) → n ≤ m → ltb m n ≡ false
not_under m n h = ground arith

module _ (fl : Float64)
    (decision_statistic : SeriesPair (Float64.Float fl) → Result (Float64.Float fl)) where
  open fl use {Float, is_finite, feq, fle, ratio}

  -- A statistic that evaluates on every pair of the observed length that a constructor accepts
  unfoldable pub Evaluates : ℕ → Type 0
  Evaluates n =
      (p : SeriesPair Float)
      → IsPair fl p
      → length p.source ≡ n
      → (x : Float) × (decision_statistic p ≡ ok x)

  -- The quotient of two ints is finite, where it is at most one and the divisor a state count.
  unfoldable pub HasFiniteRatios : Type 0
  HasFiniteRatios = (a b : ℕ) → 1 ≤ b → a ≤ b → b ≤ max_exact_states → is_finite (ratio a b) ≡ true

  -- The statistic of a pair is at or above `observed`.
  unfoldable pub Reaches : Float → SeriesPair Float → Type 0
  Reaches observed p = (x : Float) × (decision_statistic p ≡ ok x) × (fle observed x ≡ true)

  pub missed-Reaches :
      (observed : Float) (p : SeriesPair Float) {x : Float}
      → decision_statistic p ≡ ok x
      → fle observed x ≡ false
      → Reaches observed p
      → ⊥
  unfolding Reaches
  missed-Reaches observed p {x} e missed (y, f, reached) =
      let same : x ≡ y = ok-injective (sym e ∙ f) in
      let other : fle observed x ≡ true = subst (λ z. fle observed z ≡ true) (sym same) reached in
      cc

  -- The pair with its source turned right by a shift, and its target unchanged
  abbrev pub turned : SeriesPair Float → ℕ → SeriesPair Float
  turned pair shift = record { source = rotated shift pair.source; target = pair.target }

  module _ (laws : IsIeee fl) (pair : SeriesPair Float) (accepted : IsPair fl pair) where
    pub exact_oracle_result_lem :
        (e states : ℕ)
        → 1 ≤ states
        → states ≤ max_exact_states
        → e < states
        → is_finite (ratio (1 + e) states) ≡ true
        → exact_oracle_result fl (record {
          p_exact = ratio (1 + e) states;
          total_state_count = states;
          nonidentity_exceedance_count = e;
        })
          ≡ ok (record {
            p_exact = ratio (1 + e) states;
            total_state_count = states;
            nonidentity_exceedance_count = e;
          })
    unfolding exact_oracle_result
    exact_oracle_result_lem e states some_state cap inside f =
        let le_self = laws.le_refl (ratio (1 + e) states) f in
        rw (
          not_under states 1 some_state,
          not_under max_exact_states states cap,
          lt→ltb e states inside,
          f,
          laws.le_antisym (ratio (1 + e) states) (ratio (1 + e) states) le_self le_self,
        )
