-- ===== src/Support/Aligned.antt =====
-- The triplet of one lag: three vectors of equal length over the common axis.
use selcal.Prelude.{
  ℕ, ◌+◌, ◌-◌, ◌≤◌, ◌<◌, List, [], ◌∷◌, true, false, ◌≡◌, refl, ◌∙◌, ap, arith, length, get_elem?,
}
use selcal.Prelude.Int.{ℤ, pos, leb_ℤ}
use selcal.Errors.{ok}
use selcal.Floats.{Float64}
use selcal.Candidates.{contains, IsCanonical, Ascending}
use selcal.Contracts.{SeriesPair, all_finite}
use selcal.Arrays.{slice}
use selcal.Arrays.Laws.{length-slice, get_elem?-slice}
use selcal.Support.{
  magnitude, max_candidate, LaggedTriplet, CommonSupport, frozen_float64_vector, lagged_triplet,
  lookup_candidate, forward_for, reverse_for,
}
use selcal.Support.Laws.{
  magnitude-le_max, max_candidate_pos, IsPair, support_of, all_finite-slice, is_empty-length,
}

not-contains_nonpos :
    (c low : ℤ) (cs : List ℤ)
    → leb_ℤ (pos 0) low ≡ true
    → leb_ℤ c (pos 0) ≡ true
    → Ascending low cs
    → contains c cs ≡ false
unfolding contains
not-contains_nonpos c low [] p n h = refl
not-contains_nonpos c low (d ∷ cs) p n h = ground (arith, not-contains_nonpos c d cs)

contained_pos :
    (c : ℤ) (cs : List ℤ) → IsCanonical cs → contains c cs ≡ true → leb_ℤ c (pos 0) ≡ false
contained_pos c [] h k = elim h [ ]
contained_pos c (d ∷ cs) h k = ground (arith, not-contains_nonpos c (pos 0) (d ∷ cs))

module _ (fl : Float64) where
  open fl use {Float}

  -- Entry `k` of the three vectors: the lead series at the axis point `start + k` and one step
  -- before, and the other series `lag` steps before.
  pub record IsAligned (lead other : List Float) (start lag n : ℕ) (t : LaggedTriplet Float)
      : Type 0 where
    pub future_length : length t.future ≡ n
    pub past_length : length t.past ≡ n
    pub source_past_length : length t.source_past ≡ n
    pub future_at : (k : ℕ) → k < n → get_elem? t.future k ≡ get_elem? lead (start + k)
    pub past_at : (k : ℕ) → k < n → get_elem? t.past k ≡ get_elem? lead (start + k - 1)
    pub source_past_at :
        (k : ℕ) → k < n → get_elem? t.source_past k ≡ get_elem? other (start + k - lag)

  module _ (lead other : List Float) (start lag n : ℕ) (some_n : 0 < n) (some_start : 0 < start)
      (lag_le : lag ≤ start) (lead_length : length lead ≡ start + n)
      (other_length : length other ≡ start + n) (lead_finite : all_finite fl lead ≡ true)
      (other_finite : all_finite fl other ≡ true) where
    abbrev triplet : LaggedTriplet Float
    triplet = record {
      future = slice start (start + n) lead;
      past = slice (start - 1) (start + n - 1) lead;
      source_past = slice (start - lag) (start + n - lag) other;
    }

    frozen_slice :
        (xs : List Float) (a b : ℕ)
        → all_finite fl xs ≡ true
        → b ≤ length xs
        → a < b
        → frozen_float64_vector fl (slice a b xs) ≡ ok (slice a b xs)
    unfolding frozen_float64_vector
    frozen_slice xs a b f le lt = rw (
      is_empty-length fl (slice a b xs) (omega (arith, length-slice a b xs le)),
      all_finite-slice fl a b xs f,
    )

    triplet-IsAligned : IsAligned lead other start lag n triplet
    triplet-IsAligned = record {
      future_length = omega (arith, length-slice start (start + n) lead);
      past_length = omega (arith, length-slice (start - 1) (start + n - 1) lead);
      source_past_length = omega (arith, length-slice (start - lag) (start + n - lag) other);
      future_at = λ k lt. get_elem?-slice start (start + n) lead k (omega arith);
      past_at = λ k lt.
          get_elem?-slice (start - 1) (start + n - 1) lead k (omega arith)
          ∙ ap (get_elem? lead) (omega arith);
      source_past_at = λ k lt.
          get_elem?-slice (start - lag) (start + n - lag) other k (omega arith)
          ∙ ap (get_elem? other) (omega arith);
    }

    lagged_triplet_made : lagged_triplet fl triplet ≡ ok triplet
    unfolding lagged_triplet
    lagged_triplet_made =
        let a = triplet-IsAligned in
        rw
          (
            frozen_slice lead start (start + n) lead_finite (omega arith) (omega arith),
            frozen_slice lead (start - 1) (start + n - 1) lead_finite (omega arith) (omega arith),
            frozen_slice other (start - lag) (start + n - lag) other_finite (omega arith)
                (omega arith),
            a.future_length,
            a.past_length,
            a.source_past_length,
          )
          (ground arith)

  module _ (pair : SeriesPair Float) (cs : List ℤ) (c : ℤ) (valid : IsPair fl pair)
      (h : IsCanonical cs) (short : max_candidate cs < length pair.source)
      (member : contains c cs ≡ true) where
    abbrev support : CommonSupport Float
    support = support_of fl pair cs

    looked_up : lookup_candidate fl support c ≡ ok (magnitude c)
    unfolding lookup_candidate
    looked_up = rw (contained_pos c cs h member, member)

    -- For each lag of the frozen set, `forward_for` and `reverse_for` return vectors that are
    -- aligned on the common axis: target leads and source lags, or the other way round.
    pub triplets-IsAligned :
        ((t : LaggedTriplet Float) × (forward_for fl support c ≡ ok t)
          × IsAligned pair.target pair.source support.max_lag (magnitude c) support.support_n t)
        × ((t : LaggedTriplet Float) × (reverse_for fl support c ≡ ok t)
            × IsAligned pair.source pair.target support.max_lag (magnitude c) support.support_n t)
    unfolding forward_for reverse_for
    triplets-IsAligned =
        let m = max_candidate cs in
        let n = length pair.source - m in
        let le = magnitude-le_max c cs member in
        let some_m = max_candidate_pos cs h in
        let ls : length pair.source ≡ m + n = omega arith in
        let lt : length pair.target ≡ m + n = omega (arith, valid.aligned) in
        let some_n : 0 < n = omega arith in
        let sf = valid.source_finite in
        let tf = valid.target_finite in
        (
          (
            triplet pair.target pair.source m (magnitude c) n some_n some_m le lt ls tf sf,
            rw looked_up (
                lagged_triplet_made pair.target pair.source m (magnitude c) n some_n some_m le lt ls
                  tf sf),
            triplet-IsAligned pair.target pair.source m (magnitude c) n some_n some_m le lt ls tf
                sf,
          ),
          (
            triplet pair.source pair.target m (magnitude c) n some_n some_m le ls lt sf tf,
            rw looked_up (
                lagged_triplet_made pair.source pair.target m (magnitude c) n some_n some_m le ls lt
                  sf tf),
            triplet-IsAligned pair.source pair.target m (magnitude c) n some_n some_m le ls lt sf
                tf,
          ),
        )
