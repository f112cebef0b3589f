-- ===== src/Support/Laws.antt =====
-- The vectors of one lag are aligned on the common axis, for every lag of the frozen set.
use selcal.Prelude.{
  ℕ, zero, suc, ◌-◌, ◌≤◌, ◌<◌, List, [], ◌∷◌, true, false, ◌≡◌, refl, arith, length, take, drop,
}
use selcal.Arrays.{slice}
use selcal.Arrays.Laws.{equal_numbers_refl}
use selcal.Prelude.Index.{range_from, length-range_from}
use selcal.Prelude.Int.{ℤ, pos, negsuc}
use selcal.Errors.{ok}
use selcal.Floats.{Float64}
use selcal.Candidates.{is_empty, contains, IsCanonical}
use selcal.Candidates.Laws.{canonical_candidates_fixed}
use selcal.Contracts.{SeriesPair, all_finite}
use selcal.Support.{magnitude, max_candidate, CommonSupport, validated_support, common_support}

-- The longest lag bounds each lag of the list.
pub magnitude-le_max : (c : ℤ) (cs : List ℤ) → contains c cs ≡ true → magnitude c ≤ max_candidate cs
unfolding contains max_candidate
magnitude-le_max c [] h = cc
magnitude-le_max (pos n) (pos d ∷ cs) h = ground (arith, magnitude-le_max (pos n) cs)
magnitude-le_max (pos n) (negsuc d ∷ cs) h = ground (arith, magnitude-le_max (pos n) cs)
magnitude-le_max (negsuc n) (pos d ∷ cs) h = ground (arith, magnitude-le_max (negsuc n) cs)
magnitude-le_max (negsuc n) (negsuc d ∷ cs) h = ground (arith, magnitude-le_max (negsuc n) cs)

pub max_candidate_pos : (cs : List ℤ) → IsCanonical cs → 0 < max_candidate cs
unfolding max_candidate
max_candidate_pos [] h = elim h [ ]
max_candidate_pos (pos n ∷ cs) h = ground arith
max_candidate_pos (negsuc n ∷ cs) h = absurd (omega arith)

module _ (fl : Float64) where
  open fl use {Float}

  all_finite-take :
      (n : ℕ) (xs : List Float) → all_finite fl xs ≡ true → all_finite fl (take n xs) ≡ true
  unfolding all_finite
  all_finite-take zero xs h = refl
  all_finite-take (suc n) [] h = refl
  all_finite-take (suc n) (x ∷ xs) h = ground (arith, all_finite-take n xs)

  all_finite-drop :
      (n : ℕ) (xs : List Float) → all_finite fl xs ≡ true → all_finite fl (drop n xs) ≡ true
  unfolding all_finite
  all_finite-drop zero xs h = h
  all_finite-drop (suc n) [] h = refl
  all_finite-drop (suc n) (x ∷ xs) h = ground (arith, all_finite-drop n xs)

  pub all_finite-slice :
      (a b : ℕ) (xs : List Float) → all_finite fl xs ≡ true → all_finite fl (slice a b xs) ≡ true
  all_finite-slice a b xs h = all_finite-drop a (take b xs) (all_finite-take b xs h)

  -- A valid pair: what `SeriesPair` guarantees.
  pub record IsPair (pair : SeriesPair Float) : Type 0 where
    pub source_finite : all_finite fl pair.source ≡ true
    pub target_finite : all_finite fl pair.target ≡ true
    pub aligned : length pair.source ≡ length pair.target

  abbrev pub support_of : SeriesPair Float → List ℤ → CommonSupport Float
  support_of pair cs = record {
    candidates = cs;
    max_lag = max_candidate cs;
    time_index = range_from (max_candidate cs) (length pair.source - max_candidate cs);
    support_n = length pair.source - max_candidate cs;
    pair = pair;
  }

  pub is_empty-length {ℓ} : {A : Type ℓ} (xs : List A) → 0 < length xs → is_empty xs ≡ false
  is_empty-length [] h = elim h [ ]
  is_empty-length (x ∷ xs) h = refl

  -- Canonical lags shorter than the series have a common support; its axis is the contiguous
  -- range from the longest lag to the end of the series, and it is not empty.
  pub common_support_total :
      (pair : SeriesPair Float) (cs : List ℤ)
      → IsCanonical cs
      → max_candidate cs < length pair.source
      → (common_support fl pair cs ≡ ok (support_of pair cs))
        × (0 < (support_of pair cs).support_n)
        × (length (support_of pair cs).time_index ≡ (support_of pair cs).support_n)
  unfolding common_support validated_support
  common_support_total pair cs h short =
      let m = max_candidate cs in
      let n = length pair.source - m in
      let axis = length-range_from m n in
      let full = is_empty-length (range_from m n) (omega (arith, axis)) in
      let same = equal_numbers_refl (range_from m n) in
      let canonical = (canonical_candidates_fixed cs).1 h in
      (rw canonical (rw (canonical, full, same) (ground (arith, axis))), omega arith, axis)
