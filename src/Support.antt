-- ===== src/Support.antt =====
-- src/selcal/support.py: the common time axis of all candidate lags, and the aligned vectors of
-- one lag. NumPy slices are the language's: `values[start:stop]` clips at the length.
pub mod Laws
pub mod Aligned
mod Tests
use selcal.Prelude.{
  ℕ, suc, ◌+◌, ◌-◌, List, [], ◌∷◌, Bool, true, false, not, ◌||◌, ◌≡◌, if◌then◌else◌, length, take,
  drop, leb, ltb, ◌==◌,
}
use selcal.Arrays.{slice, equal_numbers}
use selcal.Prelude.Index.{range_from}
use selcal.Prelude.Int.{ℤ, pos, negsuc, leb_ℤ}
use selcal.Errors.{Result, ok, err, value_error, raise_if, ◌>>=◌, ◌>>◌}
use selcal.Floats.{Float64}
use selcal.Candidates.{is_empty, contains, canonical_candidates}
use selcal.Contracts.{SeriesPair, all_finite}

-- A positive int as a number; the callers have checked the sign.
abbrev pub magnitude : ℤ → ℕ
magnitude (pos n) = n
magnitude (negsuc n) = suc n

-- `max(candidates)` of positive candidates.
unfoldable pub max_candidate : List ℤ → ℕ
max_candidate [] = 0
max_candidate (c ∷ cs) =
    let rest = max_candidate cs in if ltb rest (magnitude c) then magnitude c else rest

pub record LaggedTriplet (F : Type 0) : Type 0 where
  pub future : List F
  pub past : List F
  pub source_past : List F

pub record CommonSupport (F : Type 0) : Type 0 where
  pub candidates : List ℤ
  pub max_lag : ℕ
  pub time_index : List ℕ
  pub support_n : ℕ
  pub pair : SeriesPair F

module _ (fl : Float64) where
  open fl use {Float}

  -- `_frozen_float64_vector`
  unfoldable pub frozen_float64_vector : List Float → Result (List Float)
  frozen_float64_vector values = do
    raise_if (is_empty values) value_error
    raise_if (not (all_finite fl values)) value_error
    ok values

  -- `LaggedTriplet.__post_init__`
  unfoldable pub lagged_triplet : LaggedTriplet Float → Result (LaggedTriplet Float)
  lagged_triplet t = do
    future ← frozen_float64_vector t.future
    past ← frozen_float64_vector t.past
    source_past ← frozen_float64_vector t.source_past
    raise_if (not (length future == length past) || not (length future == length source_past))
        value_error
    ok (record { future = future; past = past; source_past = source_past })

  -- `CommonSupport.__post_init__`
  unfoldable pub validated_support : CommonSupport Float → Result (CommonSupport Float)
  validated_support s = do
    candidates ← canonical_candidates s.candidates
    raise_if (not (s.max_lag == max_candidate candidates)) value_error
    raise_if (s.support_n == 0) value_error
    raise_if (is_empty s.time_index) value_error
    raise_if (not (length s.time_index == s.support_n)) value_error
    raise_if (not (equal_numbers s.time_index (range_from s.max_lag s.support_n))) value_error
    raise_if (not (length s.pair.source == s.max_lag + s.support_n)) value_error
    ok (record s { candidates = candidates })

  -- `common_support`
  unfoldable pub common_support : SeriesPair Float → List ℤ → Result (CommonSupport Float)
  common_support pair candidates = do
    canonical ← canonical_candidates candidates
    let max_lag = max_candidate canonical
    let series_length = length pair.source
    raise_if (leb series_length max_lag) value_error
    validated_support (record {
      candidates = canonical;
      max_lag = max_lag;
      time_index = range_from max_lag (series_length - max_lag);
      support_n = series_length - max_lag;
      pair = pair;
    })

  -- `CommonSupport._lookup_candidate` and the membership test of its callers.
  unfoldable pub lookup_candidate : CommonSupport Float → ℤ → Result ℕ
  lookup_candidate s candidate = do
    raise_if (leb_ℤ candidate (pos 0)) value_error
    raise_if (not (contains candidate s.candidates)) value_error
    ok (magnitude candidate)

  unfoldable pub forward_for : CommonSupport Float → ℤ → Result (LaggedTriplet Float)
  forward_for s candidate = do
    lag ← lookup_candidate s candidate
    let start = s.max_lag
    let stop = s.max_lag + s.support_n
    lagged_triplet (record {
      future = slice start stop s.pair.target;
      past = slice (start - 1) (stop - 1) s.pair.target;
      source_past = slice (start - lag) (stop - lag) s.pair.source;
    })

  unfoldable pub reverse_for : CommonSupport Float → ℤ → Result (LaggedTriplet Float)
  reverse_for s candidate = do
    lag ← lookup_candidate s candidate
    let start = s.max_lag
    let stop = s.max_lag + s.support_n
    lagged_triplet (record {
      future = slice start stop s.pair.source;
      past = slice (start - 1) (stop - 1) s.pair.source;
      source_past = slice (start - lag) (stop - lag) s.pair.target;
    })
