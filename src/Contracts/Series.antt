-- ===== src/Contracts/Series.antt =====
-- `SeriesPair` and `_validated_series` of src/selcal/contracts.py: two frozen float vectors.
use selcal.Prelude.{List, [], ◌∷◌, Bool, true, not, ◌&&◌, map, if◌then◌else◌, length, ◌==◌}
use selcal.Errors.{Result, ok, value_error, raise_if, ◌>>=◌, ◌>>◌}
use selcal.Floats.{Float64}
use selcal.Candidates.{is_empty}

pub record SeriesPair (F : Type 0) : Type 0 where
  pub source : List F
  pub target : List F

module _ (fl : Float64) where
  open fl use {Float, zero, is_finite, feq}

  -- `np.isfinite(array).all()`
  unfoldable pub all_finite : List Float → Bool
  all_finite [] = true
  all_finite (x ∷ xs) = is_finite x && all_finite xs

  -- `array[array == 0.0] = 0.0`: a negative zero becomes the positive one.
  unfoldable pub plus_zero : Float → Float
  plus_zero x = if feq x zero then zero else x

  unfoldable pub validated_series : List Float → Result (List Float)
  unfolding all_finite plus_zero
  validated_series values = do
    raise_if (is_empty values) value_error
    raise_if (not (all_finite values)) value_error
    ok (map plus_zero values)

  -- `SeriesPair.__post_init__`
  unfoldable pub series_pair : SeriesPair Float → Result (SeriesPair Float)
  unfolding validated_series
  series_pair p = do
    source ← validated_series p.source
    target ← validated_series p.target
    raise_if (not (length source == length target)) value_error
    ok (record { source = source; target = target })
