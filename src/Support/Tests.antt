-- ===== src/Support/Tests.antt =====
-- The common support of the lags 1 and 2 on five points.
use selcal.Prelude.{List, [], ◌∷◌, ◌≡◌, ◌<◌, refl, Option, some, true, length, arith}
use selcal.Prelude.Int.{ℤ, pos}
use selcal.Errors.{ok}
use selcal.Floats.Sample.{sample_float}
use selcal.Candidates.{
  IsCanonical, canonical_candidates, any_not_positive, has_duplicates, sorted, contains,
}
use selcal.Candidates.Laws.{canonical_candidates_fixed}
use selcal.Contracts.{SeriesPair, all_finite}
use selcal.Support.{
  CommonSupport, LaggedTriplet, max_candidate, magnitude, common_support, forward_for, reverse_for,
}
use selcal.Support.Laws.{IsPair, support_of, common_support_total}
use selcal.Support.Aligned.{IsAligned, triplets-IsAligned}

abbrev two_lags : List ℤ
two_lags = pos 1 ∷ pos 2 ∷ []

abbrev five : List (Option ℤ)
five = some (pos 3) ∷ some (pos 1) ∷ some (pos 4) ∷ some (pos 1) ∷ some (pos 5) ∷ []

abbrev five_pair : SeriesPair (Option ℤ)
five_pair = record { source = five; target = five }

two_lags-IsCanonical : IsCanonical two_lags
unfolding canonical_candidates any_not_positive has_duplicates sorted
two_lags-IsCanonical = (canonical_candidates_fixed two_lags).0 refl

short : max_candidate two_lags < length five
unfolding max_candidate
short = omega arith

five_pair-IsPair : IsPair sample_float five_pair
unfolding all_finite
five_pair-IsPair = record { source_finite = refl; target_finite = refl; aligned = refl }

two_in : contains (pos 2) two_lags ≡ true
unfolding contains
two_in = refl

abbrev five_support : CommonSupport (Option ℤ)
five_support = support_of sample_float five_pair two_lags

common_support_total_example :
    (common_support sample_float five_pair two_lags ≡ ok five_support)
    × (0 < five_support.support_n)
    × (length five_support.time_index ≡ five_support.support_n)
common_support_total_example =
    common_support_total sample_float five_pair two_lags two_lags-IsCanonical short

triplets-IsAligned_example :
    ((t : LaggedTriplet (Option ℤ)) × (forward_for sample_float five_support (pos 2) ≡ ok t)
      × IsAligned sample_float five five five_support.max_lag
          (magnitude (pos 2))
          five_support.support_n
          t)
    × ((t : LaggedTriplet (Option ℤ)) × (reverse_for sample_float five_support (pos 2) ≡ ok t)
        × IsAligned sample_float five five five_support.max_lag
            (magnitude (pos 2))
            five_support.support_n
            t)
triplets-IsAligned_example =
    triplets-IsAligned sample_float five_pair two_lags (pos 2) five_pair-IsPair two_lags-IsCanonical
      short two_in
