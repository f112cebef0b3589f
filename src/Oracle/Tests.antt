-- ===== src/Oracle/Tests.antt =====
-- The oracle's counts on small series.
use mathlib.Core.List.Perm as P
use selcal.Prelude.{◌/◌, List, [], ◌∷◌, Option, some, ◌≡◌, refl, arith, ltb, if◌then◌else◌}
use selcal.Prelude.Int.{ℤ, pos}
use selcal.Errors.{Result, ok, err, resource_limit_error}
use selcal.Floats.Sample.{sample_float, sample_IsIeee}
use selcal.Contracts.{SeriesPair, series_pair, validated_series, all_finite, plus_zero}
use selcal.Contracts.Normal.{IsPair, series_pair-IsPair}
use selcal.Oracle.{max_exact_states, block_state_count, multiply_factors, block_pair}
use selcal.Oracle.Blocks.{block_pair-mapping}
use selcal.Nulls.Block.{expected_block_mapping}
use selcal.Prelude.Tally.{Tally}
use selcal.Prelude.Factorial.{factorial}
use selcal.Oracle.Counts.{block_state_count-factorial}

abbrev five : List (Option ℤ)
five = some (pos 3) ∷ some (pos 1) ∷ some (pos 4) ∷ some (pos 1) ∷ some (pos 5) ∷ []

abbrev five_pair : SeriesPair (Option ℤ)
five_pair = record { source = five; target = five }

-- The first value of the source, which depends on the shift
abbrev first_of : List (Option ℤ) → Option ℤ
first_of [] = some (pos 0)
first_of (x ∷ xs) = x

abbrev first_value : SeriesPair (Option ℤ) → Result (Option ℤ)
first_value p = ok (first_of p.source)

block_state_count-factorial_example : block_state_count 8 (pos 2) ≡ (
    if ltb max_exact_states (factorial (8 / 2))
    then err resource_limit_error
    else ok (factorial (8 / 2), 2, 8 / 2))
block_state_count-factorial_example =
    block_state_count-factorial 8 2 (omega arith) refl (omega arith)

-- Nine blocks are past the cap, as 9! is 362880.
nine_blocks : block_state_count 9 (pos 1) ≡ err resource_limit_error
unfolding block_state_count multiply_factors
nine_blocks = refl

abbrev six_pair : SeriesPair (Option ℤ)
six_pair = record { source = some (pos 9) ∷ five; target = some (pos 2) ∷ five }

six_pair-IsPair : IsPair sample_float six_pair
unfolding series_pair validated_series all_finite plus_zero
six_pair-IsPair = (series_pair-IsPair sample_float sample_IsIeee six_pair refl).0

abbrev second_first : List ℤ
second_first = pos 1 ∷ pos 0 ∷ pos 2 ∷ []

block_pair-mapping_example :
    block_pair sample_float six_pair second_first 2
    ≡ ok (record {
      source = expected_block_mapping six_pair.source 2 second_first;
      target = six_pair.target;
    })
block_pair-mapping_example =
    block_pair-mapping sample_float six_pair 3 2 second_first six_pair-IsPair refl
      (P.swap (pos 1) (pos 0) (pos 2 ∷ []))
