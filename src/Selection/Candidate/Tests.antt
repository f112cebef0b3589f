-- ===== src/Selection/Candidate/Tests.antt =====
-- `select_candidate` on the three lags of the family tests.
use selcal.Prelude.{arith, List, [], ◌∷◌, Option, some, true, ◌≡◌, refl, get_elem?, map}
use selcal.Prelude.Int.{ℤ, pos, ◌-ℤ◌}
use selcal.Errors.{Result, ok, err, value_error}
use selcal.Floats.Sample.{sample_float, sample_IsIeee}
use selcal.Floats.Order.{max_from}
use selcal.Candidates.{canonical_candidates, any_not_positive, has_duplicates, sorted, contains}
use selcal.Contracts.{
  max_upper, max_absolute, StatisticResult, SelectionResult, statistic_result, selection_result,
  canonical_candidate, validated_integer, validated_scores, validated_finite_real,
  validated_optional_finite_real,
}
use selcal.Arrays.{lookup_all}
use selcal.Selection.{any_not_increasing, score_of, max_score, tied_indices}
use selcal.Selection.Family.{select_family_v2}
use selcal.Selection.Family.Spec.{result_score}
use selcal.Selection.Family.Tests.{raw_result, three_lags, three_results, three-RawFamily}
use selcal.Selection.Candidate.{
  finite_real, score_candidate, score_candidates, select_scored, select_candidate,
}
use selcal.Selection.Candidate.Agrees.{select_candidate-agrees}

select_candidate-agrees_example :
    (family : SelectionResult (Option ℤ)) × (scored : List (StatisticResult (Option ℤ)))
    × (score : Option ℤ) × (select_family_v2 sample_float three_results three_lags max_absolute
          (some (pos 1))
        ≡ ok (family, scored))
    × (select_candidate sample_float three_results max_absolute (some (pos 1))
        ≡ ok (record family { decision_statistic = score }, scored))
    × (get_elem? (map (result_score sample_float max_absolute) three_results) family.selected_index
        ≡ some score)
    × (sample_float.fle (sample_float.fsub family.decision_statistic score) (some (pos 1)) ≡ true)
select_candidate-agrees_example =
    select_candidate-agrees sample_IsIeee max_absolute three_lags three_results (some (pos 1))
      (omega arith) three-RawFamily refl refl

abbrev decision_of :
    Result (SelectionResult (Option ℤ) × List (StatisticResult (Option ℤ))) → Result (Option ℤ)
decision_of (err e) = err e
decision_of (ok selected) = ok selected.0.decision_statistic

-- Lag 2 is selected with its own score 6; an empty vector and a repeated lag are refused.
candidate_runs :
    (decision_of (select_candidate sample_float three_results max_absolute (some (pos 1)))
      ≡ ok (some (pos 6)))
    × (select_candidate sample_float [] max_upper (some (pos 0)) ≡ err value_error)
    × (select_candidate sample_float
          (raw_result (pos 2) (pos 1) ∷ raw_result (pos 2) (pos 1) ∷ [])
          max_upper
          (some (pos 0))
        ≡ err value_error)
unfolding statistic_result selection_result canonical_candidate validated_integer validated_scores
    validated_finite_real validated_optional_finite_real canonical_candidates any_not_positive
    has_duplicates sorted contains any_not_increasing lookup_all score_of max_score tied_indices
    finite_real score_candidate score_candidates select_scored select_candidate max_from ◌-ℤ◌
candidate_runs = (refl, refl, refl)
