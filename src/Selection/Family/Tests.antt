-- ===== src/Selection/Family/Tests.antt =====
-- `select_family_v2` on three lags, with a tie and with broken inputs.
use selcal.Prelude.{arith, ℕ, List, [], ◌∷◌, Option, none, some, ◌≡◌, refl}
use selcal.Prelude.Int.{ℤ, pos, negsuc, ◌-ℤ◌}
use selcal.Errors.{ok, err, integrity_error}
use selcal.Floats.Sample.{sample_float, sample_IsIeee}
use selcal.Floats.Order.{max_from}
use selcal.Candidates.{canonical_candidates, any_not_positive, has_duplicates, sorted, contains}
use selcal.Contracts.{
  max_upper, max_absolute, valid, StatisticResult, SelectionResult, statistic_result,
  selection_result, canonical_candidate, validated_integer, validated_scores, validated_finite_real,
  validated_optional_finite_real,
}
use selcal.Arrays.{lookup_all}
use selcal.Selection.{any_not_increasing, score_of, max_score, tied_indices}
use selcal.Selection.Family.{
  exact_candidates, score_result, score_family, replace_scores, select_family_v2,
}
use selcal.Selection.Family.Spec.{IsRaw, RawFamily, IsFamilySelection}
use selcal.Selection.Family.Laws.{select_family_v2-selects}

abbrev pub raw_result : ℤ → ℤ → StatisticResult (Option ℤ)
raw_result candidate estimate = record {
  candidate_id = candidate;
  estimate = some (some estimate);
  selection_score = none;
  support_n = pos 20;
  validity = valid;
  diagnostics = "OK" ∷ [];
  backend_identity = "backend";
  preprocessing_identity = "none";
}

abbrev pub three_lags : List ℤ
three_lags = pos 1 ∷ pos 2 ∷ pos 5 ∷ []

abbrev pub three_results : List (StatisticResult (Option ℤ))
three_results =
    raw_result (pos 1) (pos 3) ∷ raw_result (pos 2) (pos 6) ∷ raw_result (pos 5) (negsuc 6) ∷ []

program : Unit {0}
unfolding statistic_result selection_result canonical_candidate validated_integer validated_scores
    validated_finite_real validated_optional_finite_real canonical_candidates any_not_positive
    has_duplicates sorted contains any_not_increasing lookup_all score_of max_score tied_indices
    exact_candidates score_result score_family replace_scores select_family_v2 max_from ◌-ℤ◌
program = tt

abbrev scored_result : ℤ → ℤ → ℕ → StatisticResult (Option ℤ)
scored_result candidate estimate score = record (raw_result candidate estimate) {
  selection_score = some (some (pos score));
}

-- The maximum 7 is at lag 5, and lag 2 with 6 lies within the tolerance of 1.
select_three :
    select_family_v2 sample_float three_results three_lags max_absolute (some (pos 1))
    ≡ ok (
      record {
        selected_candidate = pos 2;
        selected_index = 1;
        decision_statistic = some (pos 7);
        tied_candidates = pos 2 ∷ pos 5 ∷ [];
      },
      scored_result (pos 1) (pos 3) 3
          ∷ scored_result (pos 2) (pos 6) 6
          ∷ scored_result (pos 5) (negsuc 6) 7
          ∷ [],
    )
unfolding program
select_three = refl

-- A wrong lag, a negative tolerance and an unordered family are refused.
select_refused :
    (select_family_v2 sample_float three_results
        (pos 1 ∷ pos 2 ∷ pos 4 ∷ [])
        max_upper
        (some (pos 0))
      ≡ err integrity_error)
    × (select_family_v2 sample_float three_results three_lags max_upper (some (negsuc 0))
        ≡ err integrity_error)
    × (select_family_v2 sample_float [] (pos 2 ∷ pos 1 ∷ []) max_upper (some (pos 0))
        ≡ err integrity_error)
unfolding program
select_refused = (refl, refl, refl)

raw_result-IsRaw :
    (c : ℤ) (e : ℤ)
    → statistic_result sample_float (raw_result c e) ≡ ok (raw_result c e)
    → IsRaw sample_float c (raw_result c e)
raw_result-IsRaw c e made = record {
  estimate = some e;
  named = refl;
  is_valid = refl;
  unscored = refl;
  estimated = refl;
  finite = refl;
  constructed = made;
}

pub three-RawFamily : RawFamily sample_float three_lags three_results
unfolding program
three-RawFamily = (
  raw_result-IsRaw (pos 1) (pos 3) refl,
  (raw_result-IsRaw (pos 2) (pos 6) refl, (raw_result-IsRaw (pos 5) (negsuc 6) refl, tt)),
)

select_family_v2-selects_example :
    (selection : SelectionResult (Option ℤ)) × (scored : List (StatisticResult (Option ℤ)))
    × (select_family_v2 sample_float three_results three_lags max_absolute (some (pos 1))
        ≡ ok (selection, scored))
    × IsFamilySelection sample_float max_absolute
        (some (pos 1))
        three_lags
        three_results
        selection
        scored
select_family_v2-selects_example =
    select_family_v2-selects sample_IsIeee max_absolute three_lags three_results (some (pos 1))
      (omega arith) three-RawFamily refl refl
