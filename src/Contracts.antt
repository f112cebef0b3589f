-- ===== src/Contracts.antt =====
-- The immutable records of src/selcal/contracts.py that every component shares. A constructor
-- call is a record followed by its `__post_init__`, which validates and normalises the fields.
-- Fields are typed, so the checks of a field's Python type have no counterpart.
mod Series
pub mod Laws
pub mod Normal
pub use Series.{SeriesPair}
unfoldable pub use Series.{all_finite, plus_zero, validated_series, series_pair}
use selcal.Prelude.{
  ℕ, List, [], ◌∷◌, Bool, true, false, not, Option, none, some, String, ◌≡◌, if◌then◌else◌, length,
  ltb,
}
use selcal.Prelude.Int.{ℤ, pos, ltb_ℤ}
use selcal.Errors.{Result, ok, err, value_error, index_error, raise_if, ◌>>=◌, ◌>>◌}
use selcal.Floats.{Float64}
use selcal.Candidates.{canonical_candidates, contains}

pub data SelectionRule : Type 0 where
  max_upper : SelectionRule
  max_absolute : SelectionRule

pub data Validity : Type 0 where
  valid : Validity
  analytic_failure : Validity

pub record StatisticResult (F : Type 0) : Type 0 where
  pub candidate_id : ℤ
  pub estimate : Option F
  pub selection_score : Option F
  pub support_n : ℤ
  pub validity : Validity
  pub diagnostics : List String
  pub backend_identity : String
  pub preprocessing_identity : String

pub record SelectionResult (F : Type 0) : Type 0 where
  pub selected_candidate : ℤ
  pub selected_index : ℕ
  pub decision_statistic : F
  pub tied_candidates : List ℤ

-- `not text`
abbrev pub is_blank : String → Bool
is_blank String.[] = true
is_blank (String.◌∷◌ c s) = false

-- `_validated_integer(value, minimum=...)`
unfoldable pub validated_integer : ℤ → ℤ → Result ℤ
validated_integer minimum value = do raise_if (ltb_ℤ value minimum) value_error; ok value

-- `candidates[0]`
abbrev first_candidate : List ℤ → Result ℤ
first_candidate [] = err index_error
first_candidate (x ∷ xs) = ok x

-- `canonical_candidates((value,))[0]`
unfoldable pub canonical_candidate : ℤ → Result ℤ
unfolding canonical_candidates
canonical_candidate value = do
  candidates ← canonical_candidates (value ∷ [])
  first_candidate candidates

module _ (fl : Float64) where
  open fl use {Float, zero, is_finite, feq}

  -- `_validated_finite_real`
  unfoldable pub validated_finite_real : Float → Result Float
  validated_finite_real value = do
    raise_if (not (is_finite value)) value_error
    ok (if feq value zero then zero else value)

  -- `_validated_optional_finite_real`
  unfoldable pub validated_optional_finite_real : Option Float → Result (Option Float)
  unfolding validated_finite_real
  validated_optional_finite_real none = ok none
  validated_optional_finite_real (some value) = do
    normalized ← validated_finite_real value
    ok (some normalized)

  -- The scored fields of `StatisticResult.__post_init__`, by the validity of the record.
  unfoldable pub validated_scores :
      Validity → Option Float → Option Float → Result (Option Float × Option Float)
  validated_scores valid none score = err value_error
  validated_scores valid (some estimate) score = do
    normalized ← validated_finite_real estimate
    normalized_score ← validated_optional_finite_real score
    ok (some normalized, normalized_score)
  validated_scores analytic_failure none none = ok (none, none)
  validated_scores analytic_failure estimate score = err value_error

  -- `StatisticResult.__post_init__`
  unfoldable pub statistic_result : StatisticResult Float → Result (StatisticResult Float)
  statistic_result r = do
    raise_if (is_blank r.backend_identity) value_error
    raise_if (is_blank r.preprocessing_identity) value_error
    candidate_id ← canonical_candidate r.candidate_id
    support_n ← validated_integer (pos 1) r.support_n
    scores ← validated_scores r.validity r.estimate r.selection_score
    ok (record r {
      candidate_id = candidate_id;
      support_n = support_n;
      estimate = scores.0;
      selection_score = scores.1;
    })

  -- `SelectionResult.__post_init__`. An index counts from zero, so its lower bound holds.
  unfoldable pub selection_result : SelectionResult Float → Result (SelectionResult Float)
  selection_result r = do
    selected_candidate ← canonical_candidate r.selected_candidate
    decision_statistic ← validated_finite_real r.decision_statistic
    tied_candidates ← canonical_candidates r.tied_candidates
    raise_if (not (contains selected_candidate tied_candidates)) value_error
    ok (record r {
      selected_candidate = selected_candidate;
      decision_statistic = decision_statistic;
      tied_candidates = tied_candidates;
    })
