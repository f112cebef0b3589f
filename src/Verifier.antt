-- ===== src/Verifier.antt =====
-- The verifier of stored results: the leaves of src/selcal/_verifier_primitives_v2.py that check
-- one result vector. A leaf reads the externals that it was frozen with: the built-in `type`,
-- `len`, `max`, `enumerate`, `zip`, `abs` and `math.isfinite`, which stand here as themselves.
-- Values are typed, so the checks of an exact type and of slot descriptors have no counterpart.
pub mod Vector
pub mod Selected
pub mod Complete
pub mod Terminal
pub mod Replicate
pub mod Run
mod Suffix
pub mod Replicates
pub mod Plan
pub mod Derived
pub mod Decided
pub mod Accepted
mod Tests
use text.Mathlib.Text.{◌==◌ as text_eq}
use selcal.Prelude.{
  ℕ, suc, ◌+◌, List, [], ◌∷◌, ◌++◌, Bool, true, false, not, ◌||◌, Option, none, some, String,
  length, get_elem?, ltb, ◌==◌, if◌then◌else◌,
}
use selcal.Prelude.Int.{ℤ, pos, ltb_ℤ, eqb_ℤ}
use selcal.Errors.{
  Result, ok, err, value_error, index_error, integrity_error, assertion_error, raise_if, or_raise,
  ◌>>=◌, ◌>>◌,
}
use selcal.Arrays.{lookup_all}
use selcal.Floats.{Float64}
use selcal.Contracts.{
  SelectionRule, Validity, valid, analytic_failure, StatisticResult, SelectionResult,
}
use selcal.Selection.{score_of, max_score, tied_indices, first_index}
use selcal.Selection.Family.{is_some, unsigned_zero}
use selcal.Nulls.Token.{equal_labels}
use selcal.Results.Run.{not_equal}

-- `max_upper_member`, by which the rule is told, is the constructor itself.
pub record VectorVerificationPolicy (F : Type 0) : Type 0 where
  pub candidates : List ℤ
  pub selection_rule : SelectionRule
  pub tie_tolerance : F
  pub backend_identity : String
  pub preprocessing_identity : String

pub record VerifiedVectorEvidence (F : Type 0) : Type 0 where
  pub support_n : ℤ
  pub decision_statistic : Option F
  pub analytic_failure_count : ℕ

-- `support_n is not None and support != support_n`
abbrev pub other_support : Option ℤ → ℤ → Bool
other_support none support = false
other_support (some support_n) support = not (eqb_ℤ support support_n)

-- `assert support is not None`
abbrev pub known_support : Option ℤ → Result ℤ
known_support support = or_raise support assertion_error

module _ (fl : Float64) where
  open fl use {Float, is_finite, feq}

  -- `verify_selection`
  unfoldable pub verify_selection :
      SelectionResult Float → VectorVerificationPolicy Float → List Float → Result Float
  verify_selection selection policy scores = do
    decision ← max_score fl scores
    let tied = tied_indices fl 0 decision policy.tie_tolerance scores
    expected_ties ← lookup_all policy.candidates tied
    expected_index ← first_index tied
    expected_candidate ← or_raise (get_elem? policy.candidates expected_index) index_error
    raise_if
        (not (eqb_ℤ selection.selected_candidate expected_candidate)
          || (not (selection.selected_index == expected_index)
              || (not (feq selection.decision_statistic decision)
                  || not (equal_labels selection.tied_candidates expected_ties))))
        integrity_error
    ok decision

  -- `read_statistic`
  unfoldable pub read_statistic :
      StatisticResult Float
      → ℤ
      → Option ℤ
      → VectorVerificationPolicy Float
      → Result (StatisticResult Float)
  read_statistic item expected_candidate support_n policy = do
    raise_if (not (eqb_ℤ item.candidate_id expected_candidate)) integrity_error
    raise_if (ltb_ℤ item.support_n (pos 1)) integrity_error
    raise_if (other_support support_n item.support_n) integrity_error
    raise_if
        (not (text_eq item.backend_identity policy.backend_identity)
          || not (text_eq item.preprocessing_identity policy.preprocessing_identity))
        integrity_error
    ok item

  -- `valid_score`
  unfoldable pub valid_score : Option Float → VectorVerificationPolicy Float → Result Float
  valid_score none policy = err integrity_error
  valid_score (some estimate) policy = do
    raise_if (not (is_finite estimate)) integrity_error
    ok (unsigned_zero fl (score_of fl policy.selection_rule estimate))

  -- `vector_shape`
  unfoldable pub vector_shape :
      List (StatisticResult Float)
      → VectorVerificationPolicy Float
      → Result (List (StatisticResult Float))
  vector_shape vector policy = do
    raise_if (not (length vector == length policy.candidates)) integrity_error
    ok vector

  -- The body of the loop of `verify_complete_vector` after `read_item`: the scores and the number
  -- of failures, from those before the item.
  unfoldable pub score_complete_item :
      Validity
      → StatisticResult Float
      → VectorVerificationPolicy Float
      → List Float
      → ℕ
      → Result (List Float × ℕ)
  score_complete_item analytic_failure item policy scores failure_count = do
    raise_if (is_some item.estimate || is_some item.selection_score) integrity_error
    ok (scores, suc failure_count)
  score_complete_item valid item policy scores failure_count = do
    score ← valid_score item.estimate policy
    raise_if (not_equal fl item.selection_score score) integrity_error
    ok (scores ++ score ∷ [], failure_count)

  -- The loop of `verify_complete_vector` over `zip(candidates, vector, strict=True)`
  unfoldable pub complete_loop :
      VectorVerificationPolicy Float
      → List ℤ
      → List (StatisticResult Float)
      → Option ℤ
      → List Float
      → ℕ
      → Result (Option ℤ × List Float × ℕ)
  complete_loop policy [] [] support scores failure_count = ok (support, scores, failure_count)
  complete_loop policy [] (item ∷ items) support scores failure_count = err value_error
  complete_loop policy (c ∷ cs) [] support scores failure_count = err value_error
  complete_loop policy (c ∷ cs) (item ∷ items) support scores failure_count = do
    values ← read_statistic item c support policy
    counted ← score_complete_item values.validity values policy scores failure_count
    complete_loop policy cs items (some values.support_n) counted.0 counted.1

  -- `verify_complete_vector`
  unfoldable pub verify_complete_vector :
      List (StatisticResult Float)
      → Option (SelectionResult Float)
      → VectorVerificationPolicy Float
      → Result (VerifiedVectorEvidence Float)
  verify_complete_vector vector selection policy = do
    exact_vector ← vector_shape vector policy
    seen ← complete_loop policy policy.candidates exact_vector none [] 0
    support ← known_support seen.0
    raise_if (not (seen.2 == 0) || not (length seen.1 == length policy.candidates)) integrity_error
    chosen ← or_raise selection integrity_error
    decision ← verify_selection chosen policy seen.1
    ok (record {
      support_n = support;
      decision_statistic = some decision;
      analytic_failure_count = 0;
    })

  -- The body of the loop of `verify_failure_vector` after `read_item`
  unfoldable pub count_failure_item :
      Validity → StatisticResult Float → VectorVerificationPolicy Float → ℕ → Result ℕ
  count_failure_item analytic_failure item policy failure_count = do
    raise_if (is_some item.estimate || is_some item.selection_score) integrity_error
    ok (suc failure_count)
  count_failure_item valid item policy failure_count = do
    score ← valid_score item.estimate policy
    raise_if (is_some item.selection_score) integrity_error
    ok failure_count

  -- The loop of `verify_failure_vector`
  unfoldable pub failure_loop :
      VectorVerificationPolicy Float
      → List ℤ
      → List (StatisticResult Float)
      → Option ℤ
      → ℕ
      → Result (Option ℤ × ℕ)
  failure_loop policy [] [] support failure_count = ok (support, failure_count)
  failure_loop policy [] (item ∷ items) support failure_count = err value_error
  failure_loop policy (c ∷ cs) [] support failure_count = err value_error
  failure_loop policy (c ∷ cs) (item ∷ items) support failure_count = do
    values ← read_statistic item c support policy
    counted ← count_failure_item values.validity values policy failure_count
    failure_loop policy cs items (some values.support_n) counted

  -- `verify_failure_vector`
  unfoldable pub verify_failure_vector :
      List (StatisticResult Float)
      → Option (SelectionResult Float)
      → VectorVerificationPolicy Float
      → Result (VerifiedVectorEvidence Float)
  verify_failure_vector vector selection policy = do
    exact_vector ← vector_shape vector policy
    seen ← failure_loop policy policy.candidates exact_vector none 0
    support ← known_support seen.0
    raise_if (ltb seen.1 1 || is_some selection) integrity_error
    ok (record { support_n = support; decision_statistic = none; analytic_failure_count = seen.1 })
