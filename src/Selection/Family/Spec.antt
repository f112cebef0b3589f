-- ===== src/Selection/Family/Spec.antt =====
-- What a selection over a complete family of raw results promises, stated without the code's
-- loops: which vectors are families, and which selection of which label is right.
use selcal.Prelude.{ℕ, List, [], ◌∷◌, true, Option, none, some, ◌≡◌, get_elem?, map}
use selcal.Prelude.Int.{ℤ}
use selcal.Errors.{ok}
use selcal.Floats.{Float64}
use selcal.Floats.Order.{AllLe}
use selcal.Contracts.{SelectionRule, valid, StatisticResult, SelectionResult, statistic_result}
use selcal.Selection.{score_of}
use selcal.Selection.Ties.{IsFirstTie, tied_of}
use selcal.Selection.Family.{unsigned_zero}

module _ (fl : Float64) where
  open fl use {Float, zero, is_finite}

  -- A valid, unscored result for the candidate, as the constructor returns it.
  pub record IsRaw (candidate : ℤ) (r : StatisticResult Float) : Type 0 where
    pub estimate : Float
    pub named : r.candidate_id ≡ candidate
    pub is_valid : r.validity ≡ valid
    pub unscored : r.selection_score ≡ none
    pub estimated : r.estimate ≡ some estimate
    pub finite : is_finite estimate ≡ true
    pub constructed : statistic_result fl r ≡ ok r

  -- One such result for each candidate, in the order of the candidates.
  abbrev pub RawFamily : List ℤ → List (StatisticResult Float) → Type 0
  RawFamily [] [] = Unit
  RawFamily [] (r ∷ rs) = ⊥
  RawFamily (c ∷ cs) [] = ⊥
  RawFamily (c ∷ cs) (r ∷ rs) = IsRaw c r × RawFamily cs rs

  abbrev pub value_or_zero : Option Float → Float
  value_or_zero none = zero
  value_or_zero (some x) = x

  -- The score of a result under a rule.
  abbrev pub result_score : SelectionRule → StatisticResult Float → Float
  result_score rule r = unsigned_zero fl (score_of fl rule (value_or_zero r.estimate))

  abbrev pub with_score : SelectionRule → StatisticResult Float → StatisticResult Float
  with_score rule r = record r { selection_score = some (result_score rule r) }

  pub record IsFamilySelection (rule : SelectionRule) (tolerance : Float) (candidates : List ℤ)
      (results : List (StatisticResult Float)) (selection : SelectionResult Float)
      (scored : List (StatisticResult Float)) : Type 0 where
    -- The decision statistic is the family maximum.
    pub attained :
        (i : ℕ) × (get_elem? (map (result_score rule) results) i
          ≡ some selection.decision_statistic)
    pub maximal : AllLe fl selection.decision_statistic (map (result_score rule) results)
    -- The label is the first candidate within the tolerance of the maximum.
    pub first :
        IsFirstTie fl selection.decision_statistic tolerance
          (map (result_score rule) results)
          selection.selected_index
    pub labelled : get_elem? candidates selection.selected_index ≡ some selection.selected_candidate
    -- The ties are all the candidates within the tolerance, in order.
    pub ties :
        selection.tied_candidates
        ≡ tied_of fl selection.decision_statistic tolerance candidates
            (map (result_score rule) results)
    -- The results come back with their scores, and otherwise unchanged.
    pub scores : scored ≡ map (with_score rule) results
