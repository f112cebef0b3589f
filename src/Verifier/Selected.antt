-- ===== src/Verifier/Selected.antt =====
-- The selection that the verifier recomputes from a scored family.
use selcal.Prelude.{
  ℕ, List, [], ◌∷◌, true, false, not, ◌||◌, some, ◌≡◌, sym, ap, ◌∙◌, subst, arith, length,
  get_elem?, ◌==◌, or-eq-false, not-eq-false,
}
use selcal.Prelude.Int.{eqb_ℤ, eq_of_parts}
use selcal.Errors.{
  ok, index_error, integrity_error, or_raise, >>=-eq-ok, guard-eq-ok, or_raise-eq-ok, ok-injective,
}
use selcal.Floats.{Float64, IsIeee}
use selcal.Floats.Order.{max_from, max_from_bounds, max_from_attained, AllFinite, AllLe}
use selcal.Arrays.{lookup_all}
use selcal.Contracts.{SelectionResult}
use selcal.Selection.{max_score, tied_indices, first_index}
use selcal.Selection.Ties.{IsFirstTie, tied_of, tied_indices-first, lookup_all-tied_indices}
use selcal.Selection.Family.Laws.{top-tied}
use selcal.Nulls.Owned.Laws.{equal_labels-eq}
use selcal.Nulls.Token.{equal_labels}
use selcal.Nulls.Owned.Laws.{equal_labels_refl}
use selcal.Verifier.{VectorVerificationPolicy, verify_selection}

module _ {fl : Float64} (ieee : IsIeee fl) (policy : VectorVerificationPolicy fl.Float) where
  open fl use {Float, is_finite, flt, fle, feq}

  -- The selection names the first candidate within the tolerance of the top score, with all ties.
  pub record IsReselected (s : SelectionResult Float) (scores : List Float) (top : Float)
      : Type 0 where
    pub attained : (i : ℕ) × (get_elem? scores i ≡ some top)
    pub maximal : AllLe fl top scores
    pub statistic : feq s.decision_statistic top ≡ true
    pub first : IsFirstTie fl top policy.tie_tolerance scores s.selected_index
    pub labelled : get_elem? policy.candidates s.selected_index ≡ some s.selected_candidate
    pub ties : s.tied_candidates ≡ tied_of fl top policy.tie_tolerance policy.candidates scores

  pub verify_selection-reselects :
      (s : SelectionResult Float) (scores : List Float) {decision : Float}
      → AllFinite fl scores
      → is_finite policy.tie_tolerance ≡ true
      → flt policy.tie_tolerance fl.zero ≡ false
      → length policy.candidates ≡ length scores
      → verify_selection fl s policy scores ≡ ok decision
      → IsReselected s scores decision
  unfolding verify_selection max_score
  verify_selection-reselects s [] finite fo nonneg len h = cc
  verify_selection-reselects s (x ∷ xs) finite fo nonneg len h =
      let scores = x ∷ xs in
      let tolerance = policy.tie_tolerance in
      let top = max_from fl x xs in
      let (top_finite, le, all) = max_from_bounds ieee x xs finite.0 finite.1 in
      let (i, attained) = max_from_attained ieee x xs in
      let tie = top-tied ieee top tolerance top_finite fo nonneg in
      let (k, rest, at, first) = tied_indices-first fl top tolerance 0 scores i top attained tie in
      let tied : tied_indices fl 0 top tolerance scores ≡ k ∷ rest =
        at ∙ ap (λ n. n ∷ rest) (omega arith) in
      let looked = lookup_all-tied_indices fl top tolerance [] policy.candidates scores len in
      let (ties, e1, h1) =
        >>=-eq-ok (lookup_all policy.candidates (tied_indices fl 0 top tolerance scores)) _ h in
      let (index, e2, h2) = >>=-eq-ok (first_index (tied_indices fl 0 top tolerance scores)) _ h1 in
      let (candidate, e3, h3) =
        >>=-eq-ok (or_raise (get_elem? policy.candidates index) index_error) _ h2 in
      let (agrees, h4) =
        guard-eq-ok
          (not (eqb_ℤ s.selected_candidate candidate)
            || (not (s.selected_index == index)
                || (not (feq s.decision_statistic top)
                    || not (equal_labels s.tied_candidates ties))))
          integrity_error _ h3 in
      let (same_candidate, rest1) =
        or-eq-false (not (eqb_ℤ s.selected_candidate candidate)) _ agrees in
      let (same_index, rest2) = or-eq-false (not (s.selected_index == index)) _ rest1 in
      let (same_statistic, same_ties) = or-eq-false (not (feq s.decision_statistic top)) _ rest2 in
      let index_is_k : index ≡ k =
        first_of index (tied_indices fl 0 top tolerance scores) tied e2 in
      let chosen : s.selected_index ≡ k = ground arith in
      let named : s.selected_candidate ≡ candidate =
        eq_of_parts s.selected_candidate candidate (ground arith) in
      subst (IsReselected s scores) (ok-injective h4) (record {
        attained = (i, attained);
        maximal = (le, all);
        statistic = not-eq-false _ same_statistic;
        first = subst (IsFirstTie fl top tolerance scores) (sym chosen) first;
        labelled =
            ap (get_elem? policy.candidates) (chosen ∙ sym index_is_k)
            ∙ or_raise-eq-ok _ _ e3
            ∙ ap some (sym named);
        ties =
            equal_labels-eq s.tied_candidates ties (not-eq-false _ same_ties)
            ∙ ok-injective (sym e1 ∙ looked);
      })
    where
      first_of :
          (index : ℕ) (tied : List ℕ) {k : ℕ} {rest : List ℕ}
          → tied ≡ k ∷ rest
          → first_index tied ≡ ok index
          → index ≡ k
      first_of index [] e f = cc
      first_of index (t ∷ ts) e f = cc

  -- The verifier computes what the selector computed, and finds it in the selection.
  pub verify_selection_lem :
      (s : SelectionResult Float) (scores : List Float) (later : List ℕ)
      → is_finite s.decision_statistic ≡ true
      → max_score fl scores ≡ ok s.decision_statistic
      → tied_indices fl 0 s.decision_statistic policy.tie_tolerance scores
        ≡ s.selected_index ∷ later
      → lookup_all policy.candidates (s.selected_index ∷ later) ≡ ok s.tied_candidates
      → get_elem? policy.candidates s.selected_index ≡ some s.selected_candidate
      → verify_selection fl s policy scores ≡ ok s.decision_statistic
  unfolding verify_selection
  verify_selection_lem s scores later finite top tied labels found =
      let le = ieee.le_refl s.decision_statistic finite in
      let same = ieee.le_antisym s.decision_statistic s.decision_statistic le le in
      let candidate : eqb_ℤ s.selected_candidate s.selected_candidate ≡ true = ground arith in
      let index : (s.selected_index == s.selected_index) ≡ true = ground arith in
      rw (top, tied, labels, found, candidate, index, same, equal_labels_refl s.tied_candidates)
