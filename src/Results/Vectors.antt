-- ===== src/Results/Vectors.antt =====
-- What an accepted result vector states.
use selcal.Prelude.{
  List, [], ◌∷◌, true, false, not, Option, some, ◌≡◌, sym, ap, ◌∙◌, length, get_elem?, leb,
}
use selcal.Prelude.Int.{ℤ, eqb_ℤ}
use selcal.Errors.{
  ok, integrity_error, index_error, or_raise, on_value_error, >>=-eq-ok, guard-eq-ok,
  or_raise-eq-ok, ok-injective,
}
use selcal.Floats.{Float64}
use selcal.Candidates.{canonical_candidates}
use selcal.Contracts.{StatisticResult, SelectionResult}
use selcal.Selection.{max_score}
use selcal.Nulls.Token.{is_subset, equal_labels}
use selcal.Results.{
  any_unscored, candidate_ids, min_label, present_scores, require_statistic_vector,
  validate_complete_scored_vector,
}

module _ (fl : Float64) where
  open fl use {Float, feq}

  pub validate_complete_scored_vector-selection :
      (rs : List (StatisticResult Float)) (selection : Option (SelectionResult Float))
      {v : List ℤ × SelectionResult Float}
      → validate_complete_scored_vector fl rs selection ≡ ok v
      → selection ≡ some v.1
  unfolding validate_complete_scored_vector
  validate_complete_scored_vector-selection rs selection {v} h =
      let (results, h0, h1) = >>=-eq-ok (require_statistic_vector fl false rs) _ h in
      let (scored, h2) = guard-eq-ok (any_unscored fl results) integrity_error _ h1 in
      let (s, chosen, h3) = >>=-eq-ok (or_raise selection integrity_error) _ h2 in
      let (inside, h4) = guard-eq-ok (leb (length results) s.selected_index) integrity_error _ h3 in
      let (selected, at, h5) =
        >>=-eq-ok (or_raise (get_elem? (candidate_ids fl results) s.selected_index) index_error) _
          h4 in
      let (same, h6) =
        guard-eq-ok (not (eqb_ℤ selected s.selected_candidate)) integrity_error _ h5 in
      let (subset, h7) =
        guard-eq-ok (not (is_subset s.tied_candidates (candidate_ids fl results))) integrity_error _
          h6 in
      let (label, least, h8) = >>=-eq-ok (min_label s.tied_candidates) _ h7 in
      let (named, h9) = guard-eq-ok (not (eqb_ℤ s.selected_candidate label)) integrity_error _ h8 in
      let (top, max, h10) = >>=-eq-ok (max_score fl (present_scores fl results)) _ h9 in
      let (reached, h11) = guard-eq-ok (not (feq s.decision_statistic top)) integrity_error _ h10 in
      second s (or_raise-eq-ok selection integrity_error chosen) (ok-injective h11)
    where
      second :
          {ids : List ℤ} (s : SelectionResult Float) {o : Option (SelectionResult Float)}
          {w : List ℤ × SelectionResult Float}
          → o ≡ some s
          → (ids, s) ≡ w
          → o ≡ some w.1
      second s e f = e ∙ ap (λ q. some q.1) f

  -- An accepted vector is the given one, and is accepted also where an empty one would be.
  pub require_statistic_vector-same :
      (rs : List (StatisticResult Float)) {vs : List (StatisticResult Float)}
      → require_statistic_vector fl false rs ≡ ok vs
      → (vs ≡ rs) × (require_statistic_vector fl true rs ≡ ok rs)
  unfolding require_statistic_vector
  require_statistic_vector-same [] h = cc
  require_statistic_vector-same (x ∷ xs) {vs} h =
      let rs = x ∷ xs in
      let (ids, canonical, h1) =
        >>=-eq-ok (on_value_error integrity_error (canonical_candidates (candidate_ids fl rs))) _
          h in
      let (same, h2) =
        guard-eq-ok (not (equal_labels (candidate_ids fl rs) ids)) integrity_error _ h1 in
      (sym (ok-injective h2), rw (canonical, same))
