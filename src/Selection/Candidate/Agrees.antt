-- ===== src/Selection/Candidate/Agrees.antt =====
-- The two selectors on one family of raw results.
use selcal.Prelude.{
  ℕ, List, [], ◌∷◌, true, false, some, ◌≡◌, refl, sym, ◌∙◌, subst, arith, get_elem?, map,
}
use selcal.Prelude.Int.{ℤ, pos}
use selcal.Errors.{ok}
use selcal.Floats.{Float64, IsIeee}
use selcal.Floats.Order.{AllFinite}
use selcal.Candidates.{Ascending, IsCanonical, is_empty, any_not_positive}
use selcal.Contracts.{SelectionRule, StatisticResult, SelectionResult}
use selcal.Contracts.Laws.{normal}
use selcal.Selection.{any_not_increasing}
use selcal.Selection.Ties.{tied_of-Ascending}
use selcal.Selection.Family.{select_family_v2}
use selcal.Selection.Family.Spec.{RawFamily, result_score, with_score, IsFamilySelection}
use selcal.Selection.Family.Steps.{Ascending-checks, family-AllFinite, tied_indices-zero}
use selcal.Selection.Family.Laws.{
  lookup_all-first, selection_accepted, score-normal, IsComputed, select_family_v2-computes,
}
use selcal.Selection.Candidate.{finite_real, select_scored, select_candidate}
use selcal.Selection.Candidate.Steps.{score_candidates_raw, candidate_ids_raw}

module _ {fl : Float64} (ieee : IsIeee fl) where
  open fl use {Float, zero, is_finite, flt, fle, fsub, feq}

  AllFinite-get_elem :
      (xs : List Float) (i : ℕ) {x : Float}
      → AllFinite fl xs
      → get_elem? xs i ≡ some x
      → is_finite x ≡ true
  AllFinite-get_elem [] i h e = cc
  AllFinite-get_elem (y ∷ ys) ℕ.zero h e = ground (arith, h.0)
  AllFinite-get_elem (y ∷ ys) (ℕ.suc i) h e = AllFinite-get_elem ys i h.1 e

  normal-nonnegative :
      (t : Float) → is_finite t ≡ true → flt t zero ≡ false → flt (normal fl t) zero ≡ false
  normal-nonnegative t h k =
      ground (arith, ieee.zero_finite, ieee.le_refl zero, ieee.lt_not_le zero zero)

  canonical-Ascending : (cs : List ℤ) → IsCanonical cs → Ascending (pos 0) cs
  canonical-Ascending [] h = elim h [ ]
  canonical-Ascending (c ∷ cs) h = h

  -- The ties begin with the selected candidate.
  ties-selected :
      (rule : SelectionRule) (cs : List ℤ) (rs : List (StatisticResult Float)) (tolerance : Float)
      (family : SelectionResult Float) {scored : List (StatisticResult Float)}
      → IsCanonical cs
      → IsFamilySelection fl rule tolerance cs rs family scored
      → IsComputed ieee tolerance cs (map (result_score fl rule) rs) family
      → (rest : List ℤ) × (family.tied_candidates ≡ family.selected_candidate ∷ rest)
        × IsCanonical (family.selected_candidate ∷ rest)
  ties-selected rule cs rs tolerance family canonical right d =
      let (y, rest, at, shape) = lookup_all-first cs family.selected_index d.later_ties d.labels in
      let labelled = right.labelled in
      let named : family.tied_candidates ≡ family.selected_candidate ∷ rest = cc in
      let ascending =
        tied_of-Ascending fl family.decision_statistic tolerance (pos 0) cs
          (map (result_score fl rule) rs) (canonical-Ascending cs canonical) in
      (rest, named, subst (Ascending (pos 0)) (sym right.ties ∙ named) ascending)

  -- The second half on the same scores, given what the selector of families computed.
  select_scored_steps :
      (rule : SelectionRule) (cs : List ℤ) (rs : List (StatisticResult Float)) (tolerance : Float)
      (family : SelectionResult Float)
      → IsCanonical cs
      → RawFamily fl cs rs
      → IsFamilySelection fl rule tolerance cs rs family (map (with_score fl rule) rs)
      → (d : IsComputed ieee tolerance cs (map (result_score fl rule) rs) family) → (score : Float)
      → get_elem? (map (result_score fl rule) rs) family.selected_index ≡ some score
      → select_scored fl
          (normal fl tolerance)
          (map (result_score fl rule) rs)
          (map (with_score fl rule) rs)
        ≡ ok (record family { decision_statistic = score }, map (with_score fl rule) rs)
  unfolding select_scored
  select_scored_steps rule cs rs tolerance family canonical raw right d score found =
      let labels = (candidate_ids_raw ieee rule cs rs raw).1 in
      let tied =
        tied_indices-zero ieee 0 family.decision_statistic tolerance (map (result_score fl rule) rs)
        ∙ d.tied in
      let (rest, named, ordered) = ties-selected rule cs rs tolerance family canonical right d in
      let finite =
        AllFinite-get_elem (map (result_score fl rule) rs) family.selected_index
          (family-AllFinite ieee rule cs rs raw) found in
      let fixed = score-normal ieee rule rs family.selected_index score found in
      let accepted =
        selection_accepted ieee family.selected_candidate family.selected_index score rest ordered
          finite fixed in
      rw (d.maximum, tied, labels, right.labelled, found, d.labels, named, accepted) refl

  canonical-checks :
      (cs : List ℤ)
      → IsCanonical cs
      → (any_not_positive cs ≡ false) × (any_not_increasing cs ≡ false)
  canonical-checks cs h = Ascending-checks (pos 0) cs refl (canonical-Ascending cs h)

  family_not_empty :
      (cs : List ℤ) (rs : List (StatisticResult Float))
      → IsCanonical cs
      → RawFamily fl cs rs
      → is_empty rs ≡ false
  family_not_empty [] rs h raw = elim h [ ]
  family_not_empty (c ∷ cs) [] h raw = elim raw [ ]
  family_not_empty (c ∷ cs) (r ∷ rs) h raw = refl

  -- On canonical candidates with one valid raw result each and a finite tolerance of zero or
  -- more, both selectors return, and select the same candidate with the same ties and the same
  -- scored results. The decision statistic of `select_candidate` is the score of the candidate,
  -- within the tolerance of the family maximum that `select_family_v2` returns.
  pub select_candidate-agrees :
      (rule : SelectionRule) (cs : List ℤ) (rs : List (StatisticResult Float)) (tolerance : Float)
      → IsCanonical cs
      → RawFamily fl cs rs
      → is_finite tolerance ≡ true
      → flt tolerance zero ≡ false
      → (family : SelectionResult Float) × (scored : List (StatisticResult Float)) × (score : Float)
        × (select_family_v2 fl rs cs rule tolerance ≡ ok (family, scored))
        × (select_candidate fl rs rule tolerance
            ≡ ok (record family { decision_statistic = score }, scored))
        × (get_elem? (map (result_score fl rule) rs) family.selected_index ≡ some score)
        × (fle (fsub family.decision_statistic score) tolerance ≡ true)
  unfolding select_candidate finite_real
  select_candidate-agrees rule cs rs tolerance canonical raw finite nonneg =
      let (family, scored, run, right, d) =
        select_family_v2-computes ieee rule cs rs tolerance canonical raw finite nonneg in
      let same = right.scores in
      let whole = subst (IsFamilySelection fl rule tolerance cs rs family) same right in
      let selected =
        select_scored_steps rule cs rs tolerance family canonical raw whole d right.first.score
          right.first.found in
      let ids = (candidate_ids_raw ieee rule cs rs raw).0 in
      let scoring = score_candidates_raw ieee rule cs rs raw in
      let (positive, increasing) = canonical-checks cs canonical in
      (
        family,
        scored,
        right.first.score,
        run,
        rw
            (
              finite,
              normal-nonnegative tolerance finite nonneg,
              family_not_empty cs rs canonical raw,
              ids,
              positive,
              increasing,
              scoring,
              selected,
              same,
            )
            refl,
        right.first.found,
        right.first.tied,
      )
