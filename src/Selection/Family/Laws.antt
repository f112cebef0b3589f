-- ===== src/Selection/Family/Laws.antt =====
-- `select_family_v2` keeps its promise on every complete family of raw results.
use selcal.Prelude.{
  ℕ, zero, suc, List, [], ◌∷◌, true, false, some, ◌≡◌, refl, sym, ◌∙◌, ap, arith, get_elem?, map,
  length, ◌==◌,
}
use selcal.Prelude.Int.{ℤ, pos, ◌<ℤ◌}
use selcal.Errors.{ok, index_error, or_raise, >>=-eq-ok, or_raise-eq-ok}
use selcal.Floats.{Float64, IsIeee}
use selcal.Floats.Order.{max_from, max_from_bounds, max_from_attained}
use selcal.Candidates.{IsCanonical, contains}
use selcal.Candidates.Laws.{canonical_candidates_fixed}
use selcal.Contracts.{
  SelectionRule, StatisticResult, SelectionResult, selection_result, canonical_candidate,
}
use selcal.Contracts.Laws.{
  normal, normal-normal, canonical_candidate_lem, validated_finite_real_lem,
}
use selcal.Arrays.{lookup_all}
use selcal.Selection.{max_score, score_of, tied_indices}
use selcal.Selection.Ties.{tied_indices-first, lookup_all-tied_indices, tied_of-Ascending}
use selcal.Selection.Family.{exact_candidates, score_family, replace_scores, select_family_v2}
use selcal.Selection.Family.Spec.{
  RawFamily, value_or_zero, result_score, with_score, IsFamilySelection,
}
use selcal.Selection.Family.Steps.{
  exact_candidates_canonical, score_family_raw, replace_scores_raw, family-length, family-AllFinite,
  tied_indices-zero,
}

-- The first label of a lookup that succeeds.
pub lookup_all-first {ℓ} :
    {A : Type ℓ} (xs : List A) (i : ℕ) (is : List ℕ) {ys : List A}
    → lookup_all xs (i ∷ is) ≡ ok ys
    → (y : A) × (rest : List A) × (get_elem? xs i ≡ some y) × (ys ≡ y ∷ rest)
unfolding lookup_all
lookup_all-first xs i is e =
    let (y, found, after) = >>=-eq-ok (or_raise (get_elem? xs i) index_error) _ e in
    let (rest, _, last) = >>=-eq-ok (lookup_all xs is) _ after in
    (y, rest, or_raise-eq-ok _ _ found, cc last)

canonical_candidate_pos : (c : ℤ) → pos 0 <ℤ c → canonical_candidate c ≡ ok c
canonical_candidate_pos c h = ground (arith, canonical_candidate_lem c)

module _ {fl : Float64} (ieee : IsIeee fl) where
  open fl use {Float, is_finite, flt, fle, fsub}

  -- The selection record is accepted as it was built.
  pub selection_accepted :
      (c : ℤ) (k : ℕ) (top : Float) (rest : List ℤ)
      → IsCanonical (c ∷ rest)
      → is_finite top ≡ true
      → normal fl top ≡ top
      → let selection : SelectionResult Float = record {
        selected_candidate = c;
        selected_index = k;
        decision_statistic = top;
        tied_candidates = c ∷ rest;
      } in
        selection_result fl selection ≡ ok selection
  unfolding selection_result contains
  selection_accepted c k top rest h finite fixed =
      rw
        (
          canonical_candidate_pos c h.0,
          validated_finite_real_lem fl top finite,
          (canonical_candidates_fixed (c ∷ rest)).1 h,
          fixed,
        )
        (ground arith)

  -- The attained maximum is a score, so it carries no negative zero.
  pub score-normal :
      (rule : SelectionRule) (rs : List (StatisticResult Float)) (i : ℕ) (top : Float)
      → get_elem? (map (result_score fl rule) rs) i ≡ some top
      → normal fl top ≡ top
  score-normal rule [] i top e = cc
  score-normal rule (r ∷ rs) zero top e =
      let same : result_score fl rule r ≡ top = cc in
      rw (← same) (normal-normal fl (score_of fl rule (value_or_zero fl r.estimate)))
  score-normal rule (r ∷ rs) (suc i) top e = score-normal rule rs i top e

  -- The top score ties with itself.
  pub top-tied :
      (top tolerance : Float)
      → is_finite top ≡ true
      → is_finite tolerance ≡ true
      → flt tolerance fl.zero ≡ false
      → fle (fsub top top) tolerance ≡ true
  top-tied top tolerance ft fo nonneg = ground (
    arith,
    ieee.sub_self top ft,
    ieee.lt_not_le tolerance fl.zero fo ieee.zero_finite,
    ieee.le_trans (fsub top top) fl.zero tolerance,
  )

  -- The steps in a row: each has succeeded with the value that the next one takes.
  select_family_v2-steps :
      (rule : SelectionRule) (cs : List ℤ) (rs scored : List (StatisticResult Float))
      (tolerance top : Float) (scores : List Float) (k : ℕ) (rest : List ℕ) (c : ℤ) (ties : List ℤ)
      (selection : SelectionResult Float)
      → exact_candidates cs ≡ ok cs
      → is_finite tolerance ≡ true
      → flt tolerance fl.zero ≡ false
      → length rs ≡ length cs
      → score_family fl rule cs rs ≡ ok scores
      → max_score fl scores ≡ ok top
      → tied_indices fl 0 top tolerance scores ≡ k ∷ rest
      → replace_scores fl rs scores ≡ ok scored
      → get_elem? cs k ≡ some c
      → lookup_all cs (k ∷ rest) ≡ ok ties
      → selection_result fl (record {
        selected_candidate = c;
        selected_index = k;
        decision_statistic = top;
        tied_candidates = ties;
      })
        ≡ ok selection
      → select_family_v2 fl rs cs rule tolerance ≡ ok (selection, scored)
  unfolding select_family_v2
  select_family_v2-steps rule cs rs scored t top scores k rest c ties sel e1 e2 e3 e4 e5 e6 e7 e8 e9
        e10 e11 =
      let same_length : (length rs == length cs) ≡ true = ground arith in
      let tied = tied_indices-zero ieee 0 top t scores ∙ e7 in
      rw (e1, e2, e3, same_length, e5, e6, tied, e8, e9, e10, e11)

  -- What the steps of the selector computed on the way to a selection from the scores.
  pub record IsComputed (tolerance : Float) (cs : List ℤ) (scores : List Float)
      (selection : SelectionResult Float) : Type 0 where
    pub maximum : max_score fl scores ≡ ok selection.decision_statistic
    pub later_ties : List ℕ
    pub tied :
        tied_indices fl 0 selection.decision_statistic tolerance scores
        ≡ selection.selected_index ∷ later_ties
    pub labels :
        lookup_all cs (selection.selected_index ∷ later_ties) ≡ ok selection.tied_candidates

  pub select_family_v2-computes :
      (rule : SelectionRule) (cs : List ℤ) (rs : List (StatisticResult Float)) (tolerance : Float)
      → IsCanonical cs
      → RawFamily fl cs rs
      → is_finite tolerance ≡ true
      → flt tolerance fl.zero ≡ false
      → (selection : SelectionResult Float) × (scored : List (StatisticResult Float))
        × (select_family_v2 fl rs cs rule tolerance ≡ ok (selection, scored))
        × IsFamilySelection fl rule tolerance cs rs selection scored
        × IsComputed tolerance cs (map (result_score fl rule) rs) selection
  unfolding max_score
  select_family_v2-computes rule [] rs tolerance h raw fo nonneg = elim h [ ]
  select_family_v2-computes rule (c ∷ cs) [] tolerance h raw fo nonneg = elim raw [ ]
  select_family_v2-computes rule (c ∷ cs) (r ∷ rs) tolerance h raw fo nonneg =
      let s0 = result_score fl rule r in
      let ss = map (result_score fl rule) rs in
      let finite = family-AllFinite ieee rule (c ∷ cs) (r ∷ rs) raw in
      let top = max_from fl s0 ss in
      let (top_finite, le, all) = max_from_bounds ieee s0 ss finite.0 finite.1 in
      let (i, attained) = max_from_attained ieee s0 ss in
      let tie = top-tied top tolerance top_finite fo nonneg in
      let (k, rest, at, first) =
        tied_indices-first fl top tolerance 0 (s0 ∷ ss) i top attained tie in
      let tied : tied_indices fl 0 top tolerance (s0 ∷ ss) ≡ k ∷ rest =
        at ∙ ap (λ n. n ∷ rest) (omega arith) in
      let (len, len') = family-length ieee rule (c ∷ cs) (r ∷ rs) raw in
      let looked = lookup_all-tied_indices fl top tolerance [] (c ∷ cs) (s0 ∷ ss) len' in
      let looked' = rw tied at looked in
      let (y, ys, found, shape) = lookup_all-first (c ∷ cs) k rest looked' in
      let canonical =
        rw shape at (tied_of-Ascending fl top tolerance (pos 0) (c ∷ cs) (s0 ∷ ss) h) in
      let fixed = score-normal rule (r ∷ rs) i top attained in
      (
        record {
          selected_candidate = y;
          selected_index = k;
          decision_statistic = top;
          tied_candidates = y ∷ ys;
        },
        map (with_score fl rule) (r ∷ rs),
        select_family_v2-steps rule (c ∷ cs) (r ∷ rs) (map (with_score fl rule) (r ∷ rs)) tolerance
            top (s0 ∷ ss) k rest y (y ∷ ys) _ (exact_candidates_canonical (c ∷ cs) h) fo nonneg len
            (score_family_raw ieee rule (c ∷ cs) (r ∷ rs) raw) refl tied
            (replace_scores_raw ieee rule (c ∷ cs) (r ∷ rs) raw) found (looked' ∙ ap ok shape)
            (selection_accepted y k top ys canonical top_finite fixed),
        record {
          attained = (i, attained);
          maximal = (le, all);
          first = first;
          labelled = found;
          ties = sym shape;
          scores = refl;
        },
        record { maximum = refl; later_ties = rest; tied = tied; labels = looked' ∙ ap ok shape },
      )

  -- On canonical candidates with one valid raw result each and a finite tolerance of zero or
  -- more, `select_family_v2` raises nothing. It returns the family maximum as the decision
  -- statistic, the first candidate within the tolerance of it as the label, all candidates
  -- within the tolerance in order as the ties, and the results with their scores.
  pub select_family_v2-selects :
      (rule : SelectionRule) (cs : List ℤ) (rs : List (StatisticResult Float)) (tolerance : Float)
      → IsCanonical cs
      → RawFamily fl cs rs
      → is_finite tolerance ≡ true
      → flt tolerance fl.zero ≡ false
      → (selection : SelectionResult Float) × (scored : List (StatisticResult Float))
        × (select_family_v2 fl rs cs rule tolerance ≡ ok (selection, scored))
        × IsFamilySelection fl rule tolerance cs rs selection scored
  select_family_v2-selects rule cs rs tolerance h raw fo nonneg =
      let (selection, scored, run, right, _) =
        select_family_v2-computes rule cs rs tolerance h raw fo nonneg in
      (selection, scored, run, right)
