-- ===== src/Verifier/Vector.antt =====
-- What a verified result vector is, stated without the loops of the verifier.
use mathlib.Core.List.{append_assoc, append-nil}
use text.Mathlib.Text.{◌==◌ as text_eq}
use selcal.Prelude.{
  ℕ, ◌≤◌, List, [], ◌∷◌, ◌++◌, true, false, not, ◌||◌, Option, none, some, ◌≡◌, refl, sym, ap,
  subst, ◌∙◌, arith, map, or-eq-false, not-eq-false,
}
use selcal.Prelude.Int.{ℤ, pos, ltb_ℤ, eqb_ℤ, eq_of_parts}
use selcal.Errors.{ok, integrity_error, >>=-eq-ok, guard-eq-ok, ok-injective}
use selcal.Floats.{Float64}
use selcal.Contracts.{Validity, valid, analytic_failure, StatisticResult}
use selcal.Selection.Family.{is_some}
use selcal.Selection.Family.Spec.{result_score}
use selcal.Results.Run.{not_equal}
use selcal.Verifier.{
  VectorVerificationPolicy, other_support, read_statistic, valid_score, score_complete_item,
  complete_loop,
}

-- The support that the loop knows after the items
abbrev pub last_support : {F : Type 0} → Option ℤ → ℤ → List (StatisticResult F) → Option ℤ
last_support support n [] = support
last_support support n (item ∷ items) = some n

last_support_known :
    {F : Type 0} {m n : ℤ} (items : List (StatisticResult F))
    → m ≡ n
    → last_support (some m) n items ≡ some n
last_support_known [] e = ap some e
last_support_known (item ∷ items) e = refl

pub eqb_ℤ-eq : (a b : ℤ) → not (eqb_ℤ a b) ≡ false → a ≡ b
eqb_ℤ-eq a b h = eq_of_parts a b (ground arith)

pub eqb_refl : (a : ℤ) → eqb_ℤ a a ≡ true
eqb_refl a = ground arith

module _ (fl : Float64) (policy : VectorVerificationPolicy fl.Float) where
  open fl use {Float, is_finite}

  -- The item is for the candidate, has the support `n` and was made by the policy's backend.
  pub record IsRead (n c : ℤ) (item : StatisticResult Float) : Type 0 where
    pub named : item.candidate_id ≡ c
    pub positive : ltb_ℤ item.support_n (pos 1) ≡ false
    pub supported : item.support_n ≡ n
    pub backend : text_eq item.backend_identity policy.backend_identity ≡ true
    pub preprocessing : text_eq item.preprocessing_identity policy.preprocessing_identity ≡ true

  -- The item has a finite estimate.
  pub record IsEstimated (item : StatisticResult Float) : Type 0 where
    pub estimate : Float
    pub estimated : item.estimate ≡ some estimate
    pub finite : is_finite estimate ≡ true

  -- The item carries the score that the policy's rule gives its estimate.
  pub record IsScored (item : StatisticResult Float) : Type 0 where
    pub is_valid : item.validity ≡ valid
    pub estimate : IsEstimated item
    pub scored :
        not_equal fl item.selection_score (result_score fl policy.selection_rule item) ≡ false

  -- One scored item for each candidate, in the order of the candidates, on one support.
  abbrev pub ScoredFamily : ℤ → List ℤ → List (StatisticResult Float) → Type 0
  ScoredFamily n [] [] = Unit
  ScoredFamily n [] (item ∷ items) = ⊥
  ScoredFamily n (c ∷ cs) [] = ⊥
  ScoredFamily n (c ∷ cs) (item ∷ items) = IsRead n c item × IsScored item × ScoredFamily n cs items

  read_statistic-reads :
      (item : StatisticResult Float) (c : ℤ) (support : Option ℤ) {v : StatisticResult Float}
      → read_statistic fl item c support policy ≡ ok v
      → (v ≡ item) × IsRead item.support_n c item × (other_support support item.support_n ≡ false)
  unfolding read_statistic
  read_statistic-reads item c support h =
      let (named, h1) = guard-eq-ok (not (eqb_ℤ item.candidate_id c)) integrity_error _ h in
      let (positive, h2) = guard-eq-ok (ltb_ℤ item.support_n (pos 1)) integrity_error _ h1 in
      let (common, h3) = guard-eq-ok (other_support support item.support_n) integrity_error _ h2 in
      let (made, h4) =
        guard-eq-ok
          (not (text_eq item.backend_identity policy.backend_identity)
            || not (text_eq item.preprocessing_identity policy.preprocessing_identity))
          integrity_error _ h3 in
      let (backend, preprocessing) =
        or-eq-false (not (text_eq item.backend_identity policy.backend_identity))
          (not (text_eq item.preprocessing_identity policy.preprocessing_identity)) made in
      (
        sym (ok-injective h4),
        record {
          named = eqb_ℤ-eq item.candidate_id c named;
          positive = positive;
          supported = refl;
          backend = not-eq-false _ backend;
          preprocessing = not-eq-false _ preprocessing;
        },
        common,
      )

  pub read_statistic_lem :
      (n c : ℤ) (item : StatisticResult Float) (support : Option ℤ)
      → IsRead n c item
      → other_support support item.support_n ≡ false
      → read_statistic fl item c support policy ≡ ok item
  unfolding read_statistic
  read_statistic_lem n c item support r common =
      let same : eqb_ℤ item.candidate_id c ≡ true = rw r.named (eqb_refl c) in
      rw (same, r.positive, common, r.backend, r.preprocessing)

  valid_score-scores :
      (item : StatisticResult Float) {score : Float}
      → valid_score fl item.estimate policy ≡ ok score
      → IsEstimated item × (score ≡ result_score fl policy.selection_rule item)
  unfolding valid_score
  valid_score-scores item h = by_estimate item.estimate refl h
    where
      by_estimate :
          (e : Option Float) {score : Float}
          → item.estimate ≡ e
          → valid_score fl e policy ≡ ok score
          → IsEstimated item × (score ≡ result_score fl policy.selection_rule item)
      by_estimate none same k = cc
      by_estimate (some x) same k =
          let (finite, k1) = guard-eq-ok (not (is_finite x)) integrity_error _ k in
          (
            record { estimate = x; estimated = same; finite = not-eq-false _ finite },
            rw same (sym (ok-injective k1)),
          )

  pub valid_score_lem :
      (item : StatisticResult Float)
      → IsEstimated item
      → valid_score fl item.estimate policy ≡ ok (result_score fl policy.selection_rule item)
  unfolding valid_score
  valid_score_lem item e = rw (e.estimated, e.finite)

  -- One round leaves the scores and the count as they were, but for one of the two.
  score_complete_item-cases :
      (item : StatisticResult Float) (scores : List Float) (f : ℕ) {counted : List Float × ℕ}
      → score_complete_item fl item.validity item policy scores f ≡ ok counted
      → (f ≤ counted.1)
        × (counted.1 ≡ f
            → IsScored item
              × (counted.0 ≡ scores ++ result_score fl policy.selection_rule item ∷ []))
  unfolding score_complete_item
  score_complete_item-cases item scores f h = by_validity item.validity refl h
    where
      by_validity :
          (v : Validity) {counted : List Float × ℕ}
          → item.validity ≡ v
          → score_complete_item fl v item policy scores f ≡ ok counted
          → (f ≤ counted.1)
            × (counted.1 ≡ f
                → IsScored item
                  × (counted.0 ≡ scores ++ result_score fl policy.selection_rule item ∷ []))
      by_validity analytic_failure same k =
          let (raw, k1) =
            guard-eq-ok (is_some item.estimate || is_some item.selection_score) integrity_error _
              k in
          let grown = ap (λ (q : List Float × ℕ). q.1) (ok-injective k1) in
          (omega (arith, grown), λ e. absurd (omega (arith, grown)))
      by_validity valid same k =
          let (score, computed, k1) = >>=-eq-ok (valid_score fl item.estimate policy) _ k in
          let (estimate, right) = valid_score-scores item computed in
          let (scored, k2) =
            guard-eq-ok (not_equal fl item.selection_score score) integrity_error _ k1 in
          let kept = ap (λ (q : List Float × ℕ). q.1) (ok-injective k2) in
          (
            omega (arith, kept),
            λ e. (
              record {
                is_valid = same;
                estimate = estimate;
                scored = subst (λ s. not_equal fl item.selection_score s ≡ false) right scored;
              },
              sym (ap (λ (q : List Float × ℕ). q.0) (ok-injective k2))
                  ∙ ap (λ s. scores ++ s ∷ []) right,
            ),
          )

  complete_loop-counts :
      (cs : List ℤ) (items : List (StatisticResult Float)) (support : Option ℤ)
      (scores : List Float) (f : ℕ) {end : Option ℤ × List Float × ℕ}
      → complete_loop fl policy cs items support scores f ≡ ok end
      → f ≤ end.2
  unfolding complete_loop
  complete_loop-counts [] [] support scores f h =
      omega (arith, ap (λ (q : Option ℤ × List Float × ℕ). q.2) (ok-injective h))
  complete_loop-counts [] (item ∷ items) support scores f h = cc
  complete_loop-counts (c ∷ cs) [] support scores f h = cc
  complete_loop-counts (c ∷ cs) (item ∷ items) support scores f h =
      let (values, read, h1) = >>=-eq-ok (read_statistic fl item c support policy) _ h in
      let (counted, one, h2) =
        >>=-eq-ok (score_complete_item fl values.validity values policy scores f) _ h1 in
      omega (
        arith,
        (score_complete_item-cases values scores f one).0,
        complete_loop-counts cs items (some values.support_n) counted.0 counted.1 h2,
      )

  -- A loop that ends with no more failures than it began with has read a scored family.
  pub complete_loop-family :
      (cs : List ℤ) (items : List (StatisticResult Float)) (n : ℤ) (scores : List Float) (f : ℕ)
      {end : Option ℤ × List Float × ℕ}
      → complete_loop fl policy cs items (some n) scores f ≡ ok end
      → end.2 ≡ f
      → (end.0 ≡ some n)
        × ScoredFamily n cs items
        × (end.1 ≡ scores ++ map (result_score fl policy.selection_rule) items)
  unfolding complete_loop
  complete_loop-family [] [] n scores f h same = (
    sym (ap (λ (q : Option ℤ × List Float × ℕ). q.0) (ok-injective h)),
    tt,
    sym (ap (λ (q : Option ℤ × List Float × ℕ). q.1) (ok-injective h)) ∙ sym (append-nil scores),
  )
  complete_loop-family [] (item ∷ items) n scores f h same = cc
  complete_loop-family (c ∷ cs) [] n scores f h same = cc
  complete_loop-family (c ∷ cs) (item ∷ items) n scores f h same =
      let (values, read, h1) = >>=-eq-ok (read_statistic fl item c (some n) policy) _ h in
      let (counted, one, h2) =
        >>=-eq-ok (score_complete_item fl values.validity values policy scores f) _ h1 in
      let (value_is_item, r, common) = read_statistic-reads item c (some n) read in
      let (grows, scored) = score_complete_item-cases values scores f one in
      let grew = complete_loop-counts cs items (some values.support_n) counted.0 counted.1 h2 in
      let still : counted.1 ≡ f = omega arith in
      let (is_scored, appended) = scored still in
      let support : values.support_n ≡ n =
        ap (λ (q : StatisticResult Float). q.support_n) value_is_item
        ∙ eqb_ℤ-eq item.support_n n common in
      let (ended, family, all) =
        complete_loop-family cs items values.support_n counted.0 counted.1 h2 (omega arith) in
      (
        ended ∙ ap some support,
        (
          subst (λ k. IsRead k c item) (eqb_ℤ-eq item.support_n n common) r,
          subst IsScored value_is_item is_scored,
          subst (λ k. ScoredFamily k cs items) support family,
        ),
        all
            ∙ ap (λ s. s ++ map (result_score fl policy.selection_rule) items)
                (appended
                  ∙ ap
                      (λ (q : StatisticResult Float).
                        scores ++ result_score fl policy.selection_rule q ∷ [])
                      value_is_item)
            ∙ append_assoc scores (result_score fl policy.selection_rule item ∷ [])
                (map (result_score fl policy.selection_rule) items),
      )

  -- A scored family passes the loop.
  pub complete_loop_lem :
      (cs : List ℤ) (items : List (StatisticResult Float)) (n : ℤ) (support : Option ℤ)
      (scores : List Float) (f : ℕ)
      → other_support support n ≡ false
      → ScoredFamily n cs items
      → complete_loop fl policy cs items support scores f
        ≡ ok (
          last_support support n items,
          scores ++ map (result_score fl policy.selection_rule) items,
          f,
        )
  unfolding complete_loop score_complete_item
  complete_loop_lem [] [] n support scores f common family = rw (append-nil scores)
  complete_loop_lem [] (item ∷ items) n support scores f common family = elim family [ ]
  complete_loop_lem (c ∷ cs) [] n support scores f common family = elim family [ ]
  complete_loop_lem (c ∷ cs) (item ∷ items) n support scores f common (r, s, family) =
      let score = result_score fl policy.selection_rule item in
      let same = subst (λ k. other_support support k ≡ false) (sym r.supported) common in
      rw
        (
          read_statistic_lem n c item support r same,
          s.is_valid,
          valid_score_lem item s.estimate,
          s.scored,
        )
        (complete_loop_lem cs items n (some item.support_n) (scores ++ score ∷ []) f
            (rw r.supported (rw (eqb_refl n))) family
          ∙ rw (
            last_support_known items r.supported,
            append_assoc scores (score ∷ []) (map (result_score fl policy.selection_rule) items),
          ))
