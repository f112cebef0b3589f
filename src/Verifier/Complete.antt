-- ===== src/Verifier/Complete.antt =====
-- `verify_complete_vector` against the selector: what it accepts, and that it accepts what
-- `select_family_v2` returns.
use text.Mathlib.Text.{◌==◌ as text_eq}
use selcal.Prelude.{
  ℕ, List, [], ◌∷◌, true, false, not, ◌||◌, Option, none, some, ◌≡◌, refl, sym, ap, ◌∙◌, subst,
  arith, length, map, length-map, ◌==◌, or-eq-false, not-eq-false, some-injective, get_elem?, zero,
  suc,
}
use selcal.Prelude.Int.{ℤ}
use selcal.Errors.{
  ok, integrity_error, assertion_error, or_raise, >>=-eq-ok, guard-eq-ok, or_raise-eq-ok,
  ok-injective,
}
use selcal.Floats.{Float64, IsIeee}
use selcal.Floats.Order.{AllFinite}
use selcal.Candidates.{IsCanonical}
use selcal.Contracts.{StatisticResult, SelectionResult}
use selcal.Contracts.Laws.{statistic_result_checks}
use selcal.Selection.Family.{select_family_v2}
use selcal.Selection.Family.Spec.{IsRaw, RawFamily, result_score, with_score}
use selcal.Selection.Family.Steps.{score-finite, family-AllFinite, family-length}
use selcal.Selection.Family.Laws.{select_family_v2-computes}
use selcal.Verifier.{
  VectorVerificationPolicy, VerifiedVectorEvidence, known_support, read_statistic, vector_shape,
  complete_loop, verify_complete_vector, verify_selection,
}
use selcal.Verifier.Vector.{
  eqb_refl, last_support, IsScored, ScoredFamily, complete_loop-family, complete_loop_lem,
}
use selcal.Verifier.Selected.{IsReselected, verify_selection-reselects, verify_selection_lem}

module _ {fl : Float64} (ieee : IsIeee fl) (policy : VectorVerificationPolicy fl.Float) where
  open fl use {Float, is_finite, flt}

  abbrev pub score : StatisticResult Float → Float
  score = result_score fl policy.selection_rule

  -- The first item may have any support; it is then that of all.
  complete_loop-none :
      (c : ℤ) (cs : List ℤ) (item : StatisticResult Float) (items : List (StatisticResult Float))
      (scores : List Float) (f : ℕ)
      → complete_loop fl policy (c ∷ cs) (item ∷ items) none scores f
        ≡ complete_loop fl policy (c ∷ cs) (item ∷ items) (some item.support_n) scores f
  unfolding complete_loop read_statistic
  complete_loop-none c cs item items scores f = rw (eqb_refl item.support_n)

  complete_loop-start :
      (cs : List ℤ) (items : List (StatisticResult Float)) (n : ℤ) {end : Option ℤ × List Float × ℕ}
      → complete_loop fl policy cs items none [] 0 ≡ ok end
      → end.0 ≡ some n
      → end.2 ≡ 0
      → ScoredFamily fl policy n cs items × (end.1 ≡ map score items)
  complete_loop-start [] [] n h known clean = unfold complete_loop in cc
  complete_loop-start [] (item ∷ items) n h known clean = unfold complete_loop in cc
  complete_loop-start (c ∷ cs) [] n h known clean = unfold complete_loop in cc
  complete_loop-start (c ∷ cs) (item ∷ items) n h known clean =
      let (support, family, scores) =
        complete_loop-family fl policy (c ∷ cs) (item ∷ items) item.support_n [] 0
          (sym (complete_loop-none c cs item items [] 0) ∙ h) clean in
      let same : item.support_n ≡ n = cc in
      (subst (λ k. ScoredFamily fl policy k (c ∷ cs) (item ∷ items)) same family, scores)

  family-finite :
      (n : ℤ) (cs : List ℤ) (items : List (StatisticResult Float))
      → ScoredFamily fl policy n cs items
      → AllFinite fl (map score items)
  family-finite n [] [] h = tt
  family-finite n [] (item ∷ items) h = elim h [ ]
  family-finite n (c ∷ cs) [] h = elim h [ ]
  family-finite n (c ∷ cs) (item ∷ items) (r, s, h) = (
    rw s.estimate.estimated
        (score-finite ieee policy.selection_rule s.estimate.estimate s.estimate.finite),
    family-finite n cs items h,
  )

  -- Whatever complete vector the verifier accepts under a finite tolerance of zero or more is a
  -- scored family: each item is for its candidate, valid, with a finite estimate, the score of the
  -- policy's rule and the policy's identities, on one support. The selection is there, and names the
  -- first candidate within the tolerance of the top score with all such candidates; the evidence
  -- has that support, that top score and no failure.
  pub verify_complete_vector-reselects :
      (vector : List (StatisticResult Float)) (selection : Option (SelectionResult Float))
      {evidence : VerifiedVectorEvidence Float}
      → is_finite policy.tie_tolerance ≡ true
      → flt policy.tie_tolerance fl.zero ≡ false
      → verify_complete_vector fl vector selection policy ≡ ok evidence
      → (s : SelectionResult Float) × (top : Float) × (selection ≡ some s)
        × ScoredFamily fl policy evidence.support_n policy.candidates vector
        × IsReselected ieee policy s (map score vector) top
        × (evidence.decision_statistic ≡ some top)
        × (evidence.analytic_failure_count ≡ 0)
  unfolding verify_complete_vector vector_shape
  verify_complete_vector-reselects vector selection fo nonneg h =
      let (exact, shaped, h0) = >>=-eq-ok (vector_shape fl vector policy) _ h in
      let (size, h1) =
        guard-eq-ok (not (length vector == length policy.candidates)) integrity_error _ shaped in
      let (seen, looped, h2) =
        >>=-eq-ok (complete_loop fl policy policy.candidates exact none [] 0) _ h0 in
      let (support, known, h3) = >>=-eq-ok (known_support seen.0) _ h2 in
      let (clean, h4) =
        guard-eq-ok (not (seen.2 == 0) || not (length seen.1 == length policy.candidates))
          integrity_error _ h3 in
      let (s, chosen, h5) = >>=-eq-ok (or_raise selection integrity_error) _ h4 in
      let (top, selected, h6) = >>=-eq-ok (verify_selection fl s policy seen.1) _ h5 in
      let (no_failure, all) = or-eq-false (not (seen.2 == 0)) _ clean in
      let start : complete_loop fl policy policy.candidates vector none [] 0 ≡ ok seen =
        subst (λ v. complete_loop fl policy policy.candidates v none [] 0 ≡ ok seen)
          (sym (ok-injective h1)) looped in
      let (family, scores) =
        complete_loop-start policy.candidates vector support start
          (or_raise-eq-ok seen.0 assertion_error known) (ground arith) in
      let chosen_of : verify_selection fl s policy (map score vector) ≡ ok top =
        subst (λ l. verify_selection fl s policy l ≡ ok top) scores selected in
      let made = ok-injective h6 in
      (
        s,
        top,
        or_raise-eq-ok selection integrity_error chosen,
        subst (λ k. ScoredFamily fl policy k policy.candidates vector)
            (ap (λ (e : VerifiedVectorEvidence Float). e.support_n) made) family,
        verify_selection-reselects ieee policy s (map score vector)
            (family-finite support policy.candidates vector family) fo nonneg
            (omega (arith, length-map vector score, ground_size vector (not-eq-false _ size)))
            chosen_of,
        sym (ap (λ (e : VerifiedVectorEvidence Float). e.decision_statistic) made),
        sym (ap (λ (e : VerifiedVectorEvidence Float). e.analytic_failure_count) made),
      )
    where
      ground_size :
          (v : List (StatisticResult Float))
          → (length v == length policy.candidates) ≡ true
          → length v ≡ length policy.candidates
      ground_size v e = ground arith

  -- The raw result has the support `n` and the policy's identities.
  pub record IsMadeFor (n : ℤ) (r : StatisticResult Float) : Type 0 where
    pub supported : r.support_n ≡ n
    pub backend : text_eq r.backend_identity policy.backend_identity ≡ true
    pub preprocessing : text_eq r.preprocessing_identity policy.preprocessing_identity ≡ true

  abbrev pub AllMadeFor : ℤ → List (StatisticResult Float) → Type 0
  AllMadeFor n [] = Unit
  AllMadeFor n (r ∷ rs) = IsMadeFor n r × AllMadeFor n rs

  with_score-IsScored :
      (c : ℤ) (r : StatisticResult Float)
      → IsRaw fl c r
      → IsScored fl policy (with_score fl policy.selection_rule r)
  with_score-IsScored c r raw =
      let finite : is_finite (score r) ≡ true =
        rw raw.estimated (score-finite ieee policy.selection_rule raw.estimate raw.finite) in
      let le = ieee.le_refl (score r) finite in
      record {
        is_valid = raw.is_valid;
        estimate = record {
          estimate = raw.estimate;
          estimated = raw.estimated;
          finite = raw.finite;
        };
        scored = rw (ieee.le_antisym (score r) (score r) le le);
      }

  with_score-ScoredFamily :
      (n : ℤ) (cs : List ℤ) (rs : List (StatisticResult Float))
      → RawFamily fl cs rs
      → AllMadeFor n rs
      → ScoredFamily fl policy n cs (map (with_score fl policy.selection_rule) rs)
  with_score-ScoredFamily n [] [] h m = tt
  with_score-ScoredFamily n [] (r ∷ rs) h m = elim h [ ]
  with_score-ScoredFamily n (c ∷ cs) [] h m = elim h [ ]
  with_score-ScoredFamily n (c ∷ cs) (r ∷ rs) (raw, h) (made, m) =
      let (_, _, _, positive) = statistic_result_checks fl r raw.constructed in
      (
        record {
          named = raw.named;
          positive = positive;
          supported = made.supported;
          backend = made.backend;
          preprocessing = made.preprocessing;
        },
        with_score-IsScored c r raw,
        with_score-ScoredFamily n cs rs h m,
      )

  finite-at :
      (xs : List Float) (i : ℕ) {x : Float}
      → AllFinite fl xs
      → get_elem? xs i ≡ some x
      → is_finite x ≡ true
  finite-at [] i h e = cc
  finite-at (y ∷ ys) zero h e = subst (λ z. is_finite z ≡ true) (some-injective e) h.0
  finite-at (y ∷ ys) (suc i) h e = finite-at ys i h.1 e

  scores-same :
      (rs : List (StatisticResult Float))
      → map score (map (with_score fl policy.selection_rule) rs) ≡ map score rs
  scores-same [] = refl
  scores-same (r ∷ rs) = ap (λ l. score r ∷ l) (scores-same rs)

  last_support-family :
      (n : ℤ) (cs : List ℤ) (items : List (StatisticResult Float))
      → IsCanonical cs
      → ScoredFamily fl policy n cs items
      → last_support none n items ≡ some n
  last_support-family n [] items canonical h = elim canonical [ ]
  last_support-family n (c ∷ cs) [] canonical h = elim h [ ]
  last_support-family n (c ∷ cs) (item ∷ items) canonical h = refl

  -- The verifier accepts what the selector returns: for canonical candidates, a complete family of
  -- raw results with one support and the policy's identities, and a finite tolerance of zero or
  -- more, `select_family_v2` returns a selection and scored results, and `verify_complete_vector`
  -- gives for them the evidence of that support and of the selection's decision statistic.
  pub select_family_v2-verifies :
      (rs : List (StatisticResult Float)) (n : ℤ)
      → IsCanonical policy.candidates
      → RawFamily fl policy.candidates rs
      → AllMadeFor n rs
      → is_finite policy.tie_tolerance ≡ true
      → flt policy.tie_tolerance fl.zero ≡ false
      → (selection : SelectionResult Float) × (scored : List (StatisticResult Float))
        × (select_family_v2 fl rs policy.candidates policy.selection_rule policy.tie_tolerance
            ≡ ok (selection, scored))
        × (verify_complete_vector fl scored (some selection) policy
            ≡ ok (record {
              support_n = n;
              decision_statistic = some selection.decision_statistic;
              analytic_failure_count = 0;
            }))
  unfolding verify_complete_vector vector_shape
  select_family_v2-verifies rs n canonical raw made fo nonneg =
      let rule = policy.selection_rule in
      let (selection, scored, run, right, computed) =
        select_family_v2-computes ieee rule policy.candidates rs policy.tie_tolerance canonical raw
          fo nonneg in
      let items = map (with_score fl rule) rs in
      let family = with_score-ScoredFamily n policy.candidates rs raw made in
      let size : (length items == length policy.candidates) ≡ true = same_size (
        length-map rs (with_score fl rule)
        ∙ (family-length ieee rule policy.candidates rs raw).0) in
      let looped = complete_loop_lem fl policy policy.candidates items n none [] 0 refl family in
      let count : (length (map score rs) == length policy.candidates) ≡ true =
        same_size (sym (family-length ieee rule policy.candidates rs raw).1) in
      let finite =
        finite-at (map score rs) right.attained.0
          (family-AllFinite ieee rule policy.candidates rs raw) right.attained.1 in
      (
        selection,
        items,
        run ∙ ap (λ l. ok (selection, l)) right.scores,
        rw (
          size,
          looped,
          last_support-family n policy.candidates items canonical family,
          scores-same rs,
          count,
          verify_selection_lem ieee policy selection (map score rs) computed.later_ties finite
              computed.maximum computed.tied computed.labels right.labelled,
        ),
      )
    where
      same_size : {m k : ℕ} → m ≡ k → (m == k) ≡ true
      same_size e = ground arith
