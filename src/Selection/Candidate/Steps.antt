-- ===== src/Selection/Candidate/Steps.antt =====
-- Each step of `select_candidate` on a family of raw results.
use selcal.Prelude.{List, [], ◌∷◌, true, some, ◌≡◌, refl, ◌∙◌, arith, map}
use selcal.Prelude.Int.{ℤ}
use selcal.Errors.{ok}
use selcal.Floats.{Float64, IsIeee}
use selcal.Contracts.{SelectionRule, max_upper, max_absolute, StatisticResult, statistic_result}
use selcal.Contracts.Laws.{IsAccepted, normal, statistic_result_checks, statistic_result_accepts}
use selcal.Selection.{score_of}
use selcal.Selection.Family.Spec.{IsRaw, RawFamily, result_score, with_score}
use selcal.Selection.Family.Steps.{estimate-normal}
use selcal.Selection.Candidate.{candidate_ids, finite_real, score_candidate, score_candidates}

module _ {fl : Float64} (ieee : IsIeee fl) where
  open fl use {Float, zero, is_finite, flt, feq, fabs}

  -- The score of an estimate without a negative zero has none.
  score_of-normal :
      (rule : SelectionRule) (x : Float)
      → normal fl x ≡ x
      → normal fl (score_of fl rule x) ≡ score_of fl rule x
  unfolding score_of
  score_of-normal max_upper x h = h
  score_of-normal max_absolute x h = ground (arith, ieee.abs_eq_zero x, ieee.abs_zero)

  score_of-finite :
      (rule : SelectionRule) (x : Float)
      → is_finite x ≡ true
      → is_finite (score_of fl rule x) ≡ true
  unfolding score_of
  score_of-finite max_upper x h = h
  score_of-finite max_absolute x h = ieee.abs_finite x h

  -- The record of the round is accepted.
  scored_raw :
      (rule : SelectionRule) (c : ℤ) (r : StatisticResult Float) (raw : IsRaw fl c r)
      → statistic_result fl (record r {
        estimate = some raw.estimate;
        selection_score = some (score_of fl rule raw.estimate);
      })
        ≡ ok (with_score fl rule r)
  scored_raw rule c r raw =
      let (b, p, l, s) = statistic_result_checks fl r raw.constructed in
      let kept = estimate-normal ieee c r raw in
      let unsigned = score_of-normal rule raw.estimate kept in
      let accepted : IsAccepted fl
          (record r {
            estimate = some raw.estimate;
            selection_score = some (score_of fl rule raw.estimate);
          })
          raw.estimate =
        record {
          backend = b;
          preprocessing = p;
          positive = l;
          supported = s;
          is_valid = raw.is_valid;
          estimated = refl;
          finite = raw.finite;
        } in
      statistic_result_accepts fl _ accepted refl (score_of-finite rule raw.estimate raw.finite)
      ∙ rw (raw.estimated, kept) refl

  score_candidate_raw :
      (rule : SelectionRule) (c : ℤ) (r : StatisticResult Float)
      → IsRaw fl c r
      → score_candidate fl rule r ≡ ok (result_score fl rule r, with_score fl rule r)
  unfolding score_candidate finite_real
  score_candidate_raw rule c r raw =
      let kept = estimate-normal ieee c r raw in
      let unsigned = score_of-normal rule raw.estimate kept in
      let scored = rw (raw.is_valid, raw.estimated) at (scored_raw rule c r raw) in
      rw (raw.is_valid, raw.estimated, raw.finite, kept, scored, unsigned) refl

  pub score_candidates_raw :
      (rule : SelectionRule) (cs : List ℤ) (rs : List (StatisticResult Float))
      → RawFamily fl cs rs
      → score_candidates fl rule rs
        ≡ ok (map (result_score fl rule) rs, map (with_score fl rule) rs)
  unfolding score_candidates
  score_candidates_raw rule [] [] h = refl
  score_candidates_raw rule [] (r ∷ rs) h = elim h [ ]
  score_candidates_raw rule (c ∷ cs) [] h = elim h [ ]
  score_candidates_raw rule (c ∷ cs) (r ∷ rs) h =
      rw (score_candidate_raw rule c r h.0, score_candidates_raw rule cs rs h.1)

  pub candidate_ids_raw :
      (rule : SelectionRule) (cs : List ℤ) (rs : List (StatisticResult Float))
      → RawFamily fl cs rs
      → (candidate_ids rs ≡ cs) × (candidate_ids (map (with_score fl rule) rs) ≡ cs)
  candidate_ids_raw rule [] [] h = (refl, refl)
  candidate_ids_raw rule [] (r ∷ rs) h = elim h [ ]
  candidate_ids_raw rule (c ∷ cs) [] h = elim h [ ]
  candidate_ids_raw rule (c ∷ cs) (r ∷ rs) h =
      let (a, b) = candidate_ids_raw rule cs rs h.1 in
      let named = h.0.named in (rw (named, a), rw (named, b))
