-- ===== src/Selection/Family/Steps.antt =====
-- Each step of `select_family_v2` on a family of raw results.
use selcal.Prelude.{ℕ, suc, List, [], ◌∷◌, true, false, ◌≡◌, refl, ◌∙◌, ap, arith, map, length}
use selcal.Prelude.Int.{ℤ, pos, leb_ℤ, eqb_ℤ}
use selcal.Errors.{ok}
use selcal.Floats.{Float64, IsIeee}
use selcal.Floats.Order.{AllFinite}
use selcal.Candidates.{any_not_positive, Ascending, IsCanonical}
use selcal.Contracts.{
  SelectionRule, max_upper, max_absolute, StatisticResult, statistic_result, validated_integer,
  validated_scores, validated_finite_real,
}
use selcal.Contracts.Laws.{
  IsAccepted, normal, normal-normal, statistic_result_checks, statistic_result_accepts,
  canonical_candidate_lem,
}
use selcal.Selection.{any_not_increasing, score_of, tied_indices}
use selcal.Selection.Family.{
  exact_candidates, score_result, score_family, replace_scores, unsigned_zero,
}
use selcal.Selection.Family.Spec.{IsRaw, RawFamily, value_or_zero, result_score, with_score}

pub Ascending-checks :
    (low : ℤ) (cs : List ℤ)
    → leb_ℤ (pos 0) low ≡ true
    → Ascending low cs
    → (any_not_positive cs ≡ false) × (any_not_increasing cs ≡ false)
unfolding any_not_positive any_not_increasing
Ascending-checks low [] p h = (refl, refl)
Ascending-checks low (c ∷ []) p h = ground arith
Ascending-checks low (c ∷ d ∷ cs) p h = ground (arith, Ascending-checks c (d ∷ cs))

pub exact_candidates_canonical : (cs : List ℤ) → IsCanonical cs → exact_candidates cs ≡ ok cs
unfolding exact_candidates
exact_candidates_canonical [] h = elim h [ ]
exact_candidates_canonical (c ∷ cs) h =
    let (p, i) = Ascending-checks (pos 0) (c ∷ cs) refl h in rw (p, i)

module _ {fl : Float64} (ieee : IsIeee fl) where
  open fl use {Float, zero, is_finite, flt, fle, feq, fsub}

  pub score-finite :
      (rule : SelectionRule) (x : Float)
      → is_finite x ≡ true
      → is_finite (unsigned_zero fl (score_of fl rule x)) ≡ true
  unfolding score_of
  score-finite max_upper x h = ground (arith, ieee.zero_finite)
  score-finite max_absolute x h = ground (arith, ieee.zero_finite, ieee.abs_finite x h)

  result_score-finite :
      (rule : SelectionRule) (c : ℤ) (r : StatisticResult Float)
      → IsRaw fl c r
      → is_finite (result_score fl rule r) ≡ true
  result_score-finite rule c r raw = rw raw.estimated (score-finite rule raw.estimate raw.finite)

  pub family-AllFinite :
      (rule : SelectionRule) (cs : List ℤ) (rs : List (StatisticResult Float))
      → RawFamily fl cs rs
      → AllFinite fl (map (result_score fl rule) rs)
  family-AllFinite rule [] [] h = tt
  family-AllFinite rule [] (r ∷ rs) h = elim h [ ]
  family-AllFinite rule (c ∷ cs) [] h = elim h [ ]
  family-AllFinite rule (c ∷ cs) (r ∷ rs) h =
      (result_score-finite rule c r h.0, family-AllFinite rule cs rs h.1)

  pub family-length :
      (rule : SelectionRule) (cs : List ℤ) (rs : List (StatisticResult Float))
      → RawFamily fl cs rs
      → (length rs ≡ length cs) × (length cs ≡ length (map (result_score fl rule) rs))
  family-length rule [] [] h = (refl, refl)
  family-length rule [] (r ∷ rs) h = elim h [ ]
  family-length rule (c ∷ cs) [] h = elim h [ ]
  family-length rule (c ∷ cs) (r ∷ rs) h =
      let (a, b) = family-length rule cs rs h.1 in (ap suc a, ap suc b)

  score_result_raw :
      (rule : SelectionRule) (c : ℤ) (r : StatisticResult Float)
      → IsRaw fl c r
      → score_result fl rule c r ≡ ok (result_score fl rule r)
  unfolding score_result
  score_result_raw rule c r raw =
      let same : eqb_ℤ r.candidate_id c ≡ true = rw raw.named (ground arith) in
      rw (same, raw.is_valid, raw.unscored, raw.estimated, raw.finite)

  pub score_family_raw :
      (rule : SelectionRule) (cs : List ℤ) (rs : List (StatisticResult Float))
      → RawFamily fl cs rs
      → score_family fl rule cs rs ≡ ok (map (result_score fl rule) rs)
  unfolding score_family
  score_family_raw rule [] [] h = refl
  score_family_raw rule [] (r ∷ rs) h = elim h [ ]
  score_family_raw rule (c ∷ cs) [] h = elim h [ ]
  score_family_raw rule (c ∷ cs) (r ∷ rs) h =
      rw (score_result_raw rule c r h.0, score_family_raw rule cs rs h.1)

  pub estimate-normal :
      (c : ℤ) (r : StatisticResult Float) (raw : IsRaw fl c r)
      → normal fl raw.estimate ≡ raw.estimate
  unfolding statistic_result validated_scores validated_integer validated_finite_real
  estimate-normal c r raw = ground (
    arith,
    raw.constructed,
    raw.is_valid,
    raw.estimated,
    raw.unscored,
    canonical_candidate_lem r.candidate_id,
  )

  replace_raw :
      (rule : SelectionRule) (c : ℤ) (r : StatisticResult Float)
      → IsRaw fl c r
      → statistic_result fl (with_score fl rule r) ≡ ok (with_score fl rule r)
  replace_raw rule c r raw =
      let (b, p, l, s) = statistic_result_checks fl r raw.constructed in
      let accepted : IsAccepted fl (with_score fl rule r) raw.estimate = record {
        backend = b;
        preprocessing = p;
        positive = l;
        supported = s;
        is_valid = raw.is_valid;
        estimated = raw.estimated;
        finite = raw.finite;
      } in
      statistic_result_accepts fl (with_score fl rule r) accepted refl
        (result_score-finite rule c r raw)
      ∙ ground (
        arith,
        estimate-normal c r raw,
        normal-normal fl (score_of fl rule (value_or_zero fl r.estimate)),
      )

  pub replace_scores_raw :
      (rule : SelectionRule) (cs : List ℤ) (rs : List (StatisticResult Float))
      → RawFamily fl cs rs
      → replace_scores fl rs (map (result_score fl rule) rs) ≡ ok (map (with_score fl rule) rs)
  unfolding replace_scores
  replace_scores_raw rule [] [] h = refl
  replace_scores_raw rule [] (r ∷ rs) h = elim h [ ]
  replace_scores_raw rule (c ∷ cs) [] h = elim h [ ]
  replace_scores_raw rule (c ∷ cs) (r ∷ rs) h =
      rw (replace_raw rule c r h.0, replace_scores_raw rule cs rs h.1)

  -- A negative zero as tolerance acts as the positive one.
  pub tolerance-zero : (t x : Float) → fle x (unsigned_zero fl t) ≡ fle x t
  tolerance-zero t x =
      ground (
        arith,
        ieee.eq_le t zero,
        ieee.eq_ge t zero,
        ieee.le_trans x t zero,
        ieee.le_trans x zero t,
      )

  pub tied_indices-zero :
      (index : ℕ) (top t : Float) (scores : List Float)
      → tied_indices fl index top (unsigned_zero fl t) scores ≡ tied_indices fl index top t scores
  unfolding tied_indices
  tied_indices-zero index top t [] = refl
  tied_indices-zero index top t (s ∷ ss) =
      rw (tolerance-zero t (fsub top s), tied_indices-zero (suc index) top t ss)
