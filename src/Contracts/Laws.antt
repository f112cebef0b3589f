-- ===== src/Contracts/Laws.antt =====
-- The shared records: which record a constructor accepts.
use selcal.Prelude.{true, false, some, ◌≡◌, arith, if◌then◌else◌}
use selcal.Prelude.Int.{ℤ, pos, ltb_ℤ, leb_ℤ}
use selcal.Errors.{ok, err, value_error}
use selcal.Floats.{Float64}
use selcal.Candidates.{canonical_candidates, has_duplicates, sorted, any_not_positive}
use selcal.Contracts.{
  valid, StatisticResult, is_blank, validated_integer, canonical_candidate, validated_finite_real,
  validated_optional_finite_real, validated_scores, statistic_result,
}

pub canonical_candidate_lem :
    (x : ℤ) → canonical_candidate x ≡ (if leb_ℤ x (pos 0) then err value_error else ok x)
unfolding canonical_candidate canonical_candidates any_not_positive has_duplicates sorted
canonical_candidate_lem x = ground arith

module _ (fl : Float64) where
  open fl use {Float, zero, is_finite, feq}

  -- What `StatisticResult.__post_init__` checks of a VALID record with a given score.
  pub record IsAccepted (r : StatisticResult Float) (estimate : Float) : Type 0 where
    pub backend : is_blank r.backend_identity ≡ false
    pub preprocessing : is_blank r.preprocessing_identity ≡ false
    pub positive : leb_ℤ r.candidate_id (pos 0) ≡ false
    pub supported : ltb_ℤ r.support_n (pos 1) ≡ false
    pub is_valid : r.validity ≡ valid
    pub estimated : r.estimate ≡ some estimate
    pub finite : is_finite estimate ≡ true

  abbrev pub normal : Float → Float
  normal x = if feq x zero then zero else x

  pub normal-normal : (x : Float) → normal (normal x) ≡ normal x
  normal-normal x = ground arith

  pub validated_finite_real_lem :
      (x : Float) → is_finite x ≡ true → validated_finite_real fl x ≡ ok (normal x)
  unfolding validated_finite_real
  validated_finite_real_lem x h = rw h

  -- Every record that the constructor returns has passed these checks.
  pub statistic_result_checks :
      (r : StatisticResult Float) {r' : StatisticResult Float}
      → statistic_result fl r ≡ ok r'
      → (is_blank r.backend_identity ≡ false)
        × (is_blank r.preprocessing_identity ≡ false)
        × (leb_ℤ r.candidate_id (pos 0) ≡ false)
        × (ltb_ℤ r.support_n (pos 1) ≡ false)
  unfolding statistic_result validated_integer
  statistic_result_checks r e = ground (arith, canonical_candidate_lem r.candidate_id)

  pub statistic_result_accepts :
      (r : StatisticResult Float) {e s : Float}
      → IsAccepted r e
      → r.selection_score ≡ some s
      → is_finite s ≡ true
      → statistic_result fl r
        ≡ ok (record r { estimate = some (normal e); selection_score = some (normal s) })
  unfolding statistic_result validated_integer validated_scores validated_optional_finite_real
  statistic_result_accepts r {e} {s} a es fs = rw (
    a.backend,
    a.preprocessing,
    canonical_candidate_lem r.candidate_id,
    a.positive,
    a.supported,
    a.is_valid,
    a.estimated,
    es,
    validated_finite_real_lem e a.finite,
    validated_finite_real_lem s fs,
  )
