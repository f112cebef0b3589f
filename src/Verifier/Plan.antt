-- ===== src/Verifier/Plan.antt =====
-- What a plan lays down for the verification of its results: the policy, and the longest lag.
use selcal.Prelude.{
  ℕ, zero, suc, true, false, ◌||◌, or-eq-false, not-eq-false, get_elem?, some-injective, Bool-cases,
  List, [], ◌∷◌, not, some, ◌≡◌, refl, sym, ap, ◌∙◌, subst, arith, length, ◌==◌, inl, inr,
}
use selcal.Prelude.Int.{ℤ, ◌≤ℤ◌, ltb_ℤ}
use selcal.Arrays.{equal_numbers}
use selcal.Arrays.Laws.{equal_numbers-eq}
use selcal.Candidates.{is_empty}
use selcal.Errors.{ok, integrity_error, >>=-eq-ok, guard-eq-ok, ok-injective}
use selcal.Floats.{Float64}
use selcal.Nulls.Token.{Text, require_sha256}
use selcal.Random.Seed.{all_hex}
use selcal.Results.Run.{CalibrationResult}
use selcal.Verifier.{VectorVerificationPolicy}
use selcal.Verifier.Run.{ResolutionContext, selection_policy, result_prefix, max_label}

require_sha256-same :
    (value : Text) {digest : Text} → require_sha256 value ≡ ok digest → digest ≡ value
unfolding require_sha256
require_sha256-same value h = sym (
    ok-injective
      ((guard-eq-ok (not (length value == 64) || not (all_hex value)) integrity_error _ h).1))

-- `max(candidates)`, by positions: the label stands in the list, and no label is above it.
pub record IsLongest (labels : List ℤ) (longest : ℤ) : Type 0 where
  pub member : (i : ℕ) × (get_elem? labels i ≡ some longest)
  pub highest : (i : ℕ) (label : ℤ) → get_elem? labels i ≡ some label → label ≤ℤ longest

-- `max` of labels that are not empty is their longest.
pub max_label-IsLongest :
    (labels : List ℤ)
    → is_empty labels ≡ false
    → (longest : ℤ) × (max_label labels ≡ ok longest) × IsLongest labels longest
unfolding max_label
max_label-IsLongest [] h = cc
max_label-IsLongest (x ∷ []) h = (x, refl, record { member = (0, refl); highest = at_each })
  where
    at_each : (i : ℕ) (label : ℤ) → get_elem? (x ∷ []) i ≡ some label → label ≤ℤ x
    at_each zero label e = subst (λ l. l ≤ℤ x) (some-injective e) (omega arith)
    at_each (suc i) label e = cc
max_label-IsLongest (x ∷ y ∷ ys) h =
    let (rest, made, most) = max_label-IsLongest (y ∷ ys) refl in
    elim (Bool-cases (ltb_ℤ x rest)) [
      | inl less ↦ (
        rest,
        rw (made, less) refl,
        record {
          member = (suc most.member.0, most.member.1);
          highest = at_each rest rest (omega arith) most.highest (ground arith);
        },
      )
      | inr more ↦ (
        x,
        rw (made, more) refl,
        record {
          member = (0, refl);
          highest = at_each x rest (ground arith) most.highest (omega arith);
        },
      )
    ]
  where
    at_each :
        (top rest : ℤ)
        → rest ≤ℤ top
        → ((i : ℕ) (label : ℤ) → get_elem? (y ∷ ys) i ≡ some label → label ≤ℤ rest)
        → x ≤ℤ top
        → (i : ℕ) (label : ℤ) → get_elem? (x ∷ y ∷ ys) i ≡ some label
        → label ≤ℤ top
    at_each top rest le below here zero label e = subst (λ l. l ≤ℤ top) (some-injective e) here
    at_each top rest le below here (suc i) label e = omega (arith, below i label e, le)

module _ (fl : Float64) (context : ResolutionContext fl.Float) where
  open fl use {Float, feq, flt, is_finite}

  -- The policy that a verified plan lays down
  abbrev pub plan_policy : VectorVerificationPolicy Float
  plan_policy = record {
    candidates = context.candidates;
    selection_rule = context.rule;
    tie_tolerance = context.tolerance;
    backend_identity = context.backend_identity;
    preprocessing_identity = context.preprocessing_identity;
  }

  -- The prefix of a result of the plan: the two digests of the result and the plan's policy
  pub prefix-plan :
      (r : CalibrationResult Float) {prefix : Text × Text × VectorVerificationPolicy Float}
      → result_prefix fl r context ≡ ok prefix
      → (result_prefix fl r context
          ≡ ok (r.semantic_input_sha256, r.scientific_plan_sha256, plan_policy))
        × (r.scientific_plan_sha256 ≡ context.plan_digest)
        × (r.planned_replicates ≡ context.planned_replicates)
        × (feq r.alpha context.alpha ≡ true)
        × (is_empty context.candidates ≡ false)
  unfolding result_prefix selection_policy
  prefix-plan r {prefix} given =
      let (semantic, s, h1) = >>=-eq-ok (require_sha256 r.semantic_input_sha256) _ given in
      let (plan, d, h2) = >>=-eq-ok (require_sha256 r.scientific_plan_sha256) _ h1 in
      let semantic_same = require_sha256-same r.semantic_input_sha256 s in
      let plan_same = require_sha256-same r.scientific_plan_sha256 d in
      let (terms, h3) =
        guard-eq-ok
          (not (r.planned_replicates == context.planned_replicates)
            || (not (feq r.alpha context.alpha) || not (equal_numbers plan context.plan_digest)))
          integrity_error _ h2 in
      let (planned, terms1) =
        or-eq-false (not (r.planned_replicates == context.planned_replicates)) _ terms in
      let (alpha, digest) = or-eq-false (not (feq r.alpha context.alpha)) _ terms1 in
      let (policy, built, h4) = >>=-eq-ok (selection_policy fl context) _ h3 in
      let (nonempty, h5) =
        guard-eq-ok
          (is_empty context.candidates
            || (not (is_finite context.tolerance) || flt context.tolerance fl.zero))
          integrity_error _ built in
      let policy_same = sym (ok-injective h5) in
      (
        given ∙ (sym h4 ∙ ap ok (λ i. (semantic_same i, plan_same i, policy_same i))),
        sym plan_same
            ∙ equal_numbers-eq plan context.plan_digest
                (not-eq-false (equal_numbers plan context.plan_digest) digest),
        ground arith,
        not-eq-false (feq r.alpha context.alpha) alpha,
        (or-eq-false (is_empty context.candidates) _ nonempty).0,
      )
