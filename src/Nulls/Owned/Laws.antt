-- ===== src/Nulls/Owned/Laws.antt =====
-- What the shared checks of owned_transform_v2.py let through: a rearranged source passes them.
use mathlib.Core.List.{Perm}
use mathlib.Core.List.Perm as P
use selcal.Prelude.{
  ℕ, List, [], ◌∷◌, true, false, not, ◌&&◌, ◌≡◌, refl, ap, ◌∙◌, arith, length, map, if◌then◌else◌,
  ◌==◌, Bool-cases, inl, inr,
}
use selcal.Prelude.Int.{ℤ, eq_of_parts}
use selcal.Errors.{ok, >>=-eq-ok}
use selcal.Arrays.Laws.{equal_numbers_refl}
use selcal.Floats.{Float64}
use selcal.Candidates.{is_empty}
use selcal.Candidates.Perms.{perm-SameChecks}
use selcal.Contracts.{SeriesPair}
use selcal.Contracts.Normal.{IsPair, AllNormal, series_pair_normal, series_pair_again}
use selcal.Nulls.Token.{
  Text, token_schema, NullTransformToken, NullTransformResult, require_sha256, equal_labels,
  null_transform_result,
}
use selcal.Nulls.Owned.{
  Envelope, pair_content, Ownership, require_ownership, prepare_owned_transform,
  require_owned_fields, array_equal, value_multiset, finalize_transform_result,
}

pub equal_labels-eq : (xs ys : List ℤ) → equal_labels xs ys ≡ true → xs ≡ ys
unfolding equal_labels
equal_labels-eq [] [] h = refl
equal_labels-eq [] (y ∷ ys) h = cc
equal_labels-eq (x ∷ xs) [] h = cc
equal_labels-eq (x ∷ xs) (y ∷ ys) h = ground (arith, equal_labels-eq xs ys, eq_of_parts x y)

pub equal_labels_refl : (xs : List ℤ) → equal_labels xs xs ≡ true
unfolding equal_labels
equal_labels_refl [] = refl
equal_labels_refl (x ∷ xs) = ground (arith, equal_labels_refl xs)

pub same_length : (n : ℕ) → (n == n) ≡ true
same_length n = ground arith

-- A result whose token is the identity only where the source has not changed is accepted.
pub null_transform_result_ok :
    {F : Type 0} (r : NullTransformResult F)
    → (r.token.is_identity ≡ true → r.source_changed ≡ false)
    → null_transform_result r ≡ ok r
unfolding null_transform_result
null_transform_result_ok r h = elim (Bool-cases r.token.is_identity) [
  | inl e ↦ rw (e, h e)
  | inr e ↦ rw e
]

-- The four digests that `require_ownership` has checked.
pub record IsOwned (owned : Ownership) : Type 0 where
  pub parameter : require_sha256 owned.null_parameter_sha256 ≡ ok owned.null_parameter_sha256
  pub semantic : require_sha256 owned.semantic_input_sha256 ≡ ok owned.semantic_input_sha256
  pub plan : require_sha256 owned.scientific_plan_sha256 ≡ ok owned.scientific_plan_sha256
  pub owner : require_sha256 owned.bound_null_owner_sha256 ≡ ok owned.bound_null_owner_sha256

pub require_sha256-ok : (x : Text) {y : Text} → require_sha256 x ≡ ok y → require_sha256 x ≡ ok x
unfolding require_sha256
require_sha256-ok x h = ground arith

module _ (fl : Float64) (payload : Float64.Float fl → ℤ)
    (sha256 : Envelope (Float64.Float fl) → Text) where
  open fl use {Float}

  pub value_multiset-perm :
      {xs ys : List Float}
      → Perm xs ys
      → value_multiset fl payload sha256 xs ≡ value_multiset fl payload sha256 ys
  value_multiset-perm p = (perm-SameChecks (P.map payload p)).order

  -- The result that a transform of the source of `golden` to `source` has.
  abbrev pub finalized :
      SeriesPair Float → List Float → NullTransformToken → NullTransformResult Float
  finalized golden source token = record {
    pair = record { source = source; target = golden.target };
    token = token;
    source_changed = not (array_equal fl payload sha256 source golden.source);
    diagnostics =
        if not token.is_identity && not (not (array_equal fl payload sha256 source golden.source))
        then "nonidentity_data_equivalent_v2" ∷ []
        else [];
  }

  pub finalize_rearranged :
      (golden : SeriesPair Float) (source : List Float) (token : NullTransformToken)
      → IsPair fl golden
      → AllNormal fl source
      → is_empty source ≡ false
      → length source ≡ length golden.source
      → Perm source golden.source
      → (token.is_identity ≡ true → array_equal fl payload sha256 source golden.source ≡ true)
      → finalize_transform_result fl payload sha256
          (record { source = source; target = golden.target })
          golden
          token
          (map payload source)
        ≡ ok (finalized golden source token)
  unfolding finalize_transform_result
  finalize_rearranged golden source token h n e l p i =
      let aligned : length source ≡ length golden.target = l ∙ h.aligned in
      let accepted =
        series_pair_normal fl (record { source = source; target = golden.target }) n h.target e
          aligned in
      rw
        (
          l,
          same_length (length golden.source),
          same_length (length golden.target),
          equal_labels_refl (map payload golden.target),
          value_multiset-perm p,
          equal_labels_refl (value_multiset fl payload sha256 golden.source),
          equal_labels_refl (map payload source),
          accepted,
        )
        (null_transform_result_ok (finalized golden source token) (λ is. ap not (i is)))

  pub require_ownership-IsOwned :
      (null_name : Text) (parameter observed_length : ℕ) (owned : Ownership)
      → require_ownership fl payload sha256 null_name parameter observed_length owned ≡ ok tt
      → IsOwned owned
  unfolding require_ownership
  require_ownership-IsOwned null_name parameter observed_length owned h =
      let (a, ea, h1) = >>=-eq-ok (require_sha256 owned.semantic_input_sha256) _ h in
      let (b, eb, h2) = >>=-eq-ok (require_sha256 owned.scientific_plan_sha256) _ h1 in
      let (c, ec, h3) = >>=-eq-ok (require_sha256 owned.null_parameter_sha256) _ h2 in
      let (d, ed, h4) = >>=-eq-ok (require_sha256 owned.bound_null_owner_sha256) _ h3 in
      record {
        parameter = require_sha256-ok _ ec;
        semantic = require_sha256-ok _ ea;
        plan = require_sha256-ok _ eb;
        owner = require_sha256-ok _ ed;
      }

  pub prepare_owned_transform_lem :
      (observed : SeriesPair Float)
      → IsPair fl observed
      → require_sha256 (sha256 (pair_content observed)) ≡ ok (sha256 (pair_content observed))
      → prepare_owned_transform fl payload sha256 observed (sha256 (pair_content observed))
        ≡ ok (record { golden = observed; transform_input = observed })
  unfolding prepare_owned_transform
  prepare_owned_transform_lem observed h d = rw (
    d,
    series_pair_again fl observed h,
    equal_numbers_refl (sha256 (pair_content observed)),
    series_pair_again fl observed h,
  )

  pub require_owned_fields_lem :
      (token : NullTransformToken) (null_name : Text) (owned : Ownership)
      → token.schema ≡ token_schema
      → token.null_name ≡ null_name
      → token.null_parameter_sha256 ≡ owned.null_parameter_sha256
      → token.semantic_input_sha256 ≡ owned.semantic_input_sha256
      → token.scientific_plan_sha256 ≡ owned.scientific_plan_sha256
      → token.bound_null_owner_sha256 ≡ owned.bound_null_owner_sha256
      → require_owned_fields token null_name owned ≡ ok tt
  unfolding require_owned_fields
  require_owned_fields_lem token null_name owned a b c d e f =
      rw
        (
          a,
          b,
          c,
          d,
          e,
          f,
          equal_numbers_refl null_name,
          equal_numbers_refl owned.null_parameter_sha256,
          equal_numbers_refl owned.semantic_input_sha256,
          equal_numbers_refl owned.scientific_plan_sha256,
          equal_numbers_refl owned.bound_null_owner_sha256,
        )
        (rw (equal_numbers_refl token_schema))
