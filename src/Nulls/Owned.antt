-- ===== src/Nulls/Owned.antt =====
-- src/selcal/nulls/owned_transform_v2.py: what every executable null shares. A SHA-256 digest of
-- a canonical envelope is a parameter, a function of the envelope; `payload` is the 8 bytes of a
-- float, read as one number in the order that sorting bytes gives.
pub mod Laws
use selcal.Prelude.{
  ℕ, List, [], ◌∷◌, Bool, true, false, not, ◌&&◌, ◌||◌, ◌≡◌, length, map, if◌then◌else◌, ◌==◌,
}
use selcal.Prelude.Int.{ℤ}
use selcal.Errors.{Result, ok, integrity_error, raise_if, on_value_error, ◌>>=◌, ◌>>◌}
use selcal.Arrays.{equal_numbers}
use selcal.Floats.{Float64}
use selcal.Candidates.{sorted}
use selcal.Contracts.{SeriesPair, series_pair}
use selcal.Nulls.Token.{
  Text, token_schema, NullTransformToken, NullTransformResult, NullState, require_sha256,
  equal_labels, null_transform_token, null_transform_result, require_exact_schema,
}

-- What is hashed: the arguments of `parameter_digest`, of `owner_digest`, and of
-- `_owned_pair_content_guard_sha256`.
pub data Envelope (F : Type 0) : Type 0 where
  null_parameters : Text → ℕ → Envelope F
  bound_owner : Text → Text → Text → ℕ → Envelope F
  pair_content : SeriesPair F → Envelope F

-- The fields that a bound null holds for its ownership.
pub record Ownership : Type 0 where
  pub semantic_input_sha256 : Text
  pub scientific_plan_sha256 : Text
  pub null_parameter_sha256 : Text
  pub bound_null_owner_sha256 : Text
  pub observed_content_guard_sha256 : Text

pub record PreparedOwnedTransform (F : Type 0) : Type 0 where
  pub golden : SeriesPair F
  pub transform_input : SeriesPair F

-- `snapshot_common_token` up to the state, whose type the callers test.
unfoldable pub snapshot_common_token : NullTransformToken → Text → Result NullTransformToken
snapshot_common_token token expected_null_name = do
  schema ← require_exact_schema token.schema token_schema
  raise_if (not (equal_numbers token.null_name expected_null_name)) integrity_error
  parameter ← require_sha256 token.null_parameter_sha256
  semantic ← require_sha256 token.semantic_input_sha256
  plan ← require_sha256 token.scientific_plan_sha256
  owner ← require_sha256 token.bound_null_owner_sha256
  ok token

-- The loop over `expected_fields`: each field of the token against the bound null's. The expected
-- digests are the bound null's own, which `require_ownership` has compared with them.
unfoldable pub require_owned_fields : NullTransformToken → Text → Ownership → Result (Unit {0})
require_owned_fields token null_name owned = do
  raise_if (not (equal_numbers token.schema token_schema)) integrity_error
  raise_if (not (equal_numbers token.null_name null_name)) integrity_error
  raise_if (not (equal_numbers token.null_parameter_sha256 owned.null_parameter_sha256))
      integrity_error
  raise_if (not (equal_numbers token.semantic_input_sha256 owned.semantic_input_sha256))
      integrity_error
  raise_if (not (equal_numbers token.scientific_plan_sha256 owned.scientific_plan_sha256))
      integrity_error
  raise_if (not (equal_numbers token.bound_null_owner_sha256 owned.bound_null_owner_sha256))
      integrity_error
  ok tt

module _ (fl : Float64) (payload : Float64.Float fl → ℤ)
    (sha256 : Envelope (Float64.Float fl) → Text) where
  open fl use {Float, feq}

  -- The checks of the digests that a bound null repeats before it trusts them.
  unfoldable pub require_ownership : Text → ℕ → ℕ → Ownership → Result (Unit {0})
  require_ownership null_name parameter observed_length owned = do
    semantic ← require_sha256 owned.semantic_input_sha256
    plan ← require_sha256 owned.scientific_plan_sha256
    parameter_sha256 ← require_sha256 owned.null_parameter_sha256
    owner ← require_sha256 owned.bound_null_owner_sha256
    let expected_parameter = sha256 (null_parameters null_name parameter)
    let expected_owner = sha256 (bound_owner semantic plan expected_parameter observed_length)
    raise_if (not (equal_numbers parameter_sha256 expected_parameter)) integrity_error
    raise_if (not (equal_numbers owner expected_owner)) integrity_error
    ok tt

  -- `prepare_owned_transform`
  unfoldable pub prepare_owned_transform :
      SeriesPair Float → Text → Result (PreparedOwnedTransform Float)
  prepare_owned_transform observed expected_content_guard_sha256 = do
    expected_guard ← require_sha256 expected_content_guard_sha256
    golden ← on_value_error integrity_error (series_pair fl observed)
    raise_if (not (equal_numbers (sha256 (pair_content golden)) expected_guard)) integrity_error
    transform_input ← series_pair fl golden
    ok (record { golden = golden; transform_input = transform_input })

  -- `_value_multiset`
  abbrev pub value_multiset : List Float → List ℤ
  value_multiset array = sorted (map payload array)

  -- `np.array_equal`
  unfoldable pub array_equal : List Float → List Float → Bool
  array_equal [] [] = true
  array_equal [] (y ∷ ys) = false
  array_equal (x ∷ xs) [] = false
  array_equal (x ∷ xs) (y ∷ ys) = feq x y && array_equal xs ys

  -- `finalize_transform_result`
  unfoldable pub finalize_transform_result :
      SeriesPair Float
      → SeriesPair Float
      → NullTransformToken
      → List ℤ
      → Result (NullTransformResult Float)
  finalize_transform_result transformed golden token expected_source_bytes = do
    raise_if (not (length transformed.source == length golden.source)) integrity_error
    raise_if (not (length transformed.target == length golden.target)) integrity_error
    raise_if (not (equal_labels (map payload transformed.target) (map payload golden.target)))
        integrity_error
    raise_if (not (equal_labels (value_multiset transformed.source) (value_multiset golden.source)))
        integrity_error
    raise_if (not (equal_labels (map payload transformed.source) expected_source_bytes))
        integrity_error
    let source_changed = not (array_equal transformed.source golden.source)
    let diagnostics =
        if not token.is_identity && not source_changed
        then "nonidentity_data_equivalent_v2" ∷ []
        else []
    result_pair ←
        series_pair fl (record { source = transformed.source; target = transformed.target })
    null_transform_result (record {
      pair = result_pair;
      token = token;
      source_changed = source_changed;
      diagnostics = diagnostics;
    })
