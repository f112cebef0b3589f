-- ===== src/Nulls/Token.antt =====
-- The token and result contracts of src/selcal/contracts_v2.py (lines 300-548): constructors with
-- their `__post_init__`. A shift is a number once its constructor has refused the negative ones.
use Prim.Native.Char.{code}
use selcal.Prelude.{
  ℕ, List, [], ◌∷◌, Bool, true, false, not, ◌&&◌, ◌||◌, String, length, map, ltb, ◌==◌,
}
use selcal.Prelude.Int.{ℤ, pos, negsuc, eqb_ℤ}
use selcal.Prelude.Index.{range_from}
use selcal.Errors.{Result, ok, err, integrity_error, raise_if, ◌>>=◌, ◌>>◌}
use selcal.Arrays.{equal_numbers}
use selcal.Candidates.{contains}
use selcal.Contracts.{SeriesPair}
use selcal.Random.Seed.{all_hex}

abbrev pub Text : Type 0
Text = List ℕ

-- A literal of the source
abbrev pub text : String → Text
text String.[] = []
text (String.◌∷◌ c s) = code c ∷ text s

abbrev pub token_schema : Text
token_schema = text "selcal.null-transform-token.v2"

abbrev pub circular_state_schema : Text
circular_state_schema = text "selcal.circular-shift-state.v2"

abbrev pub block_state_schema : Text
block_state_schema = text "selcal.block-shuffle-state.v2"

-- The members of the set of supported `null_name` values
abbrev pub circular_shift_v2 : Text
circular_shift_v2 = text "circular_shift_v2"

abbrev pub circular_shift_exact_v1 : Text
circular_shift_exact_v1 = text "circular_shift_exact_v1"

abbrev pub block_shuffle_v2 : Text
block_shuffle_v2 = text "block_shuffle_v2"

pub record CircularShiftState : Type 0 where
  pub schema : Text
  pub shift : ℕ

pub record BlockShuffleState : Type 0 where
  pub schema : Text
  pub block_order : List ℤ

pub data NullState : Type 0 where
  circular : CircularShiftState → NullState
  block : BlockShuffleState → NullState

pub record NullTransformToken : Type 0 where
  pub schema : Text
  pub null_name : Text
  pub null_parameter_sha256 : Text
  pub semantic_input_sha256 : Text
  pub scientific_plan_sha256 : Text
  pub bound_null_owner_sha256 : Text
  pub is_identity : Bool
  pub state : NullState

pub record NullTransformResult (F : Type 0) : Type 0 where
  pub pair : SeriesPair F
  pub token : NullTransformToken
  pub source_changed : Bool
  pub diagnostics : List String

-- `==` of two tuples of ints
unfoldable pub equal_labels : List ℤ → List ℤ → Bool
equal_labels [] [] = true
equal_labels [] (y ∷ ys) = false
equal_labels (x ∷ xs) [] = false
equal_labels (x ∷ xs) (y ∷ ys) = eqb_ℤ x y && equal_labels xs ys

-- `tuple(range(count))`
abbrev pub labels_below : ℕ → List ℤ
labels_below count = map pos (range_from 0 count)

-- `set(xs) <= set(ys)`
unfoldable pub is_subset : List ℤ → List ℤ → Bool
is_subset [] ys = true
is_subset (x ∷ xs) ys = contains x ys && is_subset xs ys

-- `a is not b` of two bools
abbrev pub differ : Bool → Bool → Bool
differ true b = not b
differ false b = b

-- `_require_exact_schema`
abbrev pub require_exact_schema : Text → Text → Result Text
require_exact_schema value expected = do
  raise_if (not (equal_numbers value expected)) integrity_error
  ok value

-- `_require_lowercase_sha256` and `require_sha256`
unfoldable pub require_sha256 : Text → Result Text
require_sha256 value = do
  raise_if (not (length value == 64) || not (all_hex value)) integrity_error
  ok value

-- `CircularShiftStateV2(schema=schema, shift=shift)`
unfoldable pub circular_shift_state : Text → ℤ → Result CircularShiftState
circular_shift_state schema (negsuc n) = do
  exact ← require_exact_schema schema circular_state_schema
  err integrity_error
circular_shift_state schema (pos n) = do
  exact ← require_exact_schema schema circular_state_schema
  ok (record { schema = exact; shift = n })

-- `BlockShuffleStateV2(schema=schema, block_order=block_order)`
unfoldable pub block_shuffle_state : Text → List ℤ → Result BlockShuffleState
block_shuffle_state schema block_order = do
  exact ← require_exact_schema schema block_state_schema
  raise_if (ltb (length block_order) 2) integrity_error
  let labels = labels_below (length block_order)
  raise_if (not (is_subset block_order labels && is_subset labels block_order)) integrity_error
  ok (record { schema = exact; block_order = block_order })

-- `expected_identity` of the token's `__post_init__`, by the null's name and the state's type
unfoldable pub expected_identity : Text → NullState → Result Bool
expected_identity null_name (circular s) = do
  raise_if
      (not (
        equal_numbers null_name circular_shift_v2
        || equal_numbers null_name circular_shift_exact_v1))
      integrity_error
  ok (s.shift == 0)
expected_identity null_name (block s) = do
  raise_if
      (equal_numbers null_name circular_shift_v2 || equal_numbers null_name circular_shift_exact_v1)
      integrity_error
  ok (equal_labels s.block_order (labels_below (length s.block_order)))

-- `NullTransformToken.__post_init__`
unfoldable pub null_transform_token : NullTransformToken → Result NullTransformToken
null_transform_token t = do
  schema ← require_exact_schema t.schema token_schema
  raise_if
      (not (
        equal_numbers t.null_name circular_shift_v2
        || (equal_numbers t.null_name circular_shift_exact_v1
            || equal_numbers t.null_name block_shuffle_v2)))
      integrity_error
  parameter ← require_sha256 t.null_parameter_sha256
  semantic ← require_sha256 t.semantic_input_sha256
  plan ← require_sha256 t.scientific_plan_sha256
  owner ← require_sha256 t.bound_null_owner_sha256
  expected ← expected_identity t.null_name t.state
  raise_if (differ t.is_identity expected) integrity_error
  ok t

-- `NullTransformResult.__post_init__`
unfoldable pub null_transform_result :
    {F : Type 0} → NullTransformResult F → Result (NullTransformResult F)
null_transform_result r = do
  raise_if (r.token.is_identity && r.source_changed) integrity_error
  ok r
