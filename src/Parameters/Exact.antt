-- ===== src/Parameters/Exact.antt =====
-- The exact tests of frozen parameters in src/selcal/parameters.py, and the `from_parameters` of the
-- two nulls, which read one integer with them.
use text.Mathlib.Text.{◌==◌ as text_eq}
use selcal.Prelude.{
  List, [], ◌∷◌, Bool, true, false, not, ◌&&◌, ◌||◌, Option, none, some, String, if◌then◌else◌,
}
use selcal.Prelude.Int.{ℤ, pos, ltb_ℤ}
use selcal.Errors.{
  Result, ok, err, value_error, index_error, integrity_error, raise_if, or_raise, on_value_error,
  ◌>>=◌, ◌>>◌,
}
use selcal.Floats.{Float64}
use selcal.Parameters.{
  PyValue, Heap, Frozen, frozen_int, frozen_mapping, FrozenFields, no_fields, field,
  freeze_exact_json_mapping,
}

module _ {F : Type 0} where
  abbrev pub keys_of : FrozenFields F → List String
  keys_of no_fields = []
  keys_of (field key value fields) = key ∷ keys_of fields

  -- A mapping is read by its fields.
  abbrev pub fields_of : Frozen F → FrozenFields F
  fields_of (frozen_mapping fields) = fields
  fields_of _ = no_fields

  -- `parameters[key]`
  unfoldable pub find_field : FrozenFields F → String → Option (Frozen F)
  find_field no_fields name = none
  find_field (field key value fields) name =
      if text_eq name key then some value else find_field fields name

  -- `require_builtin_int`
  unfoldable pub require_builtin_int : Frozen F → ℤ → Result ℤ
  require_builtin_int (frozen_int value) minimum = do
    raise_if (ltb_ℤ value minimum) value_error
    ok value
  require_builtin_int _ minimum = err value_error

unfoldable pub has_name : String → List String → Bool
has_name name [] = false
has_name name (n ∷ names) = text_eq name n || has_name name names

-- `frozenset(names) <= frozenset(others)`
unfoldable pub all_among : List String → List String → Bool
unfolding has_name
all_among [] others = true
all_among (n ∷ names) others = has_name n others && all_among names others

-- `require_exact_keys`
unfoldable pub require_exact_keys : List String → List String → Result (Unit {0})
unfolding all_among
require_exact_keys keys expected =
    raise_if (not (all_among keys expected && all_among expected keys)) value_error

module _ (fl : Float64) (heap : Heap fl.Float) where
  open fl use {Float}

  -- The `try` block of both `from_parameters`, by the name of the parameter
  unfoldable pub integer_parameter : String → PyValue Float → Result ℤ
  unfolding find_field require_builtin_int require_exact_keys
  integer_parameter name parameters = do
    frozen ← freeze_exact_json_mapping fl heap parameters
    require_exact_keys (keys_of (fields_of frozen)) (name ∷ [])
    value ← or_raise (find_field (fields_of frozen) name) index_error
    require_builtin_int value (pos 1)

  -- `BlockShuffleNullV2.from_parameters`, up to the call of the constructor
  unfoldable pub block_shuffle_parameters : PyValue Float → Result ℤ
  block_shuffle_parameters parameters =
      on_value_error integrity_error (integer_parameter "block_length" parameters)

  -- `CircularShiftNullV2.from_parameters`, up to the call of the constructor
  unfoldable pub circular_shift_parameters : PyValue Float → Result ℤ
  circular_shift_parameters parameters =
      on_value_error integrity_error (integer_parameter "min_shift" parameters)
