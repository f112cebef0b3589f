-- ===== src/Parameters.antt =====
-- src/selcal/parameters.py: a caller's JSON parameters are copied into frozen values. The caller's
-- containers are objects with an identity, and may contain themselves, so they stand in a heap.
pub mod Copies
pub mod Finite
pub mod Accepted
pub mod Exact
pub mod Single
mod Tests
use text.Mathlib.Text.{◌==◌ as text_eq}
use selcal.Prelude.{
  ℕ, zero, suc, ◌+◌, List, [], ◌∷◌, ◌++◌, Bool, true, false, not, ◌||◌, Option, none, some, String,
  ltb, ◌==◌, if◌then◌else◌,
}
use selcal.Prelude.Int.{ℤ}
use selcal.Errors.{Result, ok, err, value_error, raise_if, or_raise, ◌>>=◌, ◌>>◌}
use selcal.Floats.{Float64}

-- A value of the caller: `None`, the exact scalars, a container by its identity, or an object of
-- another type.
pub data PyValue (F : Type 0) : Type 0 where
  py_none : PyValue F
  py_bool : Bool → PyValue F
  py_int : ℤ → PyValue F
  py_str : String → PyValue F
  py_float : F → PyValue F
  py_container : ℕ → PyValue F
  py_other : PyValue F

-- A key that is a built-in string, or another object
pub data PyKey : Type 0 where
  str_key : String → PyKey
  other_key : PyKey

-- An exact list or dict; a mapping proxy is the dict that it refers to, by whose identity the code
-- goes.
pub data Container (F : Type 0) : Type 0 where
  list_of : List (PyValue F) → Container F
  dict_of : List (PyKey × PyValue F) → Container F

abbrev pub Heap : Type 0 → Type 0
Heap F = ℕ → Container F

mutual
  pub data Frozen (F : Type 0) : Type 0 where
    frozen_none : Frozen F
    frozen_bool : Bool → Frozen F
    frozen_int : ℤ → Frozen F
    frozen_str : String → Frozen F
    frozen_float : F → Frozen F
    frozen_tuple : FrozenItems F → Frozen F
    frozen_mapping : FrozenFields F → Frozen F

  pub data FrozenItems (F : Type 0) : Type 0 where
    no_items : FrozenItems F
    item : Frozen F → FrozenItems F → FrozenItems F

  pub data FrozenFields (F : Type 0) : Type 0 where
    no_fields : FrozenFields F
    field : String → Frozen F → FrozenFields F → FrozenFields F

-- `identifier in active`
abbrev pub is_active : ℕ → List ℕ → Bool
is_active id [] = false
is_active id (a ∷ active) = id == a || is_active id active

-- The tests of a key
unfoldable pub require_key : PyKey → Result String
require_key other_key = err value_error
require_key (str_key key) = do raise_if (text_eq key "$float64") value_error; ok key

module _ (fl : Float64) (heap : Heap fl.Float) where
  open fl use {Float, is_finite, feq}

  -- The generator of a tuple: `freeze` is the call for a nested value.
  unfoldable pub freeze_items :
      (PyValue Float → Result (Frozen Float)) → List (PyValue Float) → Result (FrozenItems Float)
  freeze_items freeze [] = ok no_items
  freeze_items freeze (value ∷ values) = do
    first ← freeze value
    rest ← freeze_items freeze values
    ok (item first rest)

  -- The loop over the items of a dict, whose keys differ
  unfoldable pub freeze_fields :
      (PyValue Float → Result (Frozen Float))
      → List (PyKey × PyValue Float)
      → Result (FrozenFields Float)
  unfolding require_key
  freeze_fields freeze [] = ok no_fields
  freeze_fields freeze ((key, nested) ∷ entries) = do
    name ← require_key key
    frozen ← freeze nested
    rest ← freeze_fields freeze entries
    ok (field name frozen rest)

  -- The branch for a float
  unfoldable pub freeze_float : Float → Result (Frozen Float)
  freeze_float number = do
    raise_if (not (is_finite number)) value_error
    ok (frozen_float (if feq number fl.zero then fl.zero else number))

  unfoldable pub freeze_container :
      (PyValue Float → Result (Frozen Float)) → Container Float → Result (Frozen Float)
  freeze_container freeze (list_of values) = do
    items ← freeze_items freeze values
    ok (frozen_tuple items)
  freeze_container freeze (dict_of entries) = do
    fields ← freeze_fields freeze entries
    ok (frozen_mapping fields)

  -- `_freeze_exact_json`, given what is done with a container
  unfoldable pub freeze_by_type :
      (ℕ → Result (Frozen Float)) → PyValue Float → Result (Frozen Float)
  freeze_by_type enter py_none = ok frozen_none
  freeze_by_type enter (py_bool b) = ok (frozen_bool b)
  freeze_by_type enter (py_int n) = ok (frozen_int n)
  freeze_by_type enter (py_str s) = ok (frozen_str s)
  freeze_by_type enter (py_float x) = freeze_float x
  freeze_by_type enter (py_container a) = enter a
  freeze_by_type enter py_other = err value_error

  -- `_require_safe_container` and the rest of `_freeze_exact_json`. `room` is 65 - depth, the number
  -- of containers that may still be nested: a depth above 64 has no room. The container is active
  -- while its items are frozen.
  unfoldable pub freeze_value : ℕ → List ℕ → PyValue Float → Result (Frozen Float)
  freeze_value zero active value = freeze_by_type (λ a. err value_error) value
  freeze_value (suc room) active value =
      freeze_by_type
        (λ a.
          raise_if (is_active a active) value_error
          >> freeze_container (freeze_value room (a ∷ active)) (heap a))
        value

  -- `_exact_plain_dict`
  abbrev pub exact_plain_dict : PyValue Float → Container Float → Result (PyValue Float)
  exact_plain_dict value (list_of values) = err value_error
  exact_plain_dict value (dict_of entries) = ok value

  abbrev pub require_mapping : PyValue Float → Result (PyValue Float)
  require_mapping (py_container a) = exact_plain_dict (py_container a) (heap a)
  require_mapping _ = err value_error

  -- `freeze_exact_json_mapping`
  unfoldable pub freeze_exact_json_mapping : PyValue Float → Result (Frozen Float)
  freeze_exact_json_mapping value = do mapping ← require_mapping value; freeze_value 65 [] mapping
