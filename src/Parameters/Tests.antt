-- ===== src/Parameters/Tests.antt =====
-- Freezing of parameters, on a mapping that shares a list, and on a list that contains itself.
use selcal.Prelude.{ℕ, List, zero, suc, [], ◌∷◌, true, ◌≡◌, ◌≢◌, ◌↔◌, inl, inr, refl, Option}
use selcal.Prelude.Int.{ℤ, pos}
use selcal.Errors.{ok, err, value_error, integrity_error}
use selcal.Floats.Sample.{sample_float}
use selcal.Parameters.{
  PyValue, PyKey, py_none, py_int, py_bool, py_container, py_other, str_key, list_of, dict_of, Heap,
  Frozen, frozen_int, frozen_bool, frozen_tuple, frozen_mapping, no_items, item, FrozenFields,
  no_fields, field, require_key, freeze_items, freeze_fields, freeze_container, freeze_by_type,
  freeze_value, freeze_exact_json_mapping,
}
use selcal.Parameters.Exact.{
  find_field, require_builtin_int, has_name, all_among, require_exact_keys, integer_parameter,
  block_shuffle_parameters, circular_shift_parameters,
}
use selcal.Parameters.Single.{DistinctKeys, IsSingle, null_parameters_iff}
use selcal.Parameters.Copies.{Copies}
use selcal.Parameters.Accepted.{
  in_list, in_dict, freeze_exact_json_mapping_iff, freeze_exact_json_mapping-Nested,
}

-- The dict 0 holds the list 1 twice.
abbrev shared_heap : Heap (Option ℤ)
shared_heap zero = dict_of ((str_key "low", py_container 1) ∷ (str_key "high", py_container 1) ∷ [])
shared_heap (suc _) = list_of (py_int (pos 3) ∷ py_bool true ∷ [])

abbrev pair_copy : Frozen (Option ℤ)
pair_copy = frozen_tuple (item (frozen_int (pos 3)) (item (frozen_bool true) no_items))

abbrev shared_copy : Frozen (Option ℤ)
shared_copy = frozen_mapping (field "low" pair_copy (field "high" pair_copy no_fields))

shared_heap_frozen :
    freeze_exact_json_mapping sample_float shared_heap (py_container 0) ≡ ok shared_copy
unfolding freeze_exact_json_mapping freeze_value freeze_by_type freeze_container freeze_items
    freeze_fields require_key
shared_heap_frozen = refl

freeze_exact_json_mapping_iff_example :
    Copies sample_float shared_heap 65 (py_container 0) shared_copy
    × (fields : FrozenFields (Option ℤ)) × (shared_copy ≡ frozen_mapping fields)
freeze_exact_json_mapping_iff_example =
    (freeze_exact_json_mapping_iff sample_float shared_heap (py_container 0) shared_copy).0
      shared_heap_frozen

-- The dict 0 holds the list 1, which holds itself.
abbrev cyclic_heap : Heap (Option ℤ)
cyclic_heap zero = dict_of ((str_key "lags", py_container 1) ∷ [])
cyclic_heap (suc _) = list_of (py_container 1 ∷ [])

cyclic_refused :
    freeze_exact_json_mapping sample_float cyclic_heap (py_container 0) ≡ err value_error
unfolding freeze_exact_json_mapping freeze_value freeze_by_type freeze_container freeze_items
    freeze_fields require_key
cyclic_refused = refl

freeze_exact_json_mapping-Nested_example :
    freeze_exact_json_mapping sample_float cyclic_heap (py_container 0) ≢ ok shared_copy
freeze_exact_json_mapping-Nested_example =
    freeze_exact_json_mapping-Nested sample_float cyclic_heap 0 1 shared_copy
      (inr (in_dict ((str_key "lags", py_container 1) ∷ []) refl (inl refl)))
      (in_list (py_container 1 ∷ []) refl (inl refl))

-- A list is no mapping, and another object no value.
other_refused :
    (freeze_exact_json_mapping sample_float cyclic_heap (py_container 1) ≡ err value_error)
    × (freeze_exact_json_mapping sample_float
          (λ a. dict_of ((str_key "x", py_other) ∷ []))
          (py_container 0)
        ≡ err value_error)
    × (freeze_exact_json_mapping sample_float
          (λ a. dict_of ((str_key "$float64", py_none) ∷ []))
          (py_container 0)
        ≡ err value_error)
unfolding freeze_exact_json_mapping freeze_value freeze_by_type freeze_container freeze_items
    freeze_fields require_key
other_refused = (refl, refl, refl)

-- Each dict holds the block length 4.
abbrev length_heap : Heap (Option ℤ)
length_heap a = dict_of ((str_key "block_length", py_int (pos 4)) ∷ [])

length_heap-distinct :
    (a : ℕ) (entries : List (PyKey × PyValue (Option ℤ)))
    → length_heap a ≡ dict_of entries
    → DistinctKeys entries
length_heap-distinct a [] h = tt
length_heap-distinct a (e ∷ []) h = (tt, tt)
length_heap-distinct a (e ∷ f ∷ entries) h = cc

null_parameters_iff_example :
    ((block_shuffle_parameters sample_float length_heap (py_container 0) ≡ ok (pos 4))
      ↔ IsSingle sample_float length_heap "block_length" (py_container 0) (pos 4))
    × ((circular_shift_parameters sample_float length_heap (py_container 0) ≡ ok (pos 4))
        ↔ IsSingle sample_float length_heap "min_shift" (py_container 0) (pos 4))
null_parameters_iff_example =
    null_parameters_iff sample_float length_heap (py_container 0) (pos 4) length_heap-distinct

parameters_read :
    (block_shuffle_parameters sample_float length_heap (py_container 0) ≡ ok (pos 4))
    × (circular_shift_parameters sample_float length_heap (py_container 0) ≡ err integrity_error)
unfolding freeze_exact_json_mapping freeze_value freeze_by_type freeze_container freeze_items
    freeze_fields require_key find_field require_builtin_int has_name all_among require_exact_keys
    integer_parameter block_shuffle_parameters circular_shift_parameters
parameters_read = (refl, refl)
