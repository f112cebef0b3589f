-- ===== src/Parameters/Single.antt =====
-- Which parameters the two nulls are made from.
use text.Mathlib.TextEquality.{eq_iff}
use text.Mathlib.TextPositions.{eq_refl}
use text.Mathlib.Text.{◌==◌ as text_eq}
use selcal.Prelude.{
  ℕ, List, [], ◌∷◌, true, false, not, ◌&&◌, some, String, ◌≡◌, ◌≢◌, ◌↔◌, refl, sym, ap, ◌∙◌, subst,
  arith, some-injective,
}
use selcal.Prelude.Int.{ℤ, pos, ltb_ℤ}
use selcal.Errors.{
  Result, ok, err, value_error, index_error, integrity_error, or_raise, on_value_error, >>=-eq-ok,
  guard-eq-ok, or_raise-eq-ok, ok-injective,
}
use selcal.Floats.{Float64}
use selcal.Parameters.{
  PyValue, py_int, py_container, PyKey, str_key, dict_of, Heap, Frozen, frozen_int, frozen_mapping,
  FrozenFields, no_fields, field, freeze_exact_json_mapping,
}
use selcal.Parameters.Copies.{
  Copies, copies_int, copies_dict, CopiesFields, copies_no_fields, copies_field,
}
use selcal.Parameters.Accepted.{freeze_exact_json_mapping_iff}
use selcal.Parameters.Exact.{
  keys_of, fields_of, find_field, require_builtin_int, has_name, all_among, require_exact_keys,
  integer_parameter, block_shuffle_parameters, circular_shift_parameters,
}

-- The keys of a dict differ.
module _ {F : Type 0} where
  abbrev pub HasNoKey : PyKey → List (PyKey × PyValue F) → Type 0
  HasNoKey key [] = Unit
  HasNoKey key ((other, value) ∷ entries) = (other ≢ key) × HasNoKey key entries

  abbrev pub DistinctKeys : List (PyKey × PyValue F) → Type 0
  DistinctKeys [] = Unit
  DistinctKeys ((key, value) ∷ entries) = HasNoKey key entries × DistinctKeys entries

  require_builtin_int-ok :
      (f : Frozen F) (minimum n : ℤ)
      → require_builtin_int f minimum ≡ ok n
      → (f ≡ frozen_int n) × (ltb_ℤ n minimum ≡ false)
  unfolding require_builtin_int
  require_builtin_int-ok (frozen_int m) minimum n h =
      let (enough, h1) = guard-eq-ok (ltb_ℤ m minimum) value_error _ h in
      let same = ok-injective h1 in
      (ap frozen_int same, subst (λ k. ltb_ℤ k minimum ≡ false) same enough)
  require_builtin_int-ok _ minimum n h = cc

among_first :
    (key name : String) (keys : List String)
    → all_among (key ∷ keys) (name ∷ []) ≡ true
    → (key ≡ name) × (all_among keys (name ∷ []) ≡ true)
unfolding all_among has_name
among_first key name keys h =
    let first : text_eq key name ≡ true = ground arith in
    let rest : all_among keys (name ∷ []) ≡ true = ground arith in ((eq_iff key name).0 first, rest)

module _ (fl : Float64) (heap : Heap fl.Float) where
  open fl use {Float}

  int-copied :
      {room : ℕ} {v : PyValue Float} {f : Frozen Float} (n : ℤ)
      → Copies fl heap room v f
      → f ≡ frozen_int n
      → v ≡ py_int n
  int-copied n (copies_int m) e = let same : m ≡ n = cc in ap py_int same
  int-copied n _ e = cc

  -- A frozen dict with one name holds one entry.
  single_entry :
      {room : ℕ} {entries : List (PyKey × PyValue Float)} {fields : FrozenFields Float}
      (name : String) (n : ℤ)
      → CopiesFields fl heap room entries fields
      → DistinctKeys entries
      → all_among (keys_of fields) (name ∷ []) ≡ true
      → find_field fields name ≡ some (frozen_int n)
      → entries ≡ (str_key name, py_int n) ∷ []
  unfolding find_field all_among has_name
  single_entry name n copies_no_fields distinct among found = cc
  single_entry name n (copies_field {f = f} key free c copies_no_fields) distinct among found =
      let same : key ≡ name = (among_first key name [] among).0 in
      let here : text_eq name key ≡ true = (eq_iff name key).1 (sym same) in
      let value : f ≡ frozen_int n = some-injective (rw here at found) in
      let v = int-copied n c value in cc
  single_entry name n (copies_field key free c (copies_field {fs = rest} other free' d ds)) distinct
        among found =
      let (same, later) = among_first key name (other ∷ keys_of rest) among in
      let same' = (among_first other name (keys_of rest) later).0 in
      absurd (distinct.0.0 (ap str_key (same' ∙ sym same)))

  -- The parameters are a dict with the one name and an integer of 1 or more.
  abbrev pub IsSingle : String → PyValue Float → ℤ → Type 0
  IsSingle name v n =
      (a : ℕ) × (v ≡ py_container a)
      × (heap a ≡ dict_of ((str_key name, py_int n) ∷ []))
      × (ltb_ℤ n (pos 1) ≡ false)

  -- A value that is copied to a mapping is a dict.
  copied_dict :
      {v : PyValue Float} {f : Frozen Float} (fields : FrozenFields Float)
      → Copies fl heap 65 v f
      → f ≡ frozen_mapping fields
      → (a : ℕ) × (entries : List (PyKey × PyValue Float)) × (v ≡ py_container a)
        × (heap a ≡ dict_of entries)
        × CopiesFields fl heap 64 entries fields
  copied_dict copied (copies_dict a {entries = entries} {fields = built} e cs) is =
      let same : built ≡ copied = cc in
      (a, entries, refl, e, subst (CopiesFields fl heap 64 entries) same cs)
  copied_dict copied _ is = cc

  integer_parameter-IsSingle :
      (name : String) (v : PyValue Float) (n : ℤ)
      → ((a : ℕ) (entries : List (PyKey × PyValue Float))
          → heap a ≡ dict_of entries
          → DistinctKeys entries)
      → integer_parameter fl heap name v ≡ ok n
      → IsSingle name v n
  unfolding integer_parameter require_exact_keys
  integer_parameter-IsSingle name v n distinct h =
      let (frozen, froze, h1) = >>=-eq-ok (freeze_exact_json_mapping fl heap v) _ h in
      let keys = keys_of (fields_of frozen) in
      let (exact, h2) =
        guard-eq-ok (not (all_among keys (name ∷ []) && all_among (name ∷ []) keys)) value_error _
          h1 in
      let (value, read, h3) =
        >>=-eq-ok (or_raise (find_field (fields_of frozen) name) index_error) _ h2 in
      let (is_int, enough) = require_builtin_int-ok value (pos 1) n h3 in
      let found = or_raise-eq-ok _ index_error read ∙ ap some is_int in
      let (copies, fields, shape) = (freeze_exact_json_mapping_iff fl heap v frozen).0 froze in
      let (a, entries, is_dict, stored, cs) = copied_dict fields copies shape in
      let same : fields_of frozen ≡ fields = ap fields_of shape in
      let among : all_among keys (name ∷ []) ≡ true = ground arith in
      let entry =
        single_entry name n cs (distinct a entries stored)
          (subst (λ fs. all_among (keys_of fs) (name ∷ []) ≡ true) same among)
          (subst (λ fs. find_field fs name ≡ some (frozen_int n)) same found) in
      (a, is_dict, stored ∙ ap dict_of entry, enough)

  IsSingle-integer_parameter :
      (name : String) (v : PyValue Float) (n : ℤ)
      → text_eq name "$float64" ≡ false
      → IsSingle name v n
      → integer_parameter fl heap name v ≡ ok n
  unfolding integer_parameter require_exact_keys all_among has_name find_field require_builtin_int
  IsSingle-integer_parameter name v n free (a, is_dict, stored, enough) =
      let copies : Copies fl heap 65 (py_container a)
          (frozen_mapping (field name (frozen_int n) no_fields)) =
        copies_dict a stored (copies_field name free (copies_int n) copies_no_fields) in
      let froze = (freeze_exact_json_mapping_iff fl heap (py_container a) _).1 (copies, _, refl) in
      rw (is_dict, froze, eq_refl name, enough) refl

  on_value_error-eq-ok :
      (r : Result ℤ) {n : ℤ} → (on_value_error integrity_error r ≡ ok n) ↔ (r ≡ ok n)
  on_value_error-eq-ok (ok m) = (λ h. h, λ h. h)
  on_value_error-eq-ok (err e) = (λ h. cc, λ h. cc)

  -- In a heap of dicts whose keys differ, each null takes exactly a dict with its one parameter, a
  -- built-in integer of 1 or more, as its parameters, and reads that integer from it.
  pub null_parameters_iff :
      (v : PyValue Float) (n : ℤ)
      → ((a : ℕ) (entries : List (PyKey × PyValue Float))
          → heap a ≡ dict_of entries
          → DistinctKeys entries)
      → ((block_shuffle_parameters fl heap v ≡ ok n) ↔ IsSingle "block_length" v n)
        × ((circular_shift_parameters fl heap v ≡ ok n) ↔ IsSingle "min_shift" v n)
  unfolding block_shuffle_parameters circular_shift_parameters
  null_parameters_iff v n distinct = (
    (
      λ h.
          integer_parameter-IsSingle "block_length" v n distinct
            ((on_value_error-eq-ok (integer_parameter fl heap "block_length" v)).0 h),
      λ s.
          (on_value_error-eq-ok (integer_parameter fl heap "block_length" v)).1
            (IsSingle-integer_parameter "block_length" v n refl s),
    ),
    (
      λ h.
          integer_parameter-IsSingle "min_shift" v n distinct
            ((on_value_error-eq-ok (integer_parameter fl heap "min_shift" v)).0 h),
      λ s.
          (on_value_error-eq-ok (integer_parameter fl heap "min_shift" v)).1
            (IsSingle-integer_parameter "min_shift" v n refl s),
    ),
  )
