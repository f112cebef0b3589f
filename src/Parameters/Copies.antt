-- ===== src/Parameters/Copies.antt =====
-- What a frozen value is of the caller's: a copy of it, of a limited depth.
use text.Mathlib.Text.{◌==◌ as text_eq}
use selcal.Prelude.{
  ℕ, zero, suc, List, [], ◌∷◌, Bool, true, false, not, String, ◌≡◌, refl, sym, ap, subst,
  if◌then◌else◌, not-eq-false,
}
use selcal.Prelude.Int.{ℤ}
use selcal.Errors.{
  Result, ok, err, value_error, raise_if, >>=-eq-ok, guard-eq-ok, ok-injective, ◌>>◌,
}
use selcal.Floats.{Float64}
use selcal.Parameters.{
  PyValue, py_none, py_bool, py_int, py_str, py_float, py_container, py_other, PyKey, str_key,
  other_key, Container, list_of, dict_of, Heap, Frozen, frozen_none, frozen_bool, frozen_int,
  frozen_str, frozen_float, frozen_tuple, frozen_mapping, FrozenItems, no_items, item, FrozenFields,
  no_fields, field, is_active, require_key, freeze_items, freeze_fields, freeze_float,
  freeze_container, freeze_by_type, freeze_value,
}

module _ (fl : Float64) (heap : Heap fl.Float) where
  open fl use {Float, is_finite, feq}

  -- The frozen value is the caller's: the same scalars, finite floats without a negative zero, for a
  -- list the tuple of its frozen items, for a dict a mapping of its keys to its frozen values in the
  -- dict's order, none of them the reserved key; and containers are nested `room` deep at most.
  mutual
    pub data Copies : ℕ → PyValue Float → Frozen Float → Type 0 where
      copies_none : {room : ℕ} → Copies room py_none frozen_none
      copies_bool : {room : ℕ} (b : Bool) → Copies room (py_bool b) (frozen_bool b)
      copies_int : {room : ℕ} (n : ℤ) → Copies room (py_int n) (frozen_int n)
      copies_str : {room : ℕ} (s : String) → Copies room (py_str s) (frozen_str s)
      copies_float :
          {room : ℕ} (x : Float)
          → is_finite x ≡ true
          → Copies room (py_float x) (frozen_float (if feq x fl.zero then fl.zero else x))
      copies_list :
          {room : ℕ} (a : ℕ) {values : List (PyValue Float)} {items : FrozenItems Float}
          → heap a ≡ list_of values
          → CopiesItems room values items
          → Copies (suc room) (py_container a) (frozen_tuple items)
      copies_dict :
          {room : ℕ} (a : ℕ) {entries : List (PyKey × PyValue Float)} {fields : FrozenFields Float}
          → heap a ≡ dict_of entries
          → CopiesFields room entries fields
          → Copies (suc room) (py_container a) (frozen_mapping fields)

    pub data CopiesItems : ℕ → List (PyValue Float) → FrozenItems Float → Type 0 where
      copies_no_items : {room : ℕ} → CopiesItems room [] no_items
      copies_item :
          {room : ℕ} {v : PyValue Float} {vs : List (PyValue Float)} {f : Frozen Float}
          {fs : FrozenItems Float}
          → Copies room v f
          → CopiesItems room vs fs
          → CopiesItems room (v ∷ vs) (item f fs)

    pub data CopiesFields : ℕ → List (PyKey × PyValue Float) → FrozenFields Float → Type 0 where
      copies_no_fields : {room : ℕ} → CopiesFields room [] no_fields
      copies_field :
          {room : ℕ} {v : PyValue Float} {vs : List (PyKey × PyValue Float)} {f : Frozen Float}
          {fs : FrozenFields Float} (key : String)
          → text_eq key "$float64" ≡ false
          → Copies room v f
          → CopiesFields room vs fs
          → CopiesFields room ((str_key key, v) ∷ vs) (field key f fs)

  module _ (room : ℕ) (freeze : PyValue Float → Result (Frozen Float))
      (each : (v : PyValue Float) (f : Frozen Float) → freeze v ≡ ok f → Copies room v f) where
    freeze_items-CopiesItems :
        (vs : List (PyValue Float)) {fs : FrozenItems Float}
        → freeze_items fl heap freeze vs ≡ ok fs
        → CopiesItems room vs fs
    unfolding freeze_items
    freeze_items-CopiesItems [] h = subst (CopiesItems room []) (ok-injective h) copies_no_items
    freeze_items-CopiesItems (v ∷ vs) h =
        let (f, one, h1) = >>=-eq-ok (freeze v) _ h in
        let (fs, all, h2) = >>=-eq-ok (freeze_items fl heap freeze vs) _ h1 in
        subst (CopiesItems room (v ∷ vs)) (ok-injective h2)
          (copies_item (each v f one) (freeze_items-CopiesItems vs all))

    require_key-eq :
        (key : PyKey) {name : String}
        → require_key key ≡ ok name
        → (key ≡ str_key name) × (text_eq name "$float64" ≡ false)
    unfolding require_key
    require_key-eq other_key h = cc
    require_key-eq (str_key key) h =
        let (free, h1) = guard-eq-ok (text_eq key "$float64") value_error _ h in
        (
          ap str_key (ok-injective h1),
          subst (λ n. text_eq n "$float64" ≡ false) (ok-injective h1) free,
        )

    freeze_fields-CopiesFields :
        (vs : List (PyKey × PyValue Float)) {fs : FrozenFields Float}
        → freeze_fields fl heap freeze vs ≡ ok fs
        → CopiesFields room vs fs
    unfolding freeze_fields
    freeze_fields-CopiesFields [] h = subst (CopiesFields room []) (ok-injective h) copies_no_fields
    freeze_fields-CopiesFields ((key, v) ∷ vs) {fs = whole} h =
        let (name, named, h0) = >>=-eq-ok (require_key key) _ h in
        let (f, one, h1) = >>=-eq-ok (freeze v) _ h0 in
        let (fs, all, h2) = >>=-eq-ok (freeze_fields fl heap freeze vs) _ h1 in
        let (same, free) = require_key-eq key named in
        subst (λ k. CopiesFields room ((k, v) ∷ vs) whole) (sym same)
          (subst (CopiesFields room ((str_key name, v) ∷ vs)) (ok-injective h2)
            (copies_field name free (each v f one) (freeze_fields-CopiesFields vs all)))

    freeze_container-Copies :
        (a : ℕ) (c : Container Float) {f : Frozen Float}
        → heap a ≡ c
        → freeze_container fl heap freeze c ≡ ok f
        → Copies (suc room) (py_container a) f
    unfolding freeze_container
    freeze_container-Copies a (list_of values) e h =
        let (items, all, h1) = >>=-eq-ok (freeze_items fl heap freeze values) _ h in
        subst (Copies (suc room) (py_container a)) (ok-injective h1)
          (copies_list a e (freeze_items-CopiesItems values all))
    freeze_container-Copies a (dict_of entries) e h =
        let (fields, all, h1) = >>=-eq-ok (freeze_fields fl heap freeze entries) _ h in
        subst (Copies (suc room) (py_container a)) (ok-injective h1)
          (copies_dict a e (freeze_fields-CopiesFields entries all))

  freeze_by_type-Copies :
      (room : ℕ) (enter : ℕ → Result (Frozen Float))
      → ((a : ℕ) (f : Frozen Float) → enter a ≡ ok f → Copies room (py_container a) f)
      → (v : PyValue Float) {f : Frozen Float} → freeze_by_type fl heap enter v ≡ ok f
      → Copies room v f
  unfolding freeze_by_type freeze_float
  freeze_by_type-Copies room enter each py_none h =
      subst (Copies room py_none) (ok-injective h) copies_none
  freeze_by_type-Copies room enter each (py_bool b) h =
      subst (Copies room (py_bool b)) (ok-injective h) (copies_bool b)
  freeze_by_type-Copies room enter each (py_int n) h =
      subst (Copies room (py_int n)) (ok-injective h) (copies_int n)
  freeze_by_type-Copies room enter each (py_str s) h =
      subst (Copies room (py_str s)) (ok-injective h) (copies_str s)
  freeze_by_type-Copies room enter each (py_float x) h =
      let (finite, h1) = guard-eq-ok (not (is_finite x)) value_error _ h in
      subst (Copies room (py_float x)) (ok-injective h1) (copies_float x (not-eq-false _ finite))
  freeze_by_type-Copies room enter each (py_container a) {f} h = each a f h
  freeze_by_type-Copies room enter each py_other h = cc

  pub freeze_value-Copies :
      (room : ℕ) (active : List ℕ) (v : PyValue Float) (f : Frozen Float)
      → freeze_value fl heap room active v ≡ ok f
      → Copies room v f
  unfolding freeze_value
  freeze_value-Copies zero active v f h =
      freeze_by_type-Copies zero (λ a. err value_error) (λ a g e. cc) v h
  freeze_value-Copies (suc room) active v f h =
      freeze_by_type-Copies (suc room)
        (λ a.
          raise_if (is_active a active) value_error
          >> freeze_container fl heap (freeze_value fl heap room (a ∷ active)) (heap a))
        (λ a g e.
          let (fresh, e1) = guard-eq-ok (is_active a active) value_error _ e in
          freeze_container-Copies room (freeze_value fl heap room (a ∷ active))
            (freeze_value-Copies room (a ∷ active)) a (heap a) refl e1)
        v h
