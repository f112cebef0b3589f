-- ===== src/Parameters/Accepted.antt =====
-- What `freeze_exact_json_mapping` accepts, and that it refuses every cycle.
use selcal.Prelude.{
  ℕ, ◌≤◌, ◌<◌, List, [], ◌∷◌, ◌≡◌, ◌≢◌, ◌↔◌, ◌⊎◌, inl, inr, refl, sym, ap, subst, arith,
}
use selcal.Errors.{ok, >>=-eq-ok, ok-injective}
use selcal.Floats.{Float64}
use selcal.Parameters.{
  PyValue, py_none, py_bool, py_int, py_str, py_float, py_container, py_other, PyKey, Container,
  list_of, dict_of, Heap, Frozen, frozen_mapping, FrozenItems, FrozenFields, exact_plain_dict,
  require_mapping, freeze_exact_json_mapping,
}
use selcal.Parameters.Copies.{
  Copies, copies_list, copies_dict, CopiesItems, copies_no_items, copies_item, CopiesFields,
  copies_no_fields, copies_field, freeze_value-Copies,
}
use selcal.Parameters.Finite.{
  size, size_items, size_fields, list-injective, dict-injective, items_moved, fields_moved,
  Copies-unique, freeze_value-copy,
}

module _ (fl : Float64) (heap : Heap fl.Float) where
  open fl use {Float}

  mapping-Copies :
      {n : ℕ} {v : PyValue Float} {fields : FrozenFields Float}
      → Copies fl heap n v (frozen_mapping fields)
      → require_mapping fl heap v ≡ ok v
  mapping-Copies (copies_dict a e cs) = rw e

  Copies-mapping :
      {n : ℕ} {v m : PyValue Float} {f : Frozen Float}
      → require_mapping fl heap v ≡ ok m
      → Copies fl heap n v f
      → (m ≡ v) × (fields : FrozenFields Float) × (f ≡ frozen_mapping fields)
  Copies-mapping h (copies_list a e cs) = let k = rw e at h in cc
  Copies-mapping h (copies_dict a {fields = fields} e cs) =
      let k = rw e at h in (sym (ok-injective k), fields, refl)
  Copies-mapping h _ = cc

  require_mapping-eq :
      (v : PyValue Float) {m : PyValue Float} → require_mapping fl heap v ≡ ok m → m ≡ v
  require_mapping-eq (py_container a) h = by_container (heap a) h
    where
      by_container :
          (c : Container Float) {m : PyValue Float}
          → exact_plain_dict fl heap (py_container a) c ≡ ok m
          → m ≡ py_container a
      by_container (list_of vs) k = cc
      by_container (dict_of vs) k = sym (ok-injective k)
  require_mapping-eq py_none h = cc
  require_mapping-eq (py_bool b) h = cc
  require_mapping-eq (py_int b) h = cc
  require_mapping-eq (py_str b) h = cc
  require_mapping-eq (py_float b) h = cc
  require_mapping-eq py_other h = cc

  -- Freezing returns a value exactly where it is a mapping that copies the caller's value, with
  -- containers nested at most 65 deep: so it accepts every such finite tree, also one in which a
  -- container is shared, and refuses everything else.
  pub freeze_exact_json_mapping_iff :
      (v : PyValue Float) (f : Frozen Float)
      → (freeze_exact_json_mapping fl heap v ≡ ok f)
        ↔ (Copies fl heap 65 v f × (fields : FrozenFields Float) × (f ≡ frozen_mapping fields))
  unfolding freeze_exact_json_mapping
  freeze_exact_json_mapping_iff v f = (
    λ h.
        let (m, mapping, frozen) = >>=-eq-ok (require_mapping fl heap v) _ h in
        let copies =
          subst (λ w. Copies fl heap 65 w f) (require_mapping-eq v mapping)
            (freeze_value-Copies fl heap 65 [] m f frozen) in
        let (_, fields, is_mapping) = Copies-mapping mapping copies in (copies, fields, is_mapping),
    λ (copies, fields, is_mapping).
        rw (mapping-Copies (subst (Copies fl heap 65 v) is_mapping copies))
          (freeze_value-copy fl heap [] copies tt),
  )

  abbrev pub Among : PyValue Float → List (PyValue Float) → Type 0
  Among v [] = ⊥
  Among v (w ∷ ws) = (w ≡ v) ⊎ Among v ws

  abbrev pub AmongValues : PyValue Float → List (PyKey × PyValue Float) → Type 0
  AmongValues v [] = ⊥
  AmongValues v ((key, w) ∷ ws) = (w ≡ v) ⊎ AmongValues v ws

  -- The second container lies in the first, at any depth.
  pub data Nested : ℕ → ℕ → Type 0 where
    in_list :
        {a b : ℕ} (vs : List (PyValue Float))
        → heap a ≡ list_of vs
        → Among (py_container b) vs
        → Nested a b
    in_dict :
        {a b : ℕ} (vs : List (PyKey × PyValue Float))
        → heap a ≡ dict_of vs
        → AmongValues (py_container b) vs
        → Nested a b
    deeper : {a b c : ℕ} → Nested a b → Nested b c → Nested a c

  -- A copy of `b` that is smaller than `n`
  SmallerCopy : ℕ → PyValue Float → Type 0
  SmallerCopy n v = (r : ℕ) × (g : Frozen Float) × Copies fl heap r v g × (size g ≤ n)

  item-copy :
      {n : ℕ} (v : PyValue Float) {vs : List (PyValue Float)} {fs : FrozenItems Float}
      → CopiesItems fl heap n vs fs
      → Among v vs
      → SmallerCopy (size_items fs) v
  unfolding SmallerCopy size
  item-copy v copies_no_items m = elim m [ ]
  item-copy v (copies_item {room = r} {f = f} c cs) (inl e) =
      (r, f, subst (λ w. Copies fl heap r w f) e c, omega arith)
  item-copy v (copies_item c cs) (inr m) =
      let (r, g, d, le) = item-copy v cs m in (r, g, d, omega arith)

  field-copy :
      {n : ℕ} (v : PyValue Float) {vs : List (PyKey × PyValue Float)} {fs : FrozenFields Float}
      → CopiesFields fl heap n vs fs
      → AmongValues v vs
      → SmallerCopy (size_fields fs) v
  unfolding SmallerCopy size
  field-copy v copies_no_fields m = elim m [ ]
  field-copy v (copies_field {room = r} {f = f} key free c cs) (inl e) =
      (r, f, subst (λ w. Copies fl heap r w f) e c, omega arith)
  field-copy v (copies_field key free c cs) (inr m) =
      let (r, g, d, le) = field-copy v cs m in (r, g, d, omega arith)

  list-copy :
      {n : ℕ} {a : ℕ} {f : Frozen Float} (vs : List (PyValue Float)) (v : PyValue Float)
      → heap a ≡ list_of vs
      → Among v vs
      → Copies fl heap n (py_container a) f
      → (r : ℕ) × (g : Frozen Float) × Copies fl heap r v g × (size g < size f)
  unfolding SmallerCopy size
  list-copy vs v e m (copies_list b d cs) =
      let (r, g, c, le) = item-copy v (items_moved fl heap (list-injective fl heap d e) cs) m in
      (r, g, c, omega arith)
  list-copy vs v e m (copies_dict b d cs) = cc

  dict-copy :
      {n : ℕ} {a : ℕ} {f : Frozen Float} (vs : List (PyKey × PyValue Float)) (v : PyValue Float)
      → heap a ≡ dict_of vs
      → AmongValues v vs
      → Copies fl heap n (py_container a) f
      → (r : ℕ) × (g : Frozen Float) × Copies fl heap r v g × (size g < size f)
  unfolding SmallerCopy size
  dict-copy vs v e m (copies_list b d cs) = cc
  dict-copy vs v e m (copies_dict b d cs) =
      let (r, g, c, le) = field-copy v (fields_moved fl heap (dict-injective fl heap d e) cs) m in
      (r, g, c, omega arith)

  Nested-copy :
      {a b : ℕ}
      → Nested a b
      → {n : ℕ} {f : Frozen Float} → Copies fl heap n (py_container a) f
      → (r : ℕ) × (g : Frozen Float) × Copies fl heap r (py_container b) g × (size g < size f)
  Nested-copy {b = b} (in_list vs e m) c = list-copy vs (py_container b) e m c
  Nested-copy {b = b} (in_dict vs e m) c = dict-copy vs (py_container b) e m c
  Nested-copy (deeper first second) c =
      let (r, g, d, lt) = Nested-copy first c in
      let (q, k, d', lt') = Nested-copy second d in (q, k, d', omega arith)

  no_cycle : {n a : ℕ} {f : Frozen Float} → Nested a a → Copies fl heap n (py_container a) f → ⊥
  no_cycle loop c =
      let (r, g, d, lt) = Nested-copy loop c in
      let same = ap size (Copies-unique fl heap c d) in absurd (omega arith)

  -- A mapping that contains a cyclic container, itself or at any depth, is refused.
  pub freeze_exact_json_mapping-Nested :
      (root a : ℕ) (f : Frozen Float)
      → (root ≡ a) ⊎ Nested root a
      → Nested a a
      → freeze_exact_json_mapping fl heap (py_container root) ≢ ok f
  freeze_exact_json_mapping-Nested root a f (inl e) loop h = no_cycle loop (
      subst (λ k. Copies fl heap 65 (py_container k) f) e
        ((freeze_exact_json_mapping_iff (py_container root) f).0 h).0)
  freeze_exact_json_mapping-Nested root a f (inr inside) loop h =
      let (r, g, d, lt) =
        Nested-copy inside ((freeze_exact_json_mapping_iff (py_container root) f).0 h).0 in
      no_cycle loop d
