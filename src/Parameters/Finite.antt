-- ===== src/Parameters/Finite.antt =====
-- Freezing accepts exactly what it can copy: the caller's finite trees of a limited depth.
use selcal.Prelude.{
  ℕ, zero, suc, ◌+◌, ◌≤◌, ◌<◌, List, [], ◌∷◌, false, ◌≡◌, refl, ap, subst, arith, inl, inr,
  Bool-cases, ◌==◌,
}
use selcal.Errors.{ok}
use selcal.Floats.{Float64}
use selcal.Parameters.{
  PyValue, py_container, PyKey, list_of, dict_of, Heap, Frozen, frozen_none, frozen_bool,
  frozen_int, frozen_str, frozen_float, frozen_tuple, frozen_mapping, FrozenItems, no_items, item,
  FrozenFields, no_fields, field, is_active, require_key, freeze_items, freeze_fields, freeze_float,
  freeze_container, freeze_by_type, freeze_value,
}
use selcal.Parameters.Copies.{
  Copies, copies_none, copies_bool, copies_int, copies_str, copies_float, copies_list, copies_dict,
  CopiesItems, copies_no_items, copies_item, CopiesFields, copies_no_fields, copies_field,
}

unfoldable mutual
  pub size : {F : Type 0} → Frozen F → ℕ
  size frozen_none = 1
  size (frozen_bool b) = 1
  size (frozen_int n) = 1
  size (frozen_str s) = 1
  size (frozen_float x) = 1
  size (frozen_tuple items) = suc (size_items items)
  size (frozen_mapping fields) = suc (size_fields fields)

  pub size_items : {F : Type 0} → FrozenItems F → ℕ
  size_items no_items = 0
  size_items (item f fs) = size f + size_items fs

  pub size_fields : {F : Type 0} → FrozenFields F → ℕ
  size_fields no_fields = 0
  size_fields (field key f fs) = size f + size_fields fs

module _ (fl : Float64) (heap : Heap fl.Float) where
  open fl use {Float, is_finite, feq}

  pub list-injective :
      {a : ℕ} {vs ws : List (PyValue Float)} → heap a ≡ list_of vs → heap a ≡ list_of ws → vs ≡ ws
  list-injective e f = cc

  pub dict-injective :
      {a : ℕ} {vs ws : List (PyKey × PyValue Float)}
      → heap a ≡ dict_of vs
      → heap a ≡ dict_of ws
      → vs ≡ ws
  dict-injective e f = cc

  pub items_moved :
      {n : ℕ} {vs ws : List (PyValue Float)} {g : FrozenItems Float}
      → vs ≡ ws
      → CopiesItems fl heap n vs g
      → CopiesItems fl heap n ws g
  items_moved {n = n} {g = g} e c = subst (λ l. CopiesItems fl heap n l g) e c

  pub fields_moved :
      {n : ℕ} {vs ws : List (PyKey × PyValue Float)} {g : FrozenFields Float}
      → vs ≡ ws
      → CopiesFields fl heap n vs g
      → CopiesFields fl heap n ws g
  fields_moved {n = n} {g = g} e c = subst (λ l. CopiesFields fl heap n l g) e c

  -- A value has one copy, whatever the depths.
  mutual
    pub Copies-unique :
        {m n : ℕ} {v : PyValue Float} {f g : Frozen Float}
        → Copies fl heap m v f
        → Copies fl heap n v g
        → f ≡ g
    Copies-unique copies_none copies_none = refl
    Copies-unique (copies_bool b) (copies_bool c) = refl
    Copies-unique (copies_int b) (copies_int c) = refl
    Copies-unique (copies_str b) (copies_str c) = refl
    Copies-unique (copies_float x h) (copies_float y k) = refl
    Copies-unique (copies_list a e is) (copies_list b d js) =
        ap frozen_tuple (CopiesItems-unique is (items_moved (list-injective d e) js))
    Copies-unique (copies_list a e is) (copies_dict b d js) = cc
    Copies-unique (copies_dict a e is) (copies_list b d js) = cc
    Copies-unique (copies_dict a e is) (copies_dict b d js) =
        ap frozen_mapping (CopiesFields-unique is (fields_moved (dict-injective d e) js))

    CopiesItems-unique :
        {m n : ℕ} {vs : List (PyValue Float)} {f g : FrozenItems Float}
        → CopiesItems fl heap m vs f
        → CopiesItems fl heap n vs g
        → f ≡ g
    CopiesItems-unique copies_no_items copies_no_items = refl
    CopiesItems-unique (copies_item c cs) (copies_item d ds) =
        cc (Copies-unique c d, CopiesItems-unique cs ds)

    CopiesFields-unique :
        {m n : ℕ} {vs : List (PyKey × PyValue Float)} {f g : FrozenFields Float}
        → CopiesFields fl heap m vs f
        → CopiesFields fl heap n vs g
        → f ≡ g
    CopiesFields-unique copies_no_fields copies_no_fields = refl
    CopiesFields-unique (copies_field k h c cs) (copies_field l j d ds) =
        cc (Copies-unique c d, CopiesFields-unique cs ds)

  -- The active containers have copies that are larger than `n`.
  abbrev AllAbove : ℕ → List ℕ → Type 0
  AllAbove n [] = Unit
  AllAbove n (b ∷ bs) =
      ((r : ℕ) × (g : Frozen Float) × Copies fl heap r (py_container b) g × (n < size g))
      × AllAbove n bs

  AllAbove-le : (m n : ℕ) (bs : List ℕ) → m ≤ n → AllAbove n bs → AllAbove m bs
  AllAbove-le m n [] le h = tt
  AllAbove-le m n (b ∷ bs) le ((r, g, c, lt), h) = ((r, g, c, omega arith), AllAbove-le m n bs le h)

  not_active :
      (a : ℕ) {room : ℕ} (f : Frozen Float) (bs : List ℕ)
      → Copies fl heap room (py_container a) f
      → AllAbove (size f) bs
      → is_active a bs ≡ false
  not_active a f [] c h = refl
  not_active a f (b ∷ bs) c ((r, g, d, lt), h) = elim (Bool-cases (a == b)) [
    | inr other ↦ rw other (not_active a f bs c h)
    | inl same ↦
        let e : b ≡ a = ground arith in
        let moved = subst (λ k. Copies fl heap r (py_container k) g) e d in
        let equal = ap size (Copies-unique c moved) in absurd (omega arith)
  ]

  -- What has a copy is frozen to it, where the active containers are larger.
  mutual
    unfolding freeze_value freeze_by_type freeze_float freeze_container freeze_items freeze_fields
        require_key size

    pub freeze_value-copy :
        {room : ℕ} {v : PyValue Float} {f : Frozen Float} (active : List ℕ)
        → Copies fl heap room v f
        → AllAbove (size f) active
        → freeze_value fl heap room active v ≡ ok f
    freeze_value-copy {room = zero} active copies_none h = refl
    freeze_value-copy {room = suc room} active copies_none h = refl
    freeze_value-copy {room = zero} active (copies_bool b) h = refl
    freeze_value-copy {room = suc room} active (copies_bool b) h = refl
    freeze_value-copy {room = zero} active (copies_int n) h = refl
    freeze_value-copy {room = suc room} active (copies_int n) h = refl
    freeze_value-copy {room = zero} active (copies_str s) h = refl
    freeze_value-copy {room = suc room} active (copies_str s) h = refl
    freeze_value-copy {room = zero} active (copies_float x finite) h = rw finite
    freeze_value-copy {room = suc room} active (copies_float x finite) h = rw finite
    freeze_value-copy active (copies_list {room = room} a {items = items} e cs) h =
        let fresh = not_active a (frozen_tuple items) active (copies_list a e cs) h in
        let above : AllAbove (size_items items) (a ∷ active) = (
          (suc room, frozen_tuple items, copies_list a e cs, omega arith),
          AllAbove-le (size_items items) (suc (size_items items)) active (omega arith) h,
        ) in
        rw (fresh, e, freeze_items-copy (a ∷ active) cs above)
    freeze_value-copy active (copies_dict {room = room} a {fields = fields} e cs) h =
        let fresh = not_active a (frozen_mapping fields) active (copies_dict a e cs) h in
        let above : AllAbove (size_fields fields) (a ∷ active) = (
          (suc room, frozen_mapping fields, copies_dict a e cs, omega arith),
          AllAbove-le (size_fields fields) (suc (size_fields fields)) active (omega arith) h,
        ) in
        rw (fresh, e, freeze_fields-copy (a ∷ active) cs above)

    freeze_items-copy :
        {room : ℕ} {vs : List (PyValue Float)} {fs : FrozenItems Float} (active : List ℕ)
        → CopiesItems fl heap room vs fs
        → AllAbove (size_items fs) active
        → freeze_items fl heap (freeze_value fl heap room active) vs ≡ ok fs
    freeze_items-copy active copies_no_items h = refl
    freeze_items-copy active (copies_item {f = f} {fs = fs} c cs) h =
        let first =
          freeze_value-copy active c
            (AllAbove-le (size f) (size f + size_items fs) active (omega arith) h) in
        let rest =
          freeze_items-copy active cs
            (AllAbove-le (size_items fs) (size f + size_items fs) active (omega arith) h) in
        rw (first, rest)

    freeze_fields-copy :
        {room : ℕ} {vs : List (PyKey × PyValue Float)} {fs : FrozenFields Float} (active : List ℕ)
        → CopiesFields fl heap room vs fs
        → AllAbove (size_fields fs) active
        → freeze_fields fl heap (freeze_value fl heap room active) vs ≡ ok fs
    freeze_fields-copy active copies_no_fields h = refl
    freeze_fields-copy active (copies_field {f = f} {fs = fs} key free c cs) h =
        let first =
          freeze_value-copy active c
            (AllAbove-le (size f) (size f + size_fields fs) active (omega arith) h) in
        let rest =
          freeze_fields-copy active cs
            (AllAbove-le (size_fields fs) (size f + size_fields fs) active (omega arith) h) in
        rw (free, first, rest)
