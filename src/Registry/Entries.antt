-- ===== src/Registry/Entries.antt =====
-- Which entries make a registry.
use selcal.Prelude.{
  ℕ, zero, suc, ◌+◌, ◌≤◌, List, [], ◌∷◌, false, some, ◌≡◌, ◌≢◌, ◌↔◌, refl, sym, ap, ◌∙◌, subst,
  arith, inl, inr, map, length, get_elem?, ltb, Bool-cases,
}
use selcal.Errors.{ok, value_error, or_raise, >>=-eq-ok, guard-eq-ok, ok-injective, or_raise-eq-ok}
use selcal.Arrays.{equal_numbers}
use selcal.Arrays.Laws.{equal_numbers-eq, equal_numbers_refl}
use selcal.Nulls.Token.{Text}
use selcal.Registry.{
  AdapterRegistry, adapter_registry, RegistryEntry, not_a_pair, pair, max_registry_entries,
  require_versioned_name, is_seen, register_entries,
}
use selcal.Registry.Names.{IsVersionedName, require_versioned_name_iff}

-- Another name than the first, and not seen, is not seen after the first.
is_seen-more :
    (seen : List Text) (m n : Text) → is_seen n seen ≡ false → n ≢ m → is_seen n (m ∷ seen) ≡ false
unfolding is_seen
is_seen-more seen m n h differ = elim (Bool-cases (equal_numbers n m)) [
  | inl same ↦ absurd (differ (equal_numbers-eq n m same))
  | inr other ↦ rw (other, h) refl
]

module _ {F : Type 0} where
  abbrev pub as_entry : Text × F → RegistryEntry F
  as_entry (name, factory) = pair (some name) (some factory)

  abbrev pub names_of : List (Text × F) → List Text
  names_of factories = map (λ f. f.0) factories

  -- What the loop has checked, with the names it had seen
  abbrev pub AllNew : List Text → List (Text × F) → Type 0
  AllNew seen [] = Unit
  AllNew seen ((name, factory) ∷ rest) =
      IsVersionedName name × (is_seen name seen ≡ false) × AllNew (name ∷ seen) rest

  register_entries-AllNew :
      (position : ℕ) (seen : List Text) (entries : List (RegistryEntry F)) {fs : List (Text × F)}
      → register_entries position seen entries ≡ ok fs
      → (entries ≡ map as_entry fs)
        × AllNew seen fs
        × (position ≤ 1025 → position + length entries ≤ 1025)
  unfolding register_entries
  register_entries-AllNew position seen [] h =
      let e = ok-injective h in
      (subst (λ fs. [] ≡ map as_entry fs) e refl, subst (AllNew seen) e tt, λ le. omega arith)
  register_entries-AllNew position seen (not_a_pair ∷ entries) h =
      let (small, h1) = guard-eq-ok (ltb max_registry_entries position) value_error _ h in cc
  register_entries-AllNew position seen (pair name factory ∷ entries) h =
      let (small, h1) = guard-eq-ok (ltb max_registry_entries position) value_error _ h in
      let (n, named, h2) = >>=-eq-ok (require_versioned_name name) _ h1 in
      let (f, made, h3) = >>=-eq-ok (or_raise factory value_error) _ h2 in
      let (new, h4) = guard-eq-ok (is_seen n seen) value_error _ h3 in
      let (rest, rec, h5) = >>=-eq-ok (register_entries (suc position) (n ∷ seen) entries) _ h4 in
      let (shape, all, room) = register_entries-AllNew (suc position) (n ∷ seen) entries rec in
      let (is_name, versioned) = (require_versioned_name_iff name n).0 named in
      let is_factory = or_raise-eq-ok factory value_error made in
      let e = ok-injective h5 in
      let below : position ≤ 1024 = ground arith in
      (
        rw (is_name, is_factory, shape) (ap (map as_entry) e),
        subst (AllNew seen) e (versioned, new, all),
        λ le. let r = room (omega arith) in omega arith,
      )

  AllNew-register_entries :
      (position : ℕ) (seen : List Text) (fs : List (Text × F))
      → AllNew seen fs
      → position + length fs ≤ 1025
      → register_entries position seen (map as_entry fs) ≡ ok fs
  unfolding register_entries
  AllNew-register_entries position seen [] all le = refl
  AllNew-register_entries position seen ((n, f) ∷ fs) (versioned, new, all) le =
      let small : ltb max_registry_entries position ≡ false = ground arith in
      let named = (require_versioned_name_iff (some n) n).1 (refl, versioned) in
      let rest = AllNew-register_entries (suc position) (n ∷ seen) fs all (omega arith) in
      rw (small, named, new, rest) refl

  -- Names that are versioned and differ
  pub record IsRegistry (fs : List (Text × F)) : Type 0 where
    pub small : length fs ≤ 1024
    pub versioned : (i : ℕ) (n : Text) → get_elem? (names_of fs) i ≡ some n → IsVersionedName n
    pub distinct :
        (i j : ℕ) (n : Text)
        → get_elem? (names_of fs) i ≡ some n
        → get_elem? (names_of fs) j ≡ some n
        → i ≡ j

  AllNew-versioned :
      (seen : List Text) (fs : List (Text × F))
      → AllNew seen fs
      → (i : ℕ) (n : Text) → get_elem? (names_of fs) i ≡ some n
      → IsVersionedName n × (is_seen n seen ≡ false)
  unfolding is_seen
  AllNew-versioned seen [] all i n e = cc
  AllNew-versioned seen (f ∷ fs) (v, new, all) zero n e =
      let same : f.0 ≡ n = cc in
      subst (λ m. IsVersionedName m × (is_seen m seen ≡ false)) same (v, new)
  AllNew-versioned seen (f ∷ fs) (v, new, all) (suc i) n e =
      let (w, fresh) = AllNew-versioned (f.0 ∷ seen) fs all i n e in (w, ground arith)

  first-not_later :
      (seen : List Text) (f : Text × F) (fs : List (Text × F))
      → AllNew (f.0 ∷ seen) fs
      → (j : ℕ) → get_elem? (names_of fs) j ≢ some f.0
  unfolding is_seen
  first-not_later seen f fs all j d =
      let (w, fresh) = AllNew-versioned (f.0 ∷ seen) fs all j f.0 d in
      absurd (ground (arith, equal_numbers_refl f.0))

  AllNew-distinct :
      (seen : List Text) (fs : List (Text × F))
      → AllNew seen fs
      → (i j : ℕ) (n : Text) → get_elem? (names_of fs) i ≡ some n
      → get_elem? (names_of fs) j ≡ some n
      → i ≡ j
  AllNew-distinct seen [] all i j n e d = cc
  AllNew-distinct seen (f ∷ fs) (v, new, all) zero zero n e d = refl
  AllNew-distinct seen (f ∷ fs) (v, new, all) zero (suc j) n e d =
      absurd (first-not_later seen f fs all j (d ∙ sym e))
  AllNew-distinct seen (f ∷ fs) (v, new, all) (suc i) zero n e d =
      absurd (first-not_later seen f fs all i (e ∙ sym d))
  AllNew-distinct seen (f ∷ fs) (v, new, all) (suc i) (suc j) n e d =
      ap suc (AllNew-distinct (f.0 ∷ seen) fs all i j n e d)

  distinct-AllNew :
      (seen : List Text) (fs : List (Text × F))
      → ((i : ℕ) (n : Text) → get_elem? (names_of fs) i ≡ some n → IsVersionedName n)
      → ((i j : ℕ) (n : Text)
          → get_elem? (names_of fs) i ≡ some n
          → get_elem? (names_of fs) j ≡ some n
          → i ≡ j)
      → ((i : ℕ) (n : Text) → get_elem? (names_of fs) i ≡ some n → is_seen n seen ≡ false)
      → AllNew seen fs
  distinct-AllNew seen [] versioned distinct fresh = tt
  distinct-AllNew seen (f ∷ fs) versioned distinct fresh = (
    versioned 0 f.0 refl,
    fresh 0 f.0 refl,
    distinct-AllNew (f.0 ∷ seen) fs (λ i n e. versioned (suc i) n e)
        (λ i j n e d. let same = distinct (suc i) (suc j) n e d in omega arith)
        (λ i n e. is_seen-more seen f.0 n (fresh (suc i) n e) (λ same.
          let clash = distinct (suc i) 0 n e (ap some (sym same)) in absurd (omega arith))),
  )

  pub IsRegistry-AllNew : (fs : List (Text × F)) → IsRegistry fs → AllNew [] fs
  unfolding is_seen
  IsRegistry-AllNew fs r = distinct-AllNew [] fs r.versioned r.distinct (λ i n e. refl)

  length-as_entry : (fs : List (Text × F)) → length (map as_entry fs) ≡ length fs
  length-as_entry [] = refl
  length-as_entry (f ∷ fs) = ap suc (length-as_entry fs)

  -- A registry is made of entries exactly where they are pairs of a built-in string and a
  -- callable, at most 1024, whose names are versioned and differ; and it holds them in order.
  pub adapter_registry_iff :
      (entries : List (RegistryEntry F)) (r : AdapterRegistry F)
      → (adapter_registry entries ≡ ok r)
        ↔ ((entries ≡ map as_entry r.factories) × IsRegistry r.factories)
  unfolding adapter_registry
  adapter_registry_iff entries r = (
    λ h.
        let (fs, loop, h1) = >>=-eq-ok (register_entries 1 [] entries) _ h in
        let (shape, all, room) = register_entries-AllNew 1 [] entries loop in
        let e : fs ≡ r.factories = cc (ok-injective h1) in
        let small : length fs ≤ 1024 =
          omega (arith, room (omega arith), ap length shape, length-as_entry fs) in
        subst (λ gs. (entries ≡ map as_entry gs) × IsRegistry gs) e
          (
            shape,
            record {
              small = small;
              versioned = λ i n d. (AllNew-versioned [] fs all i n d).0;
              distinct = AllNew-distinct [] fs all;
            },
          ),
    λ (shape, registry).
        let loop =
          AllNew-register_entries 1 [] r.factories (IsRegistry-AllNew r.factories registry)
            (let s = registry.small in omega arith) in
        rw (shape, loop) refl,
  )
