-- ===== src/Registry/Build.antt =====
-- What a registry builds.
use selcal.Prelude.{
  ℕ, zero, suc, List, [], ◌∷◌, none, some, ◌≡◌, ◌≢◌, refl, sym, ap, arith, inl, inr, map, get_elem?,
  Bool-cases,
}
use selcal.Errors.{Result, ok, err, value_error}
use selcal.Arrays.{equal_numbers}
use selcal.Arrays.Laws.{equal_numbers-eq, equal_numbers_refl}
use selcal.Nulls.Token.{Text}
use selcal.Registry.{
  RegistryEntry, pair, AdapterRegistry, require_versioned_name, adapter_registry,
  matches_versioned_name, find_factory, build,
}
use selcal.Registry.Names.{IsVersionedName-matches}
use selcal.Registry.Entries.{as_entry, names_of, adapter_registry_iff}

module _ {F : Type 0} where
  get_elem?-names :
      (fs : List (Text × F)) (i : ℕ) {n : Text} {f : F}
      → get_elem? fs i ≡ some (n, f)
      → get_elem? (names_of fs) i ≡ some n
  get_elem?-names [] i e = cc
  get_elem?-names (g ∷ gs) zero e = cc
  get_elem?-names (g ∷ gs) (suc i) e = get_elem?-names gs i e

  get_elem?-as_entry :
      (fs : List (Text × F)) (i : ℕ) {n : Text} {f : F}
      → get_elem? (map as_entry fs) i ≡ some (pair (some n) (some f))
      → get_elem? fs i ≡ some (n, f)
  get_elem?-as_entry [] i e = cc
  get_elem?-as_entry ((m, g) ∷ gs) zero {n} {f} e =
      let name : m ≡ n = cc in let factory : g ≡ f = cc in rw (name, factory) refl
  get_elem?-as_entry (g ∷ gs) (suc i) e = get_elem?-as_entry gs i e

  find_factory-some :
      (fs : List (Text × F)) (i : ℕ) (n : Text) (f : F)
      → ((i j : ℕ) (n : Text)
          → get_elem? (names_of fs) i ≡ some n
          → get_elem? (names_of fs) j ≡ some n
          → i ≡ j)
      → get_elem? fs i ≡ some (n, f)
      → find_factory fs n ≡ some f
  unfolding find_factory
  find_factory-some [] i n f distinct e = cc
  find_factory-some (g ∷ gs) zero n f distinct e =
      let name : g.0 ≡ n = cc in
      let factory : g.1 ≡ f = cc in rw (name, equal_numbers_refl n, factory) refl
  find_factory-some (g ∷ gs) (suc i) n f distinct e =
      let rest =
        find_factory-some gs i n f
          (λ j k m a b. let same = distinct (suc j) (suc k) m a b in omega arith) e in
      elim (Bool-cases (equal_numbers n g.0)) [
        | inl same ↦
            let clash =
              distinct 0 (suc i) n (ap some (sym (equal_numbers-eq n g.0 same)))
                (get_elem?-names gs i e) in
            absurd (omega arith)
        | inr other ↦ rw (other, rest) refl
      ]

  find_factory-none :
      (fs : List (Text × F)) (n : Text)
      → ((i : ℕ) (f : F) → get_elem? (map as_entry fs) i ≢ some (pair (some n) (some f)))
      → find_factory fs n ≡ none
  unfolding find_factory
  find_factory-none [] n h = refl
  find_factory-none (g ∷ gs) n h =
      let rest = find_factory-none gs n (λ i f. h (suc i) f) in
      elim (Bool-cases (equal_numbers n g.0)) [
        | inl same ↦ let name = equal_numbers-eq n g.0 same in absurd (h 0 g.1 (rw name refl))
        | inr other ↦ rw (other, rest) refl
      ]

module _ {P T : Type 0} where
  -- A registry calls, for the name of an entry, the factory of that entry with the parameters, and
  -- ends as that call ends; for a name of no entry it raises.
  pub build-decides :
      (entries : List (RegistryEntry (P → Result T))) (r : AdapterRegistry (P → Result T))
      (n : Text) (parameters : P)
      → adapter_registry entries ≡ ok r
      → ((i : ℕ) (factory : P → Result T)
          → get_elem? entries i ≡ some (pair (some n) (some factory))
          → build r (some n) parameters ≡ factory parameters)
        × (((i : ℕ) (factory : P → Result T)
              → get_elem? entries i ≢ some (pair (some n) (some factory)))
            → build r (some n) parameters ≡ err value_error)
  unfolding build require_versioned_name
  build-decides entries r n parameters made =
      let (shape, registry) = (adapter_registry_iff entries r).0 made in
      (
        λ i factory e.
            let found = get_elem?-as_entry r.factories i (rw shape at e) in
            let versioned = registry.versioned i n (get_elem?-names r.factories i found) in
            let named = IsVersionedName-matches versioned in
            let factory_found = find_factory-some r.factories i n factory registry.distinct found in
            rw (named, factory_found) refl,
        λ missing.
            let not_found = find_factory-none r.factories n (λ i f e. missing i f (rw shape e)) in
            elim (Bool-cases (matches_versioned_name n)) [
              | inl named ↦ rw (named, not_found) refl
              | inr other ↦ rw other refl
            ],
      )
