-- ===== src/Registry/Tests.antt =====
-- A registry of two adapters over numbers, and refused names and entries.
use selcal.Prelude.{ℕ, suc, List, [], ◌∷◌, none, some, ◌≡◌, ◌≢◌, refl, map, get_elem?}
use selcal.Errors.{Result, ok, err, value_error}
use selcal.Arrays.{equal_numbers}
use selcal.Nulls.Token.{text}
use selcal.Registry.{
  all_digits, matches_version, matches_rest, matches_versioned_name, require_versioned_name,
  RegistryEntry, not_a_pair, pair, AdapterRegistry, is_seen, register_entries, adapter_registry,
  find_factory, build,
}
use selcal.Registry.Names.{IsVersionedName, require_versioned_name_iff}
use selcal.Registry.Entries.{as_entry, IsRegistry, adapter_registry_iff}
use selcal.Registry.Build.{build-decides}

program : Unit {0}
unfolding equal_numbers all_digits matches_version matches_rest matches_versioned_name
    require_versioned_name is_seen register_entries adapter_registry find_factory build
program = tt

abbrev next : ℕ → Result ℕ
next n = ok (suc n)

abbrev refuse : ℕ → Result ℕ
refuse n = err value_error

abbrev entries : List (RegistryEntry (ℕ → Result ℕ))
entries =
    pair (some (text "lagged_pearson_v1")) (some next)
    ∷ pair (some (text "binned_v1_v20")) (some refuse)
    ∷ []

abbrev registry : AdapterRegistry (ℕ → Result ℕ)
registry = record {
  factories = (text "lagged_pearson_v1", next) ∷ (text "binned_v1_v20", refuse) ∷ [];
}

name_accepted : require_versioned_name (some (text "binned_v1_v20")) ≡ ok (text "binned_v1_v20")
unfolding program
name_accepted = refl

require_versioned_name_iff_example :
    (some (text "binned_v1_v20") ≡ some (text "binned_v1_v20"))
    × IsVersionedName (text "binned_v1_v20")
require_versioned_name_iff_example =
    (require_versioned_name_iff (some (text "binned_v1_v20")) (text "binned_v1_v20")).0
      name_accepted

entries_accepted : adapter_registry entries ≡ ok registry
unfolding program
entries_accepted = refl

adapter_registry_iff_example :
    (entries ≡ map as_entry registry.factories) × IsRegistry registry.factories
adapter_registry_iff_example = (adapter_registry_iff entries registry).0 entries_accepted

build-decides_example :
    ((i : ℕ) (factory : ℕ → Result ℕ)
      → get_elem? entries i ≡ some (pair (some (text "lagged_pearson_v1")) (some factory))
      → build registry (some (text "lagged_pearson_v1")) 3 ≡ factory 3)
    × (((i : ℕ) (factory : ℕ → Result ℕ)
          → get_elem? entries i ≢ some (pair (some (text "lagged_pearson_v1")) (some factory)))
        → build registry (some (text "lagged_pearson_v1")) 3 ≡ err value_error)
build-decides_example = build-decides entries registry (text "lagged_pearson_v1") 3 entries_accepted

builds :
    (build registry (some (text "lagged_pearson_v1")) 3 ≡ ok 4)
    × (build registry (some (text "lagged_pearson_v2")) 3 ≡ err value_error)
    × (build registry none 3 ≡ err value_error)
unfolding program
builds = (refl, refl, refl)

-- Versions that begin with a zero, an upper-case letter, no version, and a line end
names_refused :
    (require_versioned_name (some (text "null_v0")) ≡ err value_error)
    × (require_versioned_name (some (text "Null_v1")) ≡ err value_error)
    × (require_versioned_name (some (text "null")) ≡ err value_error)
    × (require_versioned_name (some (text "null_v1\n")) ≡ err value_error)
unfolding program
names_refused = (refl, refl, refl, refl)

abbrev twice : List (RegistryEntry (ℕ → Result ℕ))
twice = pair (some (text "a_v1")) (some next) ∷ pair (some (text "a_v1")) (some refuse) ∷ []

abbrev no_pair : List (RegistryEntry (ℕ → Result ℕ))
no_pair = not_a_pair ∷ []

abbrev not_callable : List (RegistryEntry (ℕ → Result ℕ))
not_callable = pair (some (text "a_v1")) none ∷ []

entries_refused :
    (adapter_registry twice ≡ err value_error)
    × (adapter_registry no_pair ≡ err value_error)
    × (adapter_registry not_callable ≡ err value_error)
unfolding program
entries_refused = (refl, refl, refl)
