-- ===== src/Registry.antt =====
-- src/selcal/identifiers.py and src/selcal/registry.py: versioned names, and the registry that
-- builds an adapter from one. An iterable of entries is the list of what it yields.
pub mod Names
pub mod Entries
pub mod Build
mod Tests
use selcal.Prelude.{
  ℕ, suc, List, [], ◌∷◌, Bool, true, false, not, ◌&&◌, ◌||◌, Option, none, some, ◌==◌, leb, ltb,
  if◌then◌else◌, map,
}
use selcal.Errors.{Result, ok, err, value_error, raise_if, or_raise, ◌>>=◌, ◌>>◌}
use selcal.Arrays.{equal_numbers}
use selcal.Nulls.Token.{Text}

-- `[a-z]`
abbrev pub is_lower : ℕ → Bool
is_lower c = leb b'a' c && leb c b'z'

-- `[0-9]` and `[1-9]`
abbrev pub is_digit : ℕ → Bool
is_digit c = leb b'0' c && leb c b'9'

abbrev pub is_version_digit : ℕ → Bool
is_version_digit c = leb b'1' c && leb c b'9'

-- `[a-z0-9_]`
abbrev pub is_word : ℕ → Bool
is_word c = is_lower c || (is_digit c || c == b'_')

unfoldable pub all_digits : Text → Bool
all_digits [] = true
all_digits (c ∷ cs) = is_digit c && all_digits cs

-- `_v[1-9][0-9]*\Z`
unfoldable pub matches_version : Text → Bool
unfolding all_digits
matches_version (a ∷ b ∷ c ∷ cs) = a == b'_' && (b == b'v' && (is_version_digit c && all_digits cs))
matches_version _ = false

-- `[a-z0-9_]*_v[1-9][0-9]*\Z`, whose first part may end at any place
unfoldable pub matches_rest : Text → Bool
unfolding matches_version
matches_rest [] = false
matches_rest (c ∷ cs) = matches_version (c ∷ cs) || (is_word c && matches_rest cs)

-- `_VERSIONED_NAME.fullmatch`
unfoldable pub matches_versioned_name : Text → Bool
unfolding matches_rest
matches_versioned_name [] = false
matches_versioned_name (c ∷ cs) = is_lower c && matches_rest cs

-- `require_versioned_name`, of a built-in string or of another object
unfoldable pub require_versioned_name : Option Text → Result Text
unfolding matches_versioned_name
require_versioned_name value = do
  text ← or_raise value value_error
  raise_if (not (matches_versioned_name text)) value_error
  ok text

-- What the iterable yields: an object that does not unpack into two, or a name and a factory, each
-- of which may be another object than it should be.
pub data RegistryEntry (F : Type 0) : Type 0 where
  not_a_pair : RegistryEntry F
  pair : Option Text → Option F → RegistryEntry F

pub record AdapterRegistry (F : Type 0) : Type 0 where
  pub factories : List (Text × F)

abbrev pub max_registry_entries : ℕ
max_registry_entries = 1024

-- `entry_name, factory = entry`
abbrev pub unpack_entry : {F : Type 0} → RegistryEntry F → Result (Option Text × Option F)
unpack_entry not_a_pair = err value_error
unpack_entry (pair name factory) = ok (name, factory)

-- `normalized_name in seen_names`
unfoldable pub is_seen : Text → List Text → Bool
unfolding equal_numbers
is_seen name [] = false
is_seen name (s ∷ seen) = equal_numbers name s || is_seen name seen

-- The loop over the entries
unfoldable pub register_entries :
    {F : Type 0} → ℕ → List Text → List (RegistryEntry F) → Result (List (Text × F))
unfolding require_versioned_name is_seen
register_entries position seen [] = ok []
register_entries position seen (entry ∷ entries) = do
  raise_if (ltb max_registry_entries position) value_error
  fields ← unpack_entry entry
  normalized_name ← require_versioned_name fields.0
  factory ← or_raise fields.1 value_error
  raise_if (is_seen normalized_name seen) value_error
  rest ← register_entries (suc position) (normalized_name ∷ seen) entries
  ok ((normalized_name, factory) ∷ rest)

-- `AdapterRegistry.__init__`
unfoldable pub adapter_registry : {F : Type 0} → List (RegistryEntry F) → Result (AdapterRegistry F)
unfolding register_entries
adapter_registry entries = do
  validated_entries ← register_entries 1 [] entries
  ok (record { factories = validated_entries })

-- `self._factories[normalized_name]`
unfoldable pub find_factory : {F : Type 0} → List (Text × F) → Text → Option F
unfolding equal_numbers
find_factory [] name = none
find_factory ((key, factory) ∷ factories) name =
    if equal_numbers name key then some factory else find_factory factories name

-- `AdapterRegistry.build`: a factory is called with the parameters, and may raise.
unfoldable pub build : {P T : Type 0} → AdapterRegistry (P → Result T) → Option Text → P → Result T
unfolding require_versioned_name find_factory
build registry name parameters = do
  normalized_name ← require_versioned_name name
  factory ← or_raise (find_factory registry.factories normalized_name) value_error
  factory parameters
