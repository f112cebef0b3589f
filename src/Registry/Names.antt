-- ===== src/Registry/Names.antt =====
-- Which names the pattern of src/selcal/identifiers.py matches.
use selcal.Prelude.{
  ℕ, [], ◌∷◌, ◌++◌, true, not, Option, none, some, ◌≡◌, ◌↔◌, refl, ap, subst, arith, inl, inr,
  Bool-cases, not-eq-false,
}
use selcal.Errors.{ok, value_error, guard-eq-ok, ok-injective}
use selcal.Nulls.Token.{Text}
use selcal.Registry.{
  is_lower, is_version_digit, is_word, all_digits, matches_version, matches_rest,
  matches_versioned_name, require_versioned_name,
}

abbrev pub AllWord : Text → Type 0
AllWord [] = Unit
AllWord (c ∷ cs) = (is_word c ≡ true) × AllWord cs

-- A suffix `_v` with a number that does not begin with a zero
pub record IsVersion (t : Text) : Type 0 where
  pub digit : ℕ
  pub digits : Text
  pub shape : t ≡ b'_' ∷ b'v' ∷ digit ∷ digits
  pub positive : is_version_digit digit ≡ true
  pub all : all_digits digits ≡ true

-- A lower-case letter, then lower-case letters, digits and underscores, then a version
pub record IsVersionedName (t : Text) : Type 0 where
  pub first : ℕ
  pub stem : Text
  pub version : Text
  pub shape : t ≡ first ∷ (stem ++ version)
  pub lower : is_lower first ≡ true
  pub words : AllWord stem
  pub versioned : IsVersion version

matches_version-IsVersion : (t : Text) → matches_version t ≡ true → IsVersion t
unfolding matches_version
matches_version-IsVersion [] h = cc
matches_version-IsVersion (a ∷ []) h = cc
matches_version-IsVersion (a ∷ b ∷ []) h = cc
matches_version-IsVersion (a ∷ b ∷ c ∷ cs) h =
    let underscore : a ≡ b'_' = ground arith in
    let letter : b ≡ b'v' = ground arith in
    record {
      digit = c;
      digits = cs;
      shape = cc (underscore, letter);
      positive = ground arith;
      all = ground arith;
    }

IsVersion-matches : {t : Text} → IsVersion t → matches_version t ≡ true
unfolding matches_version
IsVersion-matches v = rw (v.shape, v.positive, v.all) refl

matches_rest-split :
    (t : Text)
    → matches_rest t ≡ true
    → (stem : Text) × (version : Text) × (t ≡ stem ++ version) × AllWord stem × IsVersion version
unfolding matches_rest
matches_rest-split [] h = cc
matches_rest-split (c ∷ cs) h = elim (Bool-cases (matches_version (c ∷ cs))) [
  | inl here ↦ ([], c ∷ cs, refl, tt, matches_version-IsVersion (c ∷ cs) here)
  | inr later ↦
      let word : is_word c ≡ true = ground arith in
      let rest : matches_rest cs ≡ true = ground arith in
      let (stem, version, shape, words, v) = matches_rest-split cs rest in
      (c ∷ stem, version, ap (λ r. c ∷ r) shape, (word, words), v)
]

matches_version-rest : (t : Text) → matches_version t ≡ true → matches_rest t ≡ true
unfolding matches_rest
matches_version-rest [] h = cc
matches_version-rest (c ∷ cs) h = rw h refl

split-matches_rest :
    (stem : Text) {version : Text}
    → AllWord stem
    → IsVersion version
    → matches_rest (stem ++ version) ≡ true
unfolding matches_rest
split-matches_rest [] {version} words v = matches_version-rest version (IsVersion-matches v)
split-matches_rest (c ∷ stem) words v =
    let rest = split-matches_rest stem words.1 v in ground (arith, words.0, rest)

matches-IsVersionedName : (t : Text) → matches_versioned_name t ≡ true → IsVersionedName t
unfolding matches_versioned_name
matches-IsVersionedName [] h = cc
matches-IsVersionedName (c ∷ cs) h =
    let lower : is_lower c ≡ true = ground arith in
    let rest : matches_rest cs ≡ true = ground arith in
    let (stem, version, shape, words, v) = matches_rest-split cs rest in
    record {
      first = c;
      stem = stem;
      version = version;
      shape = ap (λ r. c ∷ r) shape;
      lower = lower;
      words = words;
      versioned = v;
    }

pub IsVersionedName-matches : {t : Text} → IsVersionedName t → matches_versioned_name t ≡ true
unfolding matches_versioned_name
IsVersionedName-matches n =
    rw (n.shape, n.lower, split-matches_rest n.stem n.words n.versioned) refl

-- A value passes exactly where it is a built-in string of a lower-case letter, then lower-case
-- letters, digits and underscores, then `_v` and a number that does not begin with a zero; and it
-- is returned as it is.
pub require_versioned_name_iff :
    (value : Option Text) (t : Text)
    → (require_versioned_name value ≡ ok t) ↔ ((value ≡ some t) × IsVersionedName t)
unfolding require_versioned_name
require_versioned_name_iff none t = (λ h. cc, λ (e, n). cc)
require_versioned_name_iff (some s) t = (
  λ h.
      let (passed, h1) = guard-eq-ok (not (matches_versioned_name s)) value_error _ h in
      let same = ok-injective h1 in
      (
        ap some same,
        subst IsVersionedName same (matches-IsVersionedName s (not-eq-false _ passed)),
      ),
  λ (e, n). let same : s ≡ t = cc in rw (same, IsVersionedName-matches n) refl,
)
