-- ===== src/Contracts/Normal.antt =====
-- A `SeriesPair` holds finite floats without a negative zero: constructing one from the vectors of
-- another, or from their entries in another order, changes nothing.
use selcal.Prelude.{
  ℕ, ◌-◌, zero, suc, List, [], ◌∷◌, ◌++◌, Bool, true, false, not, ◌≡◌, refl, ◌∙◌, arith, map,
  length, length-map, subst, take, drop, ◌==◌,
}
use selcal.Errors.{ok, value_error, raise_if, >>=-eq-ok, >>-eq-ok, raise_if-eq-ok, ok-injective}
use selcal.Arrays.Laws.{rotated}
use selcal.Floats.{Float64, IsIeee}
use selcal.Candidates.{is_empty}
use selcal.Contracts.{SeriesPair, all_finite, plus_zero, validated_series, series_pair}
use selcal.Contracts.Laws.{normal-normal}

module _ (fl : Float64) where
  open fl use {Float, is_finite, feq}

  -- A float that `_validated_series` keeps as it is
  pub record IsNormal (x : Float) : Type 0 where
    pub finite : is_finite x ≡ true
    pub kept : plus_zero fl x ≡ x

  pub data AllNormal : List Float → Type 0 where
    nothing : AllNormal []
    more : {x : Float} {xs : List Float} → IsNormal x → AllNormal xs → AllNormal (x ∷ xs)

  pub AllNormal-append : {xs ys : List Float} → AllNormal xs → AllNormal ys → AllNormal (xs ++ ys)
  AllNormal-append nothing b = b
  AllNormal-append (more h a) b = more h (AllNormal-append a b)

  pub AllNormal-take : (n : ℕ) {xs : List Float} → AllNormal xs → AllNormal (take n xs)
  AllNormal-take zero a = nothing
  AllNormal-take (suc n) nothing = nothing
  AllNormal-take (suc n) (more h a) = more h (AllNormal-take n a)

  pub AllNormal-drop : (n : ℕ) {xs : List Float} → AllNormal xs → AllNormal (drop n xs)
  AllNormal-drop zero a = a
  AllNormal-drop (suc n) nothing = nothing
  AllNormal-drop (suc n) (more h a) = AllNormal-drop n a

  pub AllNormal-rotated :
      (shift : ℕ) {xs : List Float} → AllNormal xs → AllNormal (rotated shift xs)
  AllNormal-rotated shift {xs} a =
      AllNormal-append (AllNormal-drop (length xs - shift) a) (AllNormal-take (length xs - shift) a)

  pub AllNormal-map : {xs : List Float} → AllNormal xs → map (plus_zero fl) xs ≡ xs
  AllNormal-map nothing = refl
  AllNormal-map (more h a) = rw (h.kept, AllNormal-map a)

  pub AllNormal-all_finite : {xs : List Float} → AllNormal xs → all_finite fl xs ≡ true
  unfolding all_finite
  AllNormal-all_finite nothing = refl
  AllNormal-all_finite (more h a) = rw (h.finite, AllNormal-all_finite a)

  pub validated_series_normal :
      (xs : List Float) → AllNormal xs → is_empty xs ≡ false → validated_series fl xs ≡ ok xs
  unfolding validated_series
  validated_series_normal xs a e = rw (e, AllNormal-all_finite a, AllNormal-map a)

  pub filled_of_length :
      (xs ys : List Float) → is_empty xs ≡ false → length xs ≡ length ys → is_empty ys ≡ false
  filled_of_length [] ys e h = cc
  filled_of_length (x ∷ xs) [] e h = absurd (omega arith)
  filled_of_length (x ∷ xs) (y ∷ ys) e h = refl

  pub series_pair_normal :
      (p : SeriesPair Float)
      → AllNormal p.source
      → AllNormal p.target
      → is_empty p.source ≡ false
      → length p.source ≡ length p.target
      → series_pair fl p ≡ ok p
  unfolding series_pair
  series_pair_normal p a b e h =
      let filled = filled_of_length p.source p.target e h in
      let same : (length p.source == length p.target) ≡ true = ground arith in
      rw (validated_series_normal p.source a e, validated_series_normal p.target b filled, same)

  -- What `SeriesPair.__post_init__` has made of the vectors that it accepts.
  pub record IsPair (p : SeriesPair Float) : Type 0 where
    pub source : AllNormal p.source
    pub target : AllNormal p.target
    pub filled : is_empty p.source ≡ false
    pub aligned : length p.source ≡ length p.target

  pub series_pair_again : (p : SeriesPair Float) → IsPair p → series_pair fl p ≡ ok p
  series_pair_again p h = series_pair_normal p h.source h.target h.filled h.aligned

  not-false : {b : Bool} → not b ≡ false → b ≡ true
  not-false h = ground arith

  module _ (laws : IsIeee fl) where
    AllNormal-plus_zero :
        (xs : List Float) → all_finite fl xs ≡ true → AllNormal (map (plus_zero fl) xs)
    unfolding all_finite plus_zero
    AllNormal-plus_zero [] h = nothing
    AllNormal-plus_zero (x ∷ xs) h =
        let z = laws.zero_finite in
        more (record { finite = ground (arith, z); kept = normal-normal fl x })
          (AllNormal-plus_zero xs (ground arith))

    mapped :
        (xs : List Float) {zs ys : List Float}
        → AllNormal zs
        → is_empty zs ≡ false
        → length zs ≡ length xs
        → zs ≡ ys
        → AllNormal ys × (is_empty ys ≡ false) × (length ys ≡ length xs)
    mapped xs a e h z =
        subst (λ w. AllNormal w × (is_empty w ≡ false) × (length w ≡ length xs)) z (a, e, h)

    validated_series_ok :
        (xs : List Float) {ys : List Float}
        → validated_series fl xs ≡ ok ys
        → AllNormal ys × (is_empty ys ≡ false) × (length ys ≡ length xs)
    unfolding validated_series
    validated_series_ok [] h = cc
    validated_series_ok (x ∷ xs) {ys} h =
        let (a, b) = >>-eq-ok (raise_if (not (all_finite fl (x ∷ xs))) value_error) _ h in
        let c = raise_if-eq-ok (not (all_finite fl (x ∷ xs))) value_error a in
        mapped (x ∷ xs) (AllNormal-plus_zero (x ∷ xs) (ground arith)) refl
          (length-map (x ∷ xs) (plus_zero fl)) (ok-injective b)

    abbrev pair_of : List Float → List Float → SeriesPair Float
    pair_of source target = record { source = source; target = target }

    IsPair-of_parts :
        {source target : List Float} {q : SeriesPair Float}
        → AllNormal source
        → AllNormal target
        → is_empty source ≡ false
        → (length source == length target) ≡ true
        → ok (pair_of source target) ≡ ok q
        → IsPair q × (length q.source ≡ length source)
    IsPair-of_parts {source} {target} a b e h w =
        subst (λ r. IsPair r × (length r.source ≡ length source)) (ok-injective w)
          (record { source = a; target = b; filled = e; aligned = ground arith }, refl)

    pub series_pair-IsPair :
        (p : SeriesPair Float) {q : SeriesPair Float}
        → series_pair fl p ≡ ok q
        → IsPair q × (length q.source ≡ length p.source)
    unfolding series_pair
    series_pair-IsPair p {q} h =
        let (source, e, h1) = >>=-eq-ok (validated_series fl p.source) _ h in
        let (target, f, h2) = >>=-eq-ok (validated_series fl p.target) _ h1 in
        let (g, h3) = >>-eq-ok (raise_if (not (length source == length target)) value_error) _ h2 in
        let (a, b, c) = validated_series_ok p.source e in
        let (a', b', c') = validated_series_ok p.target f in
        let same : (length source == length target) ≡ true =
          not-false (raise_if-eq-ok _ value_error g) in
        let (d, size) = IsPair-of_parts a a' b same h3 in (d, size ∙ c)
