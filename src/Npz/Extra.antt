-- ===== src/Npz/Extra.antt =====
-- The extra fields of a ZIP header: the parser against the layout that it reads.
use mathlib.Core.List.{append_assoc, append-nil}
use selcal.Prelude.{
  ℕ, zero, suc, ◌+◌, ◌*◌, ◌/◌, ◌%◌, ◌<◌, ◌≤◌, List, [], ◌∷◌, ◌++◌, false, ◌||◌, Option, none, some,
  ◌≡◌, ◌↔◌, refl, sym, ap, ◌∙◌, arith, length, length-append, length-take, take-append-drop, subst,
  or-eq-false, take, drop, ltb,
}
use selcal.Errors.{ok, value_error, guard-eq-ok, ok-injective}
use selcal.Arrays.{slice}
use selcal.Selection.Family.{is_some}
use selcal.Npz.{Bytes, le_value, ExtraFields, lookup_field, parse_extra_from, parse_extra_fields}

-- Two bytes, the low one first
abbrev pub le_uint16 : ℕ → Bytes → Bytes
le_uint16 n rest = n % 256 ∷ n / 256 ∷ rest

-- The layout of the fields: an id, a size and the payload for each
abbrev pub laid_out : ExtraFields → Bytes
laid_out [] = []
laid_out ((id, payload) ∷ fields) =
    le_uint16 id (le_uint16 (length payload) (payload ++ laid_out fields))

-- No id twice, also not one of those before; ids and sizes of 16 bits
abbrev pub IsFresh : ExtraFields → ExtraFields → Type 0
IsFresh before [] = Unit
IsFresh before ((id, payload) ∷ fields) =
    (lookup_field id before ≡ none)
    × (id < 0x10000)
    × (length payload < 0x10000)
    × IsFresh (before ++ (id, payload) ∷ []) fields

le_value-uint16 : (n : ℕ) → n < 0x10000 → le_value (n % 256 ∷ n / 256 ∷ []) ≡ n
unfolding le_value
le_value-uint16 n h = omega arith

take-append_left {ℓ} : {A : Type ℓ} (xs ys : List A) → take (length xs) (xs ++ ys) ≡ xs
take-append_left [] ys = refl
take-append_left (x ∷ xs) ys = rw (take-append_left xs ys)

slice_behind {ℓ} :
    {A : Type ℓ} (a b c d : A) (xs ys : List A)
    → slice 4 (4 + length xs) (a ∷ b ∷ c ∷ d ∷ (xs ++ ys)) ≡ xs
slice_behind a b c d xs ys =
    let four : 4 + length xs ≡ suc (suc (suc (suc (length xs)))) = omega arith in
    rw four (take-append_left xs ys)

-- The cursor passes the bytes of the payload.
skipped :
    (xs ys : Bytes) (before : ExtraFields)
    → parse_extra_from (xs ++ ys) (length xs) before ≡ parse_extra_from ys 0 before
unfolding parse_extra_from
skipped [] ys before = refl
skipped (x ∷ xs) ys before = skipped xs ys before

parse_extra_from-laid_out :
    (before fields : ExtraFields)
    → IsFresh before fields
    → parse_extra_from (laid_out fields) 0 before ≡ ok (before ++ fields)
unfolding parse_extra_from
parse_extra_from-laid_out before [] h = rw (append-nil before)
parse_extra_from-laid_out before ((id, payload) ∷ fields) (fresh, small, short, h) =
    let n = length payload in
    let rest = laid_out fields in
    let room : ltb (suc (suc (suc (suc (length (payload ++ rest)))))) 4 ≡ false = ground arith in
    let fits : ltb (suc (suc (suc (suc (length (payload ++ rest)))))) (4 + n) ≡ false =
      ground (arith, length-append payload rest) in
    let three : 3 + n ≡ suc (suc (suc n)) = omega arith in
    rw (
      room,
      le_value-uint16 id small,
      le_value-uint16 n short,
      fits,
      fresh,
      slice_behind (id % 256) (id / 256) (n % 256) (n / 256) payload rest,
      three,
      skipped payload rest (before ++ (id, payload) ∷ []),
      parse_extra_from-laid_out (before ++ (id, payload) ∷ []) fields h,
      append_assoc before ((id, payload) ∷ []) fields,
    )

-- Each number is a byte.
abbrev pub AllBytes : Bytes → Type 0
AllBytes [] = Unit
AllBytes (b ∷ bs) = (b < 256) × AllBytes bs

uint16-le_value :
    (a b : ℕ) (rest : Bytes)
    → a < 256
    → b < 256
    → le_uint16 (le_value (a ∷ b ∷ [])) rest ≡ a ∷ b ∷ rest
unfolding le_value
uint16-le_value a b rest ha hb =
    let value : a + 256 * (b + 256 * 0) ≡ a + 256 * b = omega arith in
    let low : (a + 256 * b) % 256 ≡ a = omega arith in
    let high : (a + 256 * b) / 256 ≡ b = omega arith in rw (value, low, high)

uint16-lt : (a b : ℕ) → a < 256 → b < 256 → le_value (a ∷ b ∷ []) < 0x10000
unfolding le_value
uint16-lt a b ha hb = omega arith

-- What the fields behind the cursor are, where the parser ends without an error
IsParsed : Bytes → ExtraFields → ExtraFields → Type 0
IsParsed rest before fields =
    (new : ExtraFields) × (fields ≡ before ++ new) × (rest ≡ laid_out new) × IsFresh before new

none-of : {A : Type 0} (o : Option A) → is_some o ≡ false → o ≡ none
none-of none h = refl
none-of (some a) h = cc

parse_extra_from-IsParsed :
    (rest : Bytes) (skip : ℕ) (before : ExtraFields) {fields : ExtraFields}
    → AllBytes rest
    → skip ≤ length rest
    → parse_extra_from rest skip before ≡ ok fields
    → IsParsed (drop skip rest) before fields
unfolding parse_extra_from IsParsed
parse_extra_from-IsParsed [] zero before bytes le h =
    ([], sym (ok-injective h) ∙ sym (append-nil before), refl, tt)
parse_extra_from-IsParsed [] (suc skip) before bytes le h = absurd (omega arith)
parse_extra_from-IsParsed (b ∷ rest) (suc skip) before bytes le h =
    parse_extra_from-IsParsed rest skip before bytes.1 (omega arith) h
parse_extra_from-IsParsed (b ∷ []) zero before bytes le h = cc
parse_extra_from-IsParsed (b ∷ c ∷ []) zero before bytes le h = cc
parse_extra_from-IsParsed (b ∷ c ∷ d ∷ []) zero before bytes le h = cc
parse_extra_from-IsParsed (b ∷ c ∷ d ∷ e ∷ r) zero before (hb, (hc, (hd, (he, bytes)))) le h =
    let id = le_value (b ∷ c ∷ []) in
    let n = le_value (d ∷ e ∷ []) in
    let whole = b ∷ c ∷ d ∷ e ∷ r in
    let (room, h1) = guard-eq-ok (ltb (length whole) 4) value_error _ h in
    let (fits, h2) =
      guard-eq-ok (ltb (length whole) (4 + n) || is_some (lookup_field id before)) value_error _
        h1 in
    let (enough, fresh) = or-eq-false (ltb (length whole) (4 + n)) _ fits in
    let inside : n ≤ length r = ground arith in
    let payload = slice 4 (4 + n) whole in
    let four : 4 + n ≡ suc (suc (suc (suc n))) = omega arith in
    let three : 3 + n ≡ suc (suc (suc n)) = omega arith in
    let is_taken : payload ≡ take n r = rw four in
    let size : length payload ≡ n = rw is_taken (omega (arith, length-take n r)) in
    let (new, all, later, h3) =
      parse_extra_from-IsParsed (c ∷ d ∷ e ∷ r) (3 + n) (before ++ (id, payload) ∷ [])
        (hc, (hd, (he, bytes))) (omega arith) h2 in
    let behind : drop n r ≡ laid_out new = rw three at later in
    (
      (id, payload) ∷ new,
      all ∙ append_assoc before ((id, payload) ∷ []) new,
      sym (
          ap (λ m. le_uint16 id (le_uint16 m (payload ++ laid_out new))) size
          ∙ ap (le_uint16 id) (uint16-le_value d e (payload ++ laid_out new) hd he)
          ∙ uint16-le_value b c (d ∷ e ∷ (payload ++ laid_out new)) hb hc
          ∙ ap (λ t. b ∷ c ∷ d ∷ e ∷ t)
              (ap (λ q. q ++ laid_out new) is_taken
                ∙ ap (λ q. take n r ++ q) (sym behind)
                ∙ take-append-drop n r)),
      (
        none-of (lookup_field id before) fresh,
        uint16-lt b c hb hc,
        subst (λ m. m < 0x10000) (sym size) (uint16-lt d e hd he),
        h3,
      ),
    )

-- On bytes the parser returns exactly the fields that the bytes are the layout of: an id, a size
-- and a payload for each, no id twice. It refuses all other bytes, among them every truncated field.
pub parse_extra_fields_iff :
    (extra : Bytes) (fields : ExtraFields)
    → AllBytes extra
    → (parse_extra_fields extra ≡ ok fields) ↔ ((extra ≡ laid_out fields) × IsFresh [] fields)
unfolding parse_extra_fields IsParsed
parse_extra_fields_iff extra fields bytes = (
  λ h.
      let (new, all, layout, fresh) = parse_extra_from-IsParsed extra 0 [] bytes (omega arith) h in
      (layout ∙ ap laid_out (sym all), subst (IsFresh []) (sym all) fresh),
  λ h. rw h.0 (parse_extra_from-laid_out [] fields h.1),
)
