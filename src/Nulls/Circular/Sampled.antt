-- ===== src/Nulls/Circular/Sampled.antt =====
-- The tokens that `sample_token` of src/selcal/nulls/circular_shift_v2.py makes, against those that
-- the null's own validation accepts.
use selcal.Prelude.{
  ℕ, ◌-◌, ◌*◌, ◌<◌, ◌≤◌, false, not, ◌&&◌, ◌↔◌, ◌≡◌, refl, sym, ap, subst, ◌∙◌, arith, length, leb,
  ltb, lt→ltb, ◌==◌, Bool-cases, inl, inr,
}
use selcal.Prelude.Int.{ℤ, pos, negsuc}
use selcal.Errors.{Result, ok, integrity_error, guard-eq-ok, ok-injective}
use selcal.Floats.{Float64}
use selcal.Contracts.{SeriesPair}
use selcal.Nulls.Token.{
  Text, circular_state_schema, circular_shift_v2, NullState, circular, block, CircularShiftState,
  NullTransformToken,
}
use selcal.Nulls.Owned.{Envelope}
use selcal.Nulls.Owned.Laws.{IsOwned, require_ownership-IsOwned, require_owned_fields_lem}
use selcal.Nulls.Circular.{
  BoundCircularShift, require_index, shift_of_index, sample_circular_token, validate_circular_token,
}
use selcal.Nulls.Circular.Sampling.{IsShift, shift_of_index-bijective}
use selcal.Nulls.Circular.Tokens.{
  IsBound, owned_token, filled_length, token_for_shift_lem, snapshot_circular_token_lem,
  validate_circular_token_lem,
}
use selcal.Nulls.Circular.Binding.{bound_of, IsRequest, bound_of-IsBound}

-- A source that draws one number, whatever the bound
abbrev pub draws : ℤ → ℕ → Unit {0} → Result (ℤ × Unit {0})
draws index bound s = ok (index, s)

abbrev shift_in : NullState → ℕ
shift_in (circular state) = state.shift
shift_in (block state) = 0

checked-IsShift :
    (m n shift : ℕ)
    → (not (shift == 0) && not (leb m shift && leb shift (n - m))) ≡ false
    → IsShift m n shift
unfolding IsShift
checked-IsShift m n shift h = elim (Bool-cases (shift == 0)) [
  | inl z ↦ inl (ground arith)
  | inr other ↦ inr (ground arith, ground arith)
]

module _ (fl : Float64) (payload : Float64.Float fl → ℤ)
    (sha256 : Envelope (Float64.Float fl) → Text) where
  open fl use {Float}

  module _ (min_shift : ℕ) (pair : SeriesPair Float) (semantic plan : Text)
      (r : IsRequest fl payload sha256 min_shift pair semantic plan)
      (room : ltb (length pair.source) (2 * min_shift) ≡ false) where
    abbrev bound : BoundCircularShift Float
    bound = bound_of fl payload sha256 min_shift pair semantic plan

    abbrev token_of : ℕ → NullTransformToken
    token_of = owned_token fl payload sha256 bound

    abbrev state_of : ℕ → CircularShiftState
    state_of shift = record { schema = circular_state_schema; shift = shift }

    is_bound : IsBound fl payload sha256 bound
    is_bound = bound_of-IsBound fl payload sha256 r room

    is_owned : IsOwned bound.owned
    is_owned =
        require_ownership-IsOwned fl payload sha256 circular_shift_v2 bound.min_shift
          bound.observed_length bound.owned is_bound.owned

    sampled :
        (i : ℕ)
        → i < bound.total_state_count
        → sample_circular_token fl payload sha256 (draws (pos i)) bound tt
          ≡ ok (token_of (shift_of_index min_shift i), tt)
    unfolding sample_circular_token require_index
    sampled i h = rw (
      lt→ltb i bound.total_state_count h,
      token_for_shift_lem fl payload sha256 bound (shift_of_index min_shift i) is_owned,
    )

    sampled-eq-ok :
        (index : ℤ) {token : NullTransformToken}
        → sample_circular_token fl payload sha256 (draws index) bound tt ≡ ok (token, tt)
        → (i : ℕ) × (index ≡ pos i)
          × (i < bound.total_state_count)
          × (token ≡ token_of (shift_of_index min_shift i))
    unfolding sample_circular_token require_index
    sampled-eq-ok (negsuc n) h = cc
    sampled-eq-ok (pos i) {token} h = elim (Bool-cases (ltb i bound.total_state_count)) [
      | inr above ↦ let k = rw above at h in cc
      | inl below ↦
          let lt : i < bound.total_state_count = ground arith in
          (
            i,
            refl,
            lt,
            ap (λ (q : NullTransformToken × Unit {0}). q.0)
                (ok-injective (sym h ∙ unfold sample_circular_token in sampled i lt)),
          )
    ]

    validated-IsShift :
        (shift : ℕ) {validated : NullTransformToken × CircularShiftState}
        → validate_circular_token fl payload sha256 bound (token_of shift) ≡ ok validated
        → IsShift min_shift (length pair.source) shift
    unfolding validate_circular_token
    validated-IsShift shift h =
        let fields =
          require_owned_fields_lem fl payload sha256 (token_of shift) circular_shift_v2 bound.owned
            refl refl refl refl refl refl in
        let rest =
          rw
            (
              is_bound.positive,
              filled_length (length pair.source) min_shift is_bound.positive room,
              room,
              is_bound.owned,
              snapshot_circular_token_lem fl payload sha256 bound shift is_owned,
              fields,
            )
            at h in
        checked-IsShift min_shift (length pair.source) shift
          (guard-eq-ok
            (not (shift == 0)
              && not (leb min_shift shift && leb shift (length pair.source - min_shift)))
            integrity_error _ rest).0

    positive : 1 ≤ min_shift
    positive = let p = r.positive in ground arith

    enough : 2 * min_shift ≤ length pair.source
    enough = let p = room in ground arith

    -- For the null that `bind` enables on an accepted pair, with well-formed digests and room for a
    -- shift, the validation accepts the token of a shift exactly when some drawn number is sampled
    -- to it, and no two drawn numbers are sampled to one token.
    pub sample_circular_token_iff :
        ((shift : ℕ)
          → ((index : ℤ) × (sample_circular_token fl payload sha256 (draws index) bound tt
                ≡ ok (token_of shift, tt)))
            ↔ (validate_circular_token fl payload sha256 bound (token_of shift)
                ≡ ok (token_of shift, state_of shift)))
        × ((i j : ℤ) (token : NullTransformToken)
            → sample_circular_token fl payload sha256 (draws i) bound tt ≡ ok (token, tt)
            → sample_circular_token fl payload sha256 (draws j) bound tt ≡ ok (token, tt)
            → i ≡ j)
    sample_circular_token_iff = (λ shift. (accepted shift, drawn shift), one_to_one)
      where
        accepted :
            (shift : ℕ)
            → (index : ℤ) × (sample_circular_token fl payload sha256 (draws index) bound tt
                ≡ ok (token_of shift, tt))
            → validate_circular_token fl payload sha256 bound (token_of shift)
              ≡ ok (token_of shift, state_of shift)
        accepted shift (index, h) =
            let (i, e, lt, same) = sampled-eq-ok index h in
            let shifts : shift ≡ shift_of_index min_shift i =
              ap (λ (t : NullTransformToken). shift_in t.state) same in
            validate_circular_token_lem fl payload sha256 bound shift is_bound (
              subst (IsShift min_shift (length pair.source)) (sym shifts)
                ((shift_of_index-bijective min_shift (length pair.source) positive enough).0 i lt))

        drawn :
            (shift : ℕ)
            → validate_circular_token fl payload sha256 bound (token_of shift)
              ≡ ok (token_of shift, state_of shift)
            → (index : ℤ) × (sample_circular_token fl payload sha256 (draws index) bound tt
                ≡ ok (token_of shift, tt))
        drawn shift h =
            let (i, lt, e) =
              (shift_of_index-bijective min_shift (length pair.source) positive enough).1 shift
                (validated-IsShift shift h) in
            (pos i, sampled i lt ∙ ap (λ k. ok (token_of k, tt)) e)

        one_to_one :
            (i j : ℤ) (token : NullTransformToken)
            → sample_circular_token fl payload sha256 (draws i) bound tt ≡ ok (token, tt)
            → sample_circular_token fl payload sha256 (draws j) bound tt ≡ ok (token, tt)
            → i ≡ j
        one_to_one i j token h k =
            let (m, e, lt, same) = sampled-eq-ok i h in
            let (n, f, lu, other) = sampled-eq-ok j k in
            let shifts : shift_of_index min_shift m ≡ shift_of_index min_shift n =
              ap (λ (t : NullTransformToken). shift_in t.state) (sym same ∙ other) in
            e
            ∙ (ap pos (
                  (shift_of_index-bijective min_shift (length pair.source) positive enough).2 m n
                    shifts)
                ∙ sym f)
