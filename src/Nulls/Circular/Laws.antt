-- ===== src/Nulls/Circular/Laws.antt =====
-- The circular null applies every token of its own: it turns the source right by the shift.
use mathlib.Core.List.{Perm, perm_append_comm}
use selcal.Prelude.{
  ℕ, List, true, false, ◌-◌, ◌<◌, ◌≡◌, refl, sym, subst, ◌∙◌, arith, length, map, take, drop,
  take-append-drop, ◌==◌,
}
use selcal.Prelude.Int.{ℤ}
use selcal.Errors.{ok}
use selcal.Arrays.Laws.{rotated, rotated_zero, lookup_all-rotated, length-rotated}
use selcal.Floats.{Float64, IsIeee}
use selcal.Candidates.{is_empty}
use selcal.Contracts.{SeriesPair}
use selcal.Contracts.Normal.{
  IsPair, AllNormal, filled_of_length, AllNormal-rotated, series_pair_normal,
}
use selcal.Nulls.Token.{Text}
use selcal.Nulls.Owned.{Envelope, array_equal}
use selcal.Nulls.Owned.Laws.{finalized, finalize_rearranged, prepare_owned_transform_lem}
use selcal.Nulls.Circular.{
  BoundCircularShift, shifted_source, apply_circular_state, expected_right_shift_bytes,
  apply_circular,
}
use selcal.Nulls.Circular.Sampling.{IsShift}
use selcal.Nulls.Circular.Tokens.{IsShift-lt, IsBound, owned_token, validate_circular_token_lem}

is_zero : (n : ℕ) → (n == 0) ≡ true → n ≡ 0
is_zero n h = ground arith

pub equal_of_eq : {m n : ℕ} → m ≡ n → (n == m) ≡ true
equal_of_eq h = ground arith

module _ (fl : Float64) (payload : Float64.Float fl → ℤ)
    (sha256 : Envelope (Float64.Float fl) → Text) where
  open fl use {Float}

  module _ (laws : IsIeee fl) where
    pub array_equal_refl :
        {xs : List Float} → AllNormal fl xs → array_equal fl payload sha256 xs xs ≡ true
    unfolding array_equal
    array_equal_refl AllNormal.nothing = refl
    array_equal_refl (AllNormal.more {x = x} h a) =
        let le = laws.le_refl x h.finite in rw (laws.le_antisym x x le le, array_equal_refl a)

    rotated-perm : (shift : ℕ) (xs : List Float) → Perm (rotated shift xs) xs
    rotated-perm shift xs =
        subst (λ ys. Perm (rotated shift xs) ys) (take-append-drop (length xs - shift) xs)
          (perm_append_comm (drop (length xs - shift) xs) (take (length xs - shift) xs))

    filled_rotated :
        (shift : ℕ) (xs : List Float) → is_empty xs ≡ false → is_empty (rotated shift xs) ≡ false
    filled_rotated shift xs h =
        filled_of_length fl xs (rotated shift xs) h (sym (length-rotated shift xs))

    expected_right_shift_bytes_lem :
        (xs : List Float) (shift : ℕ)
        → shift < length xs
        → expected_right_shift_bytes fl payload sha256 xs shift
          ≡ ok (map payload (rotated shift xs))
    unfolding expected_right_shift_bytes
    expected_right_shift_bytes_lem xs shift h = rw (lookup_all-rotated shift xs h)

    apply_circular_state_lem :
        (p : SeriesPair Float) (shift : ℕ)
        → IsPair fl p
        → shift < length p.source
        → apply_circular_state fl payload sha256 p shift
          ≡ ok (record { source = rotated shift p.source; target = p.target })
    unfolding apply_circular_state shifted_source
    apply_circular_state_lem p shift h lt =
        let again =
          series_pair_normal fl (record { source = rotated shift p.source; target = p.target })
            (AllNormal-rotated fl shift h.source) h.target (filled_rotated shift p.source h.filled)
            (length-rotated shift p.source ∙ h.aligned) in
        rw (lookup_all-rotated shift p.source lt, again)

    -- Applying: a bound null that passed the checks of its constructor applies the token of each
    -- of its shifts. The result holds the observed source turned right by the shift, the target
    -- as it was, and the token; no check of the transform refuses it.
    pub apply_circular-rotates :
        (bound : BoundCircularShift Float) (shift : ℕ)
        → IsBound fl payload sha256 bound
        → IsShift bound.min_shift bound.observed_length shift
        → apply_circular fl payload sha256 bound (owned_token fl payload sha256 bound shift)
          ≡ ok (
              finalized fl payload sha256 bound.observed_pair
                (rotated shift bound.observed_pair.source)
                (owned_token fl payload sha256 bound shift))
    unfolding apply_circular
    apply_circular-rotates bound shift b s =
        let xs = bound.observed_pair.source in
        let small : shift < length xs =
          subst (λ n. shift < n) b.size
            (IsShift-lt bound.min_shift bound.observed_length shift s b.positive b.enough) in
        let normal = AllNormal-rotated fl shift b.pair.source in
        let filled = filled_rotated shift xs b.pair.filled in
        let identity = λ (e : (shift == 0) ≡ true).
          subst (λ k. array_equal fl payload sha256 (rotated k xs) xs ≡ true)
            (sym (is_zero shift e))
            (subst (λ ys. array_equal fl payload sha256 ys xs ≡ true) (sym (rotated_zero xs))
              (array_equal_refl b.pair.source)) in
        let result =
          finalize_rearranged fl payload sha256 bound.observed_pair (rotated shift xs)
            (owned_token fl payload sha256 bound shift) b.pair normal filled
            (length-rotated shift xs) (rotated-perm shift xs) identity in
        rw (
          validate_circular_token_lem fl payload sha256 bound shift b s,
          b.guard,
          prepare_owned_transform_lem fl payload sha256 bound.observed_pair b.pair b.guard_hex,
          equal_of_eq b.size,
          expected_right_shift_bytes_lem xs shift small,
          apply_circular_state_lem bound.observed_pair shift b.pair small,
          result,
        )
