-- ===== src/Floats/Order.antt =====
-- Python's `max` over a non-empty sequence of floats: the first of the largest.
use selcal.Prelude.{
  ℕ, zero, suc, List, [], ◌∷◌, true, ◌≡◌, refl, inl, inr, some, arith, if◌then◌else◌, Bool-cases,
  get_elem?,
}
use selcal.Floats.{Float64, IsIeee}

module _ (fl : Float64) where
  open fl use {Float, is_finite, flt, fle, feq}

  -- The loop of `max`: an item takes over if it is larger than the best so far.
  unfoldable pub max_from : Float → List Float → Float
  max_from best [] = best
  max_from best (x ∷ xs) = max_from (if flt best x then x else best) xs

  abbrev pub AllFinite : List Float → Type 0
  AllFinite [] = Unit
  AllFinite (x ∷ xs) = (is_finite x ≡ true) × AllFinite xs

  -- No item of the list is larger than `top`.
  abbrev pub AllLe : Float → List Float → Type 0
  AllLe top [] = Unit
  AllLe top (x ∷ xs) = (fle x top ≡ true) × AllLe top xs

module _ {fl : Float64} (ieee : IsIeee fl) where
  open fl use {Float, is_finite, flt, fle, feq}

  -- The larger of two, as `max` picks it.
  better_bounds :
      (best x : Float)
      → is_finite best ≡ true
      → is_finite x ≡ true
      → let top = if flt best x then x else best in
        (is_finite top ≡ true) × (fle best top ≡ true) × (fle x top ≡ true)
  better_bounds best x hb hx = ground (
    arith,
    ieee.lt_not_le best x hb hx,
    ieee.le_of_not_le x best hx hb,
    ieee.le_refl best hb,
    ieee.le_refl x hx,
  )

  pub max_from_bounds :
      (best : Float) (xs : List Float)
      → is_finite best ≡ true
      → AllFinite fl xs
      → let top = max_from fl best xs in
        (is_finite top ≡ true) × (fle best top ≡ true) × AllLe fl top xs
  unfolding max_from
  max_from_bounds best [] hb h = (hb, ieee.le_refl best hb, tt)
  max_from_bounds best (x ∷ xs) hb h =
      let top = if flt best x then x else best in
      let (f, b, l) = better_bounds best x hb h.0 in
      let (f', b', l') = max_from_bounds top xs f h.1 in
      (f', ieee.le_trans best top _ b b', (ieee.le_trans x top _ l b', l'))

  -- The maximum is one of the items.
  pub max_from_attained :
      (best : Float) (xs : List Float)
      → (i : ℕ) × (get_elem? (best ∷ xs) i ≡ some (max_from fl best xs))
  unfolding max_from
  max_from_attained best [] = (0, refl)
  max_from_attained best (x ∷ xs) = elim (Bool-cases (flt best x)) [
    | inl lt ↦ let (i, e) = max_from_attained x xs in (suc i, rw lt e)
    | inr ge ↦ rw ge (shift (max_from fl best xs) (max_from_attained best xs))
  ]
    where
      shift :
          (top : Float)
          → (i : ℕ) × (get_elem? (best ∷ xs) i ≡ some top)
          → (i : ℕ) × (get_elem? (best ∷ x ∷ xs) i ≡ some top)
      shift top (zero, e) = (0, e)
      shift top (suc i, e) = (suc (suc i), e)
