-- ===== src/Floats.antt =====
-- Python's built-in float (IEEE 754 binary64) is not code of the repository. The parts of the
-- library that compare and subtract floats take it as a parameter: a carrier with the operations
-- that they use, and the laws of IEEE 754 that their correctness rests on.
pub mod Sample
pub mod Order
use selcal.Prelude.{ℕ, Bool, true, false, ◌≡◌, not}

pub record Float64 : Type 1 where
  pub Float : Type 0
  -- The constants `0.0` and `1.0`.
  pub zero : Float
  pub one : Float
  -- `math.isfinite`
  pub is_finite : Float → Bool
  -- `<`, `<=` and `==`; every test with a NaN is false.
  pub flt : Float → Float → Bool
  pub fle : Float → Float → Bool
  pub feq : Float → Float → Bool
  pub fsub : Float → Float → Float
  pub fabs : Float → Float
  -- The true division `a / b` of two non-negative built-in ints.
  pub ratio : ℕ → ℕ → Float

module _ (fl : Float64) where
  open fl use {Float, zero, is_finite, flt, fle, feq, fsub, fabs}

  -- What IEEE 754 and the Python reference say of these operations.
  pub record IsIeee : Type 0 where
    pub zero_finite : is_finite zero ≡ true
    pub abs_finite : (x : Float) → is_finite x ≡ true → is_finite (fabs x) ≡ true
    pub le_refl : (x : Float) → is_finite x ≡ true → fle x x ≡ true
    pub le_trans : (x y z : Float) → fle x y ≡ true → fle y z ≡ true → fle x z ≡ true
    pub lt_not_le :
        (x y : Float) → is_finite x ≡ true → is_finite y ≡ true → flt x y ≡ not (fle y x)
    pub le_of_not_le :
        (x y : Float) → is_finite x ≡ true → is_finite y ≡ true → fle x y ≡ false → fle y x ≡ true
    pub eq_le : (x y : Float) → feq x y ≡ true → fle x y ≡ true
    pub eq_ge : (x y : Float) → feq x y ≡ true → fle y x ≡ true
    pub le_antisym : (x y : Float) → fle x y ≡ true → fle y x ≡ true → feq x y ≡ true
    pub sub_self : (x : Float) → is_finite x ≡ true → fle (fsub x x) zero ≡ true
    pub abs_zero : fabs zero ≡ zero
    pub abs_eq_zero : (x : Float) → feq (fabs x) zero ≡ feq x zero
