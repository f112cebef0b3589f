-- ===== src/Floats/Sample.antt =====
-- A float with the laws assumed of it: the integers and one value that is not a number.
use selcal.Prelude.{suc, Bool, true, false, ◌≡◌, refl, Option, none, some, arith, not, ◌/◌, ◌*◌}
use selcal.Prelude.Int.{ℤ, pos, negsuc, ltb_ℤ, leb_ℤ, eqb_ℤ, ◌-ℤ◌, -ℤ_parts}
use selcal.Floats.{Float64, IsIeee}

abbrev sample_test : (ℤ → ℤ → Bool) → Option ℤ → Option ℤ → Bool
sample_test t (some a) (some b) = t a b
sample_test t (some a) none = false
sample_test t none y = false

abbrev sample_sub : Option ℤ → Option ℤ → Option ℤ
sample_sub (some a) (some b) = some (a -ℤ b)
sample_sub (some a) none = none
sample_sub none y = none

abbrev sample_finite : Option ℤ → Bool
sample_finite none = false
sample_finite (some a) = true

abbrev sample_abs : Option ℤ → Option ℤ
sample_abs none = none
sample_abs (some (pos n)) = some (pos n)
sample_abs (some (negsuc n)) = some (pos (suc n))

-- Hundredths, rounded down.
abbrev pub sample_float : Float64
sample_float = record {
  Float = Option ℤ;
  zero = some (pos 0);
  one = some (pos 100);
  is_finite = sample_finite;
  flt = sample_test ltb_ℤ;
  fle = sample_test leb_ℤ;
  feq = sample_test eqb_ℤ;
  fsub = sample_sub;
  fabs = sample_abs;
  ratio = λ a b. some (pos (100 * a / b));
}

abs_finite : (x : Option ℤ) → sample_finite x ≡ true → sample_finite (sample_abs x) ≡ true
abs_finite none h = h
abs_finite (some (pos n)) h = refl
abs_finite (some (negsuc n)) h = refl

le_refl : (x : Option ℤ) → sample_finite x ≡ true → sample_test leb_ℤ x x ≡ true
le_refl none h = h
le_refl (some a) h = ground arith

le_trans :
    (x y z : Option ℤ)
    → sample_test leb_ℤ x y ≡ true
    → sample_test leb_ℤ y z ≡ true
    → sample_test leb_ℤ x z ≡ true
le_trans none y z h k = cc
le_trans (some a) none z h k = cc
le_trans (some a) (some b) none h k = cc
le_trans (some a) (some b) (some c) h k = ground arith

lt_not_le :
    (x y : Option ℤ)
    → sample_finite x ≡ true
    → sample_finite y ≡ true
    → sample_test ltb_ℤ x y ≡ not (sample_test leb_ℤ y x)
lt_not_le none y h k = cc
lt_not_le (some a) none h k = cc
lt_not_le (some a) (some b) h k = ground arith

le_of_not_le :
    (x y : Option ℤ)
    → sample_finite x ≡ true
    → sample_finite y ≡ true
    → sample_test leb_ℤ x y ≡ false
    → sample_test leb_ℤ y x ≡ true
le_of_not_le none y h k e = cc
le_of_not_le (some a) none h k e = cc
le_of_not_le (some a) (some b) h k e = ground arith

eq_le : (x y : Option ℤ) → sample_test eqb_ℤ x y ≡ true → sample_test leb_ℤ x y ≡ true
eq_le none y h = cc
eq_le (some a) none h = cc
eq_le (some a) (some b) h = ground arith

eq_ge : (x y : Option ℤ) → sample_test eqb_ℤ x y ≡ true → sample_test leb_ℤ y x ≡ true
eq_ge none y h = cc
eq_ge (some a) none h = cc
eq_ge (some a) (some b) h = ground arith

le_antisym :
    (x y : Option ℤ)
    → sample_test leb_ℤ x y ≡ true
    → sample_test leb_ℤ y x ≡ true
    → sample_test eqb_ℤ x y ≡ true
le_antisym none y h k = cc
le_antisym (some a) none h k = cc
le_antisym (some a) (some b) h k = ground arith

sub_self :
    (x : Option ℤ)
    → sample_finite x ≡ true
    → sample_test leb_ℤ (sample_sub x x) (some (pos 0)) ≡ true
sub_self none h = cc
sub_self (some a) h = ground (arith, -ℤ_parts a a)

abs_eq_zero :
    (x : Option ℤ)
    → sample_test eqb_ℤ (sample_abs x) (some (pos 0)) ≡ sample_test eqb_ℤ x (some (pos 0))
abs_eq_zero none = refl
abs_eq_zero (some (pos n)) = refl
abs_eq_zero (some (negsuc n)) = ground arith

pub sample_IsIeee : IsIeee sample_float
sample_IsIeee = record {
  zero_finite = refl;
  abs_finite = abs_finite;
  le_refl = le_refl;
  le_trans = le_trans;
  lt_not_le = lt_not_le;
  le_of_not_le = le_of_not_le;
  eq_le = eq_le;
  eq_ge = eq_ge;
  le_antisym = le_antisym;
  sub_self = sub_self;
  abs_zero = refl;
  abs_eq_zero = abs_eq_zero;
}
