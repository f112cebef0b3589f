-- ===== src/Errors.antt =====
-- The exceptions of the library (src/selcal/contracts_v2.py, src/selcal/result_wire.py and
-- Python's own) as values. A message is text for a person and is left out; the class of the
-- exception, which a caller can catch, is kept.
use selcal.Prelude.{Bool, true, false, ◌≡◌, refl, ◌⊎◌, inl, inr, Option, none, some}

pub data Error : Type 0 where
  value_error : Error
  index_error : Error
  integrity_error : Error
  resource_limit_error : Error
  assertion_error : Error

-- What a call of the library ends with: an exception, or the value that it returns.
pub data Result {ℓ} (Value : Type ℓ) : Type ℓ where
  err : Error → Result Value
  ok : Value → Result Value

-- `if test: raise error`
abbrev pub raise_if : Bool → Error → Result (Unit {0})
raise_if false raised = ok tt
raise_if true raised = err raised

infixl 5 ◌>>=◌
-- The next statement runs on the value of the one before, unless that raised.
abbrev pub ◌>>=◌ {ℓ κ} : {V : Type ℓ} {W : Type κ} → Result V → (V → Result W) → Result W
err raised >>= next = err raised
ok value >>= next = next value

infixl 5 ◌>>◌
-- A check before the next statement
abbrev pub ◌>>◌ {ℓ} : {W : Type ℓ} → Result (Unit {0}) → Result W → Result W
check >> next = check >>= (λ passed. next)

-- `except ValueError as error: raise V2IntegrityError(...) from error`
abbrev pub value_error_as : Error → Error → Error
value_error_as new value_error = new
value_error_as new e = e

abbrev pub on_value_error {ℓ} : {A : Type ℓ} → Error → Result A → Result A
on_value_error new (ok a) = ok a
on_value_error new (err e) = err (value_error_as new e)

abbrev pub or_raise {ℓ} : {A : Type ℓ} → Option A → Error → Result A
or_raise none e = err e
or_raise (some a) e = ok a

pub Result-cases {ℓ} :
    {A : Type ℓ} (r : Result A) → ((a : A) × (r ≡ ok a)) ⊎ ((e : Error) × (r ≡ err e))
Result-cases (ok a) = inl (a, refl)
Result-cases (err e) = inr (e, refl)

-- What a chain of steps that succeeded went through.
pub >>=-eq-ok {ℓ κ} :
    {V : Type ℓ} {W : Type κ} (step : Result V) (next : V → Result W) {end : W}
    → (step >>= next) ≡ ok end
    → (value : V) × (step ≡ ok value) × (next value ≡ ok end)
>>=-eq-ok (err raised) next h = cc
>>=-eq-ok (ok value) next h = (value, refl, h)

pub >>-eq-ok {ℓ} :
    {W : Type ℓ} (check : Result (Unit {0})) (next : Result W) {end : W}
    → (check >> next) ≡ ok end
    → (check ≡ ok tt) × (next ≡ ok end)
>>-eq-ok (err raised) next h = cc
>>-eq-ok (ok tt) next h = (refl, h)

pub raise_if-eq-ok : (c : Bool) (e : Error) → raise_if c e ≡ ok tt → c ≡ false
raise_if-eq-ok true e h = cc
raise_if-eq-ok false e h = refl

pub or_raise-eq-ok {ℓ} :
    {A : Type ℓ} (o : Option A) (e : Error) {a : A} → or_raise o e ≡ ok a → o ≡ some a
or_raise-eq-ok none e h = cc
or_raise-eq-ok (some x) e h = cc

pub ok-injective {ℓ} : {A : Type ℓ} {a b : A} → ok a ≡ ok b → a ≡ b
ok-injective h = cc

pub guard-eq-ok {ℓ} :
    {B : Type ℓ} (c : Bool) (e : Error) (k : Result B) {b : B}
    → (raise_if c e >> k) ≡ ok b
    → (c ≡ false) × (k ≡ ok b)
guard-eq-ok true e k h = cc
guard-eq-ok false e k h = (refl, h)
