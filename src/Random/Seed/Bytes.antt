-- ===== src/Random/Seed/Bytes.antt =====
-- `bytes.fromhex` and `int.to_bytes` of the language, and that neither loses anything.
use native.Mathlib.Nat.{pow-suc}
use selcal.Prelude.{
  ℕ, zero, suc, ◌+◌, ◌-◌, ◌*◌, ◌/◌, ◌%◌, ◌^◌, ◌<◌, List, [], ◌∷◌, ◌++◌, Bool, true, ◌&&◌, ◌||◌, ◌≡◌,
  refl, arith, if◌then◌else◌, length, length-append, leb,
}

unfoldable pub is_hex_digit : ℕ → Bool
is_hex_digit c = (leb b'0' c && leb c b'9') || (leb b'a' c && leb c b'f')

unfoldable pub hex_value : ℕ → ℕ
hex_value c = if leb c b'9' then c - b'0' else c - b'a' + 10

-- `bytes.fromhex` on an even number of digits.
unfoldable pub from_hex : List ℕ → List ℕ
from_hex [] = []
from_hex (c ∷ []) = []
from_hex (c ∷ d ∷ cs) = (16 * hex_value c + hex_value d) ∷ from_hex cs

-- `n.to_bytes(size, "big", signed=False)` of a number that fits
unfoldable pub to_bytes : ℕ → ℕ → List ℕ
to_bytes zero n = []
to_bytes (suc size) n = to_bytes size (n / 256) ++ (n % 256) ∷ []

-- `int.from_bytes(bytes, "big")`, from the digits read so far.
unfoldable pub from_bytes : ℕ → List ℕ → ℕ
from_bytes acc [] = acc
from_bytes acc (b ∷ bs) = from_bytes (acc * 256 + b) bs

from_bytes-append :
    (acc : ℕ) (xs ys : List ℕ) → from_bytes acc (xs ++ ys) ≡ from_bytes (from_bytes acc xs) ys
unfolding from_bytes
from_bytes-append acc [] ys = refl
from_bytes-append acc (x ∷ xs) ys = from_bytes-append (acc * 256 + x) xs ys

pub from_bytes-to_bytes : (size n : ℕ) → n < 256 ^ size → from_bytes 0 (to_bytes size n) ≡ n
unfolding to_bytes from_bytes
from_bytes-to_bytes zero n h = omega arith
from_bytes-to_bytes (suc size) n h =
    let rest = from_bytes-to_bytes size (n / 256) (omega (arith, pow-suc 256 size)) in
    rw (from_bytes-append 0 (to_bytes size (n / 256)) ((n % 256) ∷ []), rest) (omega arith)

pub length-to_bytes : (size n : ℕ) → length (to_bytes size n) ≡ size
unfolding to_bytes
length-to_bytes zero n = refl
length-to_bytes (suc size) n = omega (
  arith,
  length-append (to_bytes size (n / 256)) ((n % 256) ∷ []),
  length-to_bytes size (n / 256),
)

pub hex_value_injective :
    (c d : ℕ) → is_hex_digit c ≡ true → is_hex_digit d ≡ true → hex_value c ≡ hex_value d → c ≡ d
unfolding is_hex_digit hex_value
hex_value_injective c d h k e = ground arith

pub hex_value-lt : (c : ℕ) → is_hex_digit c ≡ true → hex_value c < 16
unfolding is_hex_digit hex_value
hex_value-lt c h = ground arith
