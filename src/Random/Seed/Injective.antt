-- ===== src/Random/Seed/Injective.antt =====
-- Two replicates share a seed preimage only if they are the same replicate of the same plan.
use selcal.Prelude.{
  ℕ, zero, suc, ◌+◌, ◌-◌, ◌*◌, ◌^◌, ◌<◌, List, [], ◌∷◌, ◌++◌, true, ◌≡◌, refl, sym, ap, ◌∙◌, arith,
  length,
}
use selcal.Prelude.Int.{ℤ, pos, negsuc}
use selcal.Errors.{Result, ok, >>=-eq-ok}
use selcal.Random.Seed.Bytes.{
  is_hex_digit, hex_value, from_hex, to_bytes, from_bytes, from_bytes-to_bytes, length-to_bytes,
  hex_value_injective, hex_value-lt,
}
use selcal.Random.Seed.{
  all_hex, require_plan_digest, require_planned_replicates, require_replicate_id, seed_preimage,
  seed_domain, null_transform_stream,
}

append_injective {ℓ} :
    {A : Type ℓ} (xs ys : List A) {us vs : List A}
    → length xs ≡ length ys
    → xs ++ us ≡ ys ++ vs
    → (xs ≡ ys) × (us ≡ vs)
append_injective [] [] e h = (refl, h)
append_injective [] (y ∷ ys) e h = absurd (omega arith)
append_injective (x ∷ xs) [] e h = absurd (omega arith)
append_injective (x ∷ xs) (y ∷ ys) {us} {vs} e h =
    let tails : xs ++ us ≡ ys ++ vs = ground arith in
    let heads : x ≡ y = ground arith in
    let (l, r) = append_injective xs ys (omega arith) tails in (λ i. heads i ∷ l i, r)

hex_parts :
    (x y : ℕ) (xs : List ℕ)
    → all_hex (x ∷ y ∷ xs) ≡ true
    → (is_hex_digit x ≡ true) × (is_hex_digit y ≡ true) × (all_hex xs ≡ true)
unfolding all_hex
hex_parts x y xs h = ground arith

from_hex_injective :
    (xs ys : List ℕ)
    → length xs ≡ length ys
    → all_hex xs ≡ true
    → all_hex ys ≡ true
    → from_hex xs ≡ from_hex ys
    → ((k : ℕ) × (length xs ≡ 2 * k))
    → xs ≡ ys
unfolding from_hex all_hex
from_hex_injective [] [] e h k same even = refl
from_hex_injective [] (y ∷ ys) e h k same even = absurd (omega arith)
from_hex_injective (x ∷ xs) [] e h k same even = absurd (omega arith)
from_hex_injective (x ∷ []) (y ∷ ys) e h k same (n, even) = absurd (omega arith)
from_hex_injective (x ∷ x' ∷ xs) (y ∷ []) e h k same even = absurd (omega arith)
from_hex_injective (x ∷ x' ∷ xs) (y ∷ y' ∷ ys) e h k same (n, even) =
    let heads : 16 * hex_value x + hex_value x' ≡ 16 * hex_value y + hex_value y' = ground arith in
    let tails : from_hex xs ≡ from_hex ys = ground arith in
    let (hx, hx', hxs) = hex_parts x x' xs h in
    let (hy, hy', hys) = hex_parts y y' ys k in
    let lx = hex_value-lt x hx in
    let lx' = hex_value-lt x' hx' in
    let ly = hex_value-lt y hy in
    let ly' = hex_value-lt y' hy' in
    let first = hex_value_injective x y hx hy (omega arith) in
    let second = hex_value_injective x' y' hx' hy' (omega arith) in
    let rest = from_hex_injective xs ys (omega arith) hxs hys tails (n - 1, omega arith) in
    λ i. first i ∷ second i ∷ rest i

length-from_hex : (n : ℕ) (xs : List ℕ) → length xs ≡ 2 * n → length (from_hex xs) ≡ n
unfolding from_hex
length-from_hex n [] e = omega arith
length-from_hex n (x ∷ []) e = absurd (omega arith)
length-from_hex zero (x ∷ y ∷ xs) e = absurd (omega arith)
length-from_hex (suc n) (x ∷ y ∷ xs) e = ap suc (length-from_hex n xs (omega arith))

-- What the checks let through.
record IsSeeded (plan : List ℕ) (id : ℕ) : Type 0 where
  digits : length plan ≡ 64
  hex : all_hex plan ≡ true
  fits : id < 256 ^ 8

abbrev framed : List ℕ → ℕ → List ℕ
framed plan id =
    seed_domain
    ++ (from_hex plan
        ++ (to_bytes 8 id ++ (to_bytes 2 (length null_transform_stream) ++ null_transform_stream)))

ok-injective {ℓ} : {A : Type ℓ} (x y : A) → ◌≡◌ {A = Result A} (ok x) (ok y) → x ≡ y
ok-injective x y e = cc

plan_digest-eq-ok :
    (plan : List ℕ) {p : List ℕ}
    → require_plan_digest plan ≡ ok p
    → (p ≡ plan) × (length plan ≡ 64) × (all_hex plan ≡ true)
unfolding require_plan_digest
plan_digest-eq-ok plan e = ground arith

replicate_id-eq-ok :
    (c id : ℤ) {n : ℕ} → require_replicate_id c id ≡ ok n → (id ≡ pos n) × (n < 256 ^ 8)
unfolding require_replicate_id
replicate_id-eq-ok c (negsuc m) e = cc
replicate_id-eq-ok c (pos m) e = ground arith

seed_preimage-IsSeeded :
    (plan : List ℕ) (id replicates : ℤ) {bytes : List ℕ}
    → seed_preimage plan id replicates ≡ ok bytes
    → (n : ℕ) × (id ≡ pos n) × IsSeeded plan n × (framed plan n ≡ bytes)
unfolding seed_preimage
seed_preimage-IsSeeded plan id replicates {bytes} e =
    let (p, digest, e1) = >>=-eq-ok (require_plan_digest plan) _ e in
    let (c, _, e2) = >>=-eq-ok (require_planned_replicates replicates) _ e1 in
    let (n, number, e3) = >>=-eq-ok (require_replicate_id c id) _ e2 in
    let (same, digits, hex) = plan_digest-eq-ok plan digest in
    let (named, fits) = replicate_id-eq-ok c id number in
    let made : framed p n ≡ bytes = ok-injective _ _ e3 in
    (
      n,
      named,
      record { digits = digits; hex = hex; fits = fits },
      ap (λ (q : List ℕ). framed q n) (sym same) ∙ made,
    )

-- Two calls that hash the same bytes name the same replicate of the same plan: the streams of
-- different replicates, or of different plans, can share a seed only by a collision of SHA-256.
pub seed_preimage_injective :
    (plan plan' : List ℕ) (id id' replicates replicates' : ℤ) {bytes : List ℕ}
    → seed_preimage plan id replicates ≡ ok bytes
    → seed_preimage plan' id' replicates' ≡ ok bytes
    → (plan ≡ plan') × (id ≡ id')
seed_preimage_injective plan plan' id id' replicates replicates' e e' =
    let (n, same, h, f) = seed_preimage-IsSeeded plan id replicates e in
    let (n', same', h', f') = seed_preimage-IsSeeded plan' id' replicates' e' in
    let lx = length-from_hex 32 plan h.digits in
    let ly = length-from_hex 32 plan' h'.digits in
    let (_, after) = append_injective seed_domain seed_domain refl (f ∙ sym f') in
    let (plans, after') = append_injective (from_hex plan) (from_hex plan') (lx ∙ sym ly) after in
    let (ids, _) =
      append_injective (to_bytes 8 n) (to_bytes 8 n')
        (length-to_bytes 8 n ∙ sym (length-to_bytes 8 n')) after' in
    let read : n ≡ n' =
      sym (from_bytes-to_bytes 8 n h.fits)
      ∙ (ap (from_bytes 0) ids ∙ from_bytes-to_bytes 8 n' h'.fits) in
    (
      from_hex_injective plan plan' (h.digits ∙ sym h'.digits) h.hex h'.hex plans (32, h.digits),
      same ∙ (ap pos read ∙ sym same'),
    )
