-- ===== src/Oracle/Orders/Permutations.antt =====
-- `itertools.permutations`: n! orders, each a permutation, and the first of them the identity.
use mathlib.Core.List.{Perm}
use mathlib.Core.List.Perm as P
use native.Mathlib.Nat.{suc-mul}
use selcal.Prelude.{
  ℕ, zero, suc, ◌*◌, List, [], ◌∷◌, ◌++◌, ◌≡◌, refl, ap, ◌∙◌, arith, length, map, length-append,
  length-map,
}
use selcal.Prelude.Factorial.{factorial}
use selcal.Oracle.Orders.{picks, begin_with, permutations}

abbrev pub Every : {B : Type 0} → (B → Type 0) → List B → Type 0
Every P [] = Unit
Every P (x ∷ xs) = P x × Every P xs

module _ {A : Type 0} where
  abbrev IsPick : List A → A × List A → Type 0
  IsPick xs p = Perm xs (p.0 ∷ p.1) × (length xs ≡ suc (length p.1))

  picks-IsPick : (xs : List A) → Every (IsPick xs) (picks xs)
  unfolding picks
  picks-IsPick [] = tt
  picks-IsPick (x ∷ xs) = ((P.rfl, refl), shifted (picks xs) (picks-IsPick xs))
    where
      shifted :
          (ps : List (A × List A))
          → Every (IsPick xs) ps
          → Every (IsPick (x ∷ xs)) (map (λ p. (p.0, x ∷ p.1)) ps)
      shifted [] h = tt
      shifted (p ∷ ps) ((perm, size), h) =
          ((P.trans (P.cons x perm) (P.swap p.0 x p.1), ap suc size), shifted ps h)

  length-picks : (xs : List A) → length (picks xs) ≡ length xs
  unfolding picks
  length-picks [] = refl
  length-picks (x ∷ xs) = ap suc (length-map (picks xs) _ ∙ length-picks xs)

  length-begin_with :
      (orders : List A → List (List A)) (k : ℕ) (ps : List (A × List A))
      → Every (λ p. length (orders p.1) ≡ k) ps
      → length (begin_with orders ps) ≡ length ps * k
  unfolding begin_with
  length-begin_with orders k [] h = omega arith
  length-begin_with orders k (p ∷ ps) (first, h) =
      let rest = length-begin_with orders k ps h in
      let here = length-map (orders p.1) (λ order. p.0 ∷ order) in
      omega (
        arith,
        length-append (map (λ order. p.0 ∷ order) (orders p.1)) (begin_with orders ps),
        suc-mul (length ps) k,
      )

  sizes :
      (n : ℕ) (xs : List A) (ps : List (A × List A))
      → ((ys : List A) → length ys ≡ n → length (permutations n ys) ≡ factorial n)
      → Every (IsPick xs) ps
      → length xs ≡ suc n
      → Every (λ p. length (permutations n p.1) ≡ factorial n) ps
  sizes n xs [] shorter h e = tt
  sizes n xs (p ∷ ps) shorter ((perm, size), h) e =
      (shorter p.1 (omega arith), sizes n xs ps shorter h e)

  pub length-permutations :
      (n : ℕ) (xs : List A) → length xs ≡ n → length (permutations n xs) ≡ factorial n
  unfolding permutations factorial
  length-permutations zero xs e = refl
  length-permutations (suc n) xs e =
      length-begin_with (permutations n) (factorial n) (picks xs)
        (sizes n xs (picks xs) (λ ys f. length-permutations n ys f) (picks-IsPick xs) e)
      ∙ ap (λ (k : ℕ). k * factorial n) (length-picks xs ∙ e)

  Every-append :
      (P : List A → Type 0) (xs ys : List (List A)) → Every P xs → Every P ys → Every P (xs ++ ys)
  Every-append P [] ys h k = k
  Every-append P (x ∷ xs) ys (first, h) k = (first, Every-append P xs ys h k)

  -- A first element before every order of the others
  Every-before :
      {xs : List A} (x : A) (ys : List A) (orders : List (List A))
      → Perm xs (x ∷ ys)
      → Every (Perm ys) orders
      → Every (Perm xs) (map (λ order. x ∷ order) orders)
  Every-before x ys [] p h = tt
  Every-before x ys (order ∷ orders) p (q, h) =
      (P.trans p (P.cons x q), Every-before x ys orders p h)

  begin_with-perm :
      (xs : List A) (orders : List A → List (List A)) (ps : List (A × List A))
      → Every (λ p. Perm xs (p.0 ∷ p.1) × Every (Perm p.1) (orders p.1)) ps
      → Every (Perm xs) (begin_with orders ps)
  unfolding begin_with
  begin_with-perm xs orders [] h = tt
  begin_with-perm xs orders (p ∷ ps) ((perm, rest), h) =
      Every-append (Perm xs) (map (λ order. p.0 ∷ order) (orders p.1)) (begin_with orders ps)
        (Every-before p.0 p.1 (orders p.1) perm rest) (begin_with-perm xs orders ps h)

  followed :
      (n : ℕ) (xs : List A) (ps : List (A × List A))
      → ((ys : List A) → length ys ≡ n → Every (Perm ys) (permutations n ys))
      → Every (IsPick xs) ps
      → length xs ≡ suc n
      → Every (λ p. Perm xs (p.0 ∷ p.1) × Every (Perm p.1) (permutations n p.1)) ps
  followed n xs [] shorter h e = tt
  followed n xs (p ∷ ps) shorter ((perm, size), h) e =
      ((perm, shorter p.1 (omega arith)), followed n xs ps shorter h e)

  pub permutations-perm :
      (n : ℕ) (xs : List A) → length xs ≡ n → Every (Perm xs) (permutations n xs)
  unfolding permutations begin_with
  permutations-perm zero [] e = (P.rfl, tt)
  permutations-perm zero (x ∷ xs) e = absurd (omega arith)
  permutations-perm (suc n) xs e =
      begin_with-perm xs (permutations n) (picks xs)
        (followed n xs (picks xs) (λ ys f. permutations-perm n ys f) (picks-IsPick xs) e)

  -- The first order is the identity.
  pub permutations-first :
      (n : ℕ) (xs : List A)
      → length xs ≡ n
      → (rest : List (List A)) × (permutations n xs ≡ xs ∷ rest)
  unfolding permutations begin_with picks
  permutations-first zero [] e = ([], refl)
  permutations-first zero (x ∷ xs) e = absurd (omega arith)
  permutations-first (suc n) [] e = absurd (omega arith)
  permutations-first (suc n) (x ∷ xs) e =
      let (rest, h) = permutations-first n xs (omega arith) in
      let others = begin_with (permutations n) (map (λ p. (p.0, x ∷ p.1)) (picks xs)) in
      (map (λ order. x ∷ order) rest ++ others, ap (λ l. map (λ order. x ∷ order) l ++ others) h)
