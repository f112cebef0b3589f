-- ===== src/Selection/Ties.antt =====
-- The tied positions against a description without positions, and the first of them.
use mathlib.Core.List.{append_assoc}
use selcal.Prelude.{
  ℕ, zero, suc, ◌+◌, ◌<◌, List, [], ◌∷◌, ◌++◌, true, false, some, ◌≡◌, refl, ◌∙◌, ap, inl, inr,
  arith, if◌then◌else◌, Bool-cases, length, get_elem?, length-append,
}
use selcal.Prelude.Int.{ℤ}
use selcal.Errors.{ok}
use selcal.Floats.{Float64}
use selcal.Candidates.{Ascending}
use selcal.Arrays.{lookup_all}
use selcal.Selection.{tied_indices}

length_snoc {ℓ} :
    {A : Type ℓ} (before : List A) (x : A) → length (before ++ x ∷ []) ≡ suc (length before)
length_snoc before x = omega (arith, length-append before (x ∷ []))

get_elem?_at {ℓ} :
    {A : Type ℓ} (before : List A) (x : A) (xs : List A)
    → get_elem? (before ++ x ∷ xs) (length before) ≡ some x
get_elem?_at [] x xs = refl
get_elem?_at (b ∷ before) x xs = get_elem?_at before x xs

module _ (fl : Float64) (top tolerance : fl.Float) where
  open fl use {Float, fle, fsub}

  -- The items whose scores lie within the tolerance of the top score, in order.
  abbrev pub tied_of {ℓ} : {A : Type ℓ} → List A → List Float → List A
  tied_of [] scores = []
  tied_of (x ∷ xs) [] = []
  tied_of (x ∷ xs) (s ∷ ss) =
      let rest = tied_of xs ss in if fle (fsub top s) tolerance then x ∷ rest else rest

  -- Position `index` is tied, and no position before it is.
  pub record IsFirstTie (scores : List Float) (index : ℕ) : Type 0 where
    pub score : Float
    pub found : get_elem? scores index ≡ some score
    pub tied : fle (fsub top score) tolerance ≡ true
    pub before :
        (j : ℕ) (s : Float)
        → j < index
        → get_elem? scores j ≡ some s
        → fle (fsub top s) tolerance ≡ false

  here : (s : Float) (ss : List Float) → fle (fsub top s) tolerance ≡ true → IsFirstTie (s ∷ ss) 0
  here s ss t = record {
    score = s;
    found = refl;
    tied = t;
    before = λ j x lt e. absurd (omega arith);
  }

  later :
      (s : Float) (ss : List Float) (i : ℕ)
      → fle (fsub top s) tolerance ≡ false
      → IsFirstTie ss i
      → IsFirstTie (s ∷ ss) (suc i)
  later s ss i f r = record { score = r.score; found = r.found; tied = r.tied; before = not_before }
    where
      not_before :
          (j : ℕ) (x : Float)
          → j < suc i
          → get_elem? (s ∷ ss) j ≡ some x
          → fle (fsub top x) tolerance ≡ false
      not_before zero x lt e = ground arith
      not_before (suc j) x lt e = r.before j x (omega arith) e

  -- Where some position is tied, the list of tied positions begins with the first of them.
  pub tied_indices-first :
      (index : ℕ) (scores : List Float) (i : ℕ) (s : Float)
      → get_elem? scores i ≡ some s
      → fle (fsub top s) tolerance ≡ true
      → (k : ℕ) × (rest : List ℕ) × (tied_indices fl index top tolerance scores
          ≡ (index + k) ∷ rest)
        × IsFirstTie scores k
  unfolding tied_indices
  tied_indices-first index [] i s e t = cc
  tied_indices-first index (x ∷ xs) i s e t = elim (Bool-cases (fle (fsub top x) tolerance)) [
    | inl tie ↦ (
      0,
      tied_indices fl (suc index) top tolerance xs,
      rw tie (ap (λ n. n ∷ tied_indices fl (suc index) top tolerance xs) (omega arith)),
      here x xs tie,
    )
    | inr far ↦
        let (j, found) = descend i e far in
        let (k, rest, q, first) = tied_indices-first (suc index) xs j s found t in
        (suc k, rest, rw far (q ∙ ap (λ n. n ∷ rest) (omega arith)), later x xs k far first)
  ]
    where
      descend :
          (i : ℕ)
          → get_elem? (x ∷ xs) i ≡ some s
          → fle (fsub top x) tolerance ≡ false
          → (j : ℕ) × (get_elem? xs j ≡ some s)
      descend zero e far = cc
      descend (suc j) e far = (j, e)

  -- Reading the items at the tied positions gives the tied items.
  pub lookup_all-tied_indices {ℓ} :
      {A : Type ℓ} (before xs : List A) (scores : List Float)
      → length xs ≡ length scores
      → lookup_all (before ++ xs) (tied_indices fl (length before) top tolerance scores)
        ≡ ok (tied_of xs scores)
  unfolding lookup_all tied_indices
  lookup_all-tied_indices before [] [] e = refl
  lookup_all-tied_indices before [] (s ∷ ss) e = absurd (omega arith)
  lookup_all-tied_indices before (x ∷ xs) [] e = absurd (omega arith)
  lookup_all-tied_indices before (x ∷ xs) (s ∷ ss) e =
      let next = lookup_all-tied_indices (before ++ x ∷ []) xs ss (omega arith) in
      let step = rw (append_assoc before (x ∷ []) xs, length_snoc before x) at next in
      ground (arith, step, get_elem?_at before x xs)

  pub tied_of-Ascending :
      (low : ℤ) (cs : List ℤ) (scores : List Float)
      → Ascending low cs
      → Ascending low (tied_of cs scores)
  tied_of-Ascending low [] ss h = tt
  tied_of-Ascending low (c ∷ cs) [] h = tt
  tied_of-Ascending low (c ∷ cs) (s ∷ ss) h = elim (Bool-cases (fle (fsub top s) tolerance)) [
    | inl tie ↦ rw tie (h.0, tied_of-Ascending c cs ss h.1)
    | inr far ↦ rw far (weaken (tied_of cs ss) (tied_of-Ascending c cs ss h.1))
  ]
    where
      weaken : (ys : List ℤ) → Ascending c ys → Ascending low ys
      weaken [] k = tt
      weaken (y ∷ ys) k = (omega arith, k.1)
