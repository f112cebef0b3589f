-- ===== src/Candidates/Laws.antt =====
-- What `canonical_candidates` accepts and what it returns.
use mathlib.Core.List.{Perm}
use mathlib.Core.List.Perm
use selcal.Prelude.{
  List, [], ◌∷◌, true, false, ◌||◌, ◌≡◌, refl, ◌⊎◌, inl, inr, arith, Bool-cases, ◌≢◌, ◌∙◌,
}
use selcal.Prelude.Int.{ℤ, pos, leb_ℤ, eqb_ℤ, ◌<ℤ◌, eq_of_parts}
use selcal.Prelude.{◌↔◌}
use selcal.Errors.{ok, >>-eq-ok, raise_if-eq-ok}
use selcal.Candidates.Perms.{perm-SameChecks}
use selcal.Candidates.Sort.{contains, has_duplicates, insert_sorted, sorted}
use selcal.Candidates.{any_not_positive, Ascending, IsCanonical, canonical_candidates}

insert_sorted-perm : (x : ℤ) (ys : List ℤ) → Perm (insert_sorted x ys) (x ∷ ys)
unfolding insert_sorted
insert_sorted-perm x [] = Perm.rfl
insert_sorted-perm x (y ∷ ys) = elim (Bool-cases (leb_ℤ x y)) [
  | inl le ↦ rw le Perm.rfl
  | inr gt ↦ rw gt (Perm.trans (Perm.cons y (insert_sorted-perm x ys)) (Perm.swap x y ys))
]

pub sorted-perm : (xs : List ℤ) → Perm (sorted xs) xs
unfolding sorted
sorted-perm [] = Perm.rfl
sorted-perm (x ∷ xs) = Perm.trans (insert_sorted-perm x (sorted xs)) (Perm.cons x (sorted-perm xs))

contains-insert_sorted :
    (z x : ℤ) (ys : List ℤ) → contains z (insert_sorted x ys) ≡ (eqb_ℤ z x || contains z ys)
unfolding contains insert_sorted
contains-insert_sorted z x [] = refl
contains-insert_sorted z x (y ∷ ys) = ground (arith, contains-insert_sorted z x ys)

contains-sorted : (z : ℤ) (xs : List ℤ) → contains z (sorted xs) ≡ contains z xs
unfolding sorted contains
contains-sorted z [] = refl
contains-sorted z (x ∷ xs) = rw (contains-insert_sorted z x (sorted xs), contains-sorted z xs)

-- Inserting a new value keeps strict order.
insert_sorted-Ascending :
    (low x : ℤ) (ys : List ℤ)
    → low <ℤ x
    → contains x ys ≡ false
    → Ascending low ys
    → Ascending low (insert_sorted x ys)
unfolding insert_sorted contains
insert_sorted-Ascending low x [] lt new h = (lt, tt)
insert_sorted-Ascending low x (y ∷ ys) lt new h =
    ground (arith, insert_sorted-Ascending y x ys, eq_of_parts x y)

sorted-Ascending :
    (xs : List ℤ)
    → any_not_positive xs ≡ false
    → has_duplicates xs ≡ false
    → Ascending (pos 0) (sorted xs)
unfolding sorted any_not_positive has_duplicates
sorted-Ascending [] p d = tt
sorted-Ascending (x ∷ xs) p d = ground (
  arith,
  sorted-Ascending xs,
  insert_sorted-Ascending (pos 0) x (sorted xs),
  contains-sorted x xs,
)

insert_sorted-ne-nil : (x : ℤ) (ys : List ℤ) → insert_sorted x ys ≢ []
unfolding insert_sorted
insert_sorted-ne-nil x [] = λ e. cc
insert_sorted-ne-nil x (y ∷ ys) = ground arith

sorted-ne-nil : (x : ℤ) (xs : List ℤ) → sorted (x ∷ xs) ≢ []
unfolding sorted insert_sorted
sorted-ne-nil x xs = insert_sorted-ne-nil x (sorted xs)

Ascending-IsCanonical : (ys : List ℤ) → Ascending (pos 0) ys → ys ≢ [] → IsCanonical ys
Ascending-IsCanonical [] h ne = ne refl
Ascending-IsCanonical (y ∷ ys) h ne = h

canonical_candidates_perm :
    {xs ys : List ℤ} → Perm ys xs → canonical_candidates xs ≡ canonical_candidates ys
unfolding canonical_candidates
canonical_candidates_perm p =
    let same = perm-SameChecks p in rw (same.empty, same.positive, same.duplicates, same.order)

-- A strictly increasing list is its own sorted form, with no duplicate.
not-contains_below :
    (x low : ℤ) (ys : List ℤ) → Ascending low ys → (x <ℤ low) ⊎ (x ≡ low) → contains x ys ≡ false
unfolding contains
not-contains_below x low [] h lt = refl
not-contains_below x low (y ∷ ys) h (inl lt) =
    ground (arith, not-contains_below x y ys h.1 (inl (omega arith)))
not-contains_below x low (y ∷ ys) h (inr e) =
    let below : x <ℤ y = rw e h.0 in ground (arith, not-contains_below x y ys h.1 (inl below))

sorted_of_Ascending : (low : ℤ) (ys : List ℤ) → Ascending low ys → sorted ys ≡ ys
unfolding sorted insert_sorted
sorted_of_Ascending low [] h = refl
sorted_of_Ascending low (y ∷ []) h = refl
sorted_of_Ascending low (y ∷ z ∷ zs) h = rw (sorted_of_Ascending y (z ∷ zs) h.1) (ground arith)

checks_of_Ascending :
    (low : ℤ) (ys : List ℤ)
    → (neg : leb_ℤ (pos 0) low ≡ true) → Ascending low ys
    → (any_not_positive ys ≡ false) × (has_duplicates ys ≡ false)
unfolding any_not_positive has_duplicates
checks_of_Ascending low [] p h = (refl, refl)
checks_of_Ascending low (y ∷ ys) p h =
    ground (arith, checks_of_Ascending y ys, not-contains_below y y ys h.1 (inr refl))

canonical_candidates-IsCanonical :
    (xs ys : List ℤ) → canonical_candidates xs ≡ ok ys → IsCanonical ys × Perm ys xs
unfolding canonical_candidates
canonical_candidates-IsCanonical [] ys e = cc
canonical_candidates-IsCanonical (x ∷ xs) ys e =
    let (positive, e') = >>-eq-ok _ _ e in
    let (distinct, e'') = >>-eq-ok _ _ e' in
    let asc =
      sorted-Ascending (x ∷ xs) (raise_if-eq-ok _ _ positive) (raise_if-eq-ok _ _ distinct) in
    let same : sorted (x ∷ xs) ≡ ys = ground (arith, e'') in
    rw (← same) (Ascending-IsCanonical _ asc (sorted-ne-nil x xs), sorted-perm (x ∷ xs))

canonical_self : (ys : List ℤ) → IsCanonical ys → canonical_candidates ys ≡ ok ys
unfolding canonical_candidates
canonical_self [] h = elim h [ ]
canonical_self (y ∷ ys) h =
    let (positive, distinct) = checks_of_Ascending (pos 0) (y ∷ ys) refl h in
    rw (positive, distinct, sorted_of_Ascending (pos 0) (y ∷ ys) h)

canonical_complete :
    (xs ys : List ℤ) → IsCanonical ys × Perm ys xs → canonical_candidates xs ≡ ok ys
canonical_complete xs ys (h, p) = canonical_candidates_perm p ∙ canonical_self ys h

-- A list of candidates is canonicalised exactly to its canonical rearrangement: the call returns
-- `ys` if and only if `ys` is a non-empty, strictly increasing list of positive lags that
-- holds the given values, each as often as it was given.
pub canonical_candidates_iff :
    (xs ys : List ℤ) → (canonical_candidates xs ≡ ok ys) ↔ (IsCanonical ys × Perm ys xs)
canonical_candidates_iff xs ys = (canonical_candidates-IsCanonical xs ys, canonical_complete xs ys)

-- A canonical list is left alone, and a list that is left alone is canonical: the test
-- `candidates != canonical_candidates(candidates)` of the callers decides canonicity.
pub canonical_candidates_fixed : (ys : List ℤ) → (canonical_candidates ys ≡ ok ys) ↔ IsCanonical ys
canonical_candidates_fixed ys = (
  λ e. ((canonical_candidates_iff ys ys).0 e).0,
  λ h. (canonical_candidates_iff ys ys).1 (h, Perm.rfl),
)
