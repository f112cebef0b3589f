-- ===== src/Candidates/Perms.antt =====
-- The checks and the sorting of `canonical_candidates` do not depend on the order of the input.
use mathlib.Core.Bool.{Bool-set}
use mathlib.Core.Logic.{∥∥₁_elim}
use mathlib.Core.List.{Perm, Permᴰ}
use selcal.Prelude.{List, [], ◌∷◌, ◌≡◌, refl, ◌∙◌, arith}
use selcal.Prelude.Int.{ℤ, eq_of_parts}
use selcal.Candidates.Sort.{contains, has_duplicates, insert_sorted, sorted}
use selcal.Candidates.{any_not_positive, is_empty}

contains_permᴰ : {xs ys : List ℤ} (z : ℤ) → Permᴰ xs ys → contains z xs ≡ contains z ys
unfolding contains
contains_permᴰ z Permᴰ.nil = refl
contains_permᴰ z (Permᴰ.cons e d) = rw (e, contains_permᴰ z d)
contains_permᴰ z (Permᴰ.swap e f) = rw (e, f) (ground arith)
contains_permᴰ z (Permᴰ.trans d d') = contains_permᴰ z d ∙ contains_permᴰ z d'

pub contains-perm : {xs ys : List ℤ} (z : ℤ) → Perm xs ys → contains z xs ≡ contains z ys
contains-perm z p = ∥∥₁_elim p (Bool-set _ _) (contains_permᴰ z)

any_not_positive_permᴰ : {xs ys : List ℤ} → Permᴰ xs ys → any_not_positive xs ≡ any_not_positive ys
unfolding any_not_positive
any_not_positive_permᴰ Permᴰ.nil = refl
any_not_positive_permᴰ (Permᴰ.cons e d) = rw (e, any_not_positive_permᴰ d)
any_not_positive_permᴰ (Permᴰ.swap e f) = rw (e, f) (ground arith)
any_not_positive_permᴰ (Permᴰ.trans d d') = any_not_positive_permᴰ d ∙ any_not_positive_permᴰ d'

has_duplicates_permᴰ : {xs ys : List ℤ} → Permᴰ xs ys → has_duplicates xs ≡ has_duplicates ys
unfolding has_duplicates
has_duplicates_permᴰ Permᴰ.nil = refl
has_duplicates_permᴰ (Permᴰ.cons {b = b} e d) = rw (e, contains_permᴰ b d, has_duplicates_permᴰ d)
has_duplicates_permᴰ (Permᴰ.swap e f) = rw (e, f) (ground arith)
has_duplicates_permᴰ (Permᴰ.trans d d') = has_duplicates_permᴰ d ∙ has_duplicates_permᴰ d'

is_empty_permᴰ : {xs ys : List ℤ} → Permᴰ xs ys → is_empty xs ≡ is_empty ys
is_empty_permᴰ Permᴰ.nil = refl
is_empty_permᴰ (Permᴰ.cons e d) = refl
is_empty_permᴰ (Permᴰ.swap e f) = refl
is_empty_permᴰ (Permᴰ.trans d d') = is_empty_permᴰ d ∙ is_empty_permᴰ d'

insert_sorted_comm :
    (x y : ℤ) (zs : List ℤ)
    → insert_sorted x (insert_sorted y zs) ≡ insert_sorted y (insert_sorted x zs)
unfolding insert_sorted
insert_sorted_comm x y [] = ground (arith, eq_of_parts x y)
insert_sorted_comm x y (z ∷ zs) = ground (arith, insert_sorted_comm x y zs, eq_of_parts x y)

sorted_permᴰ : {xs ys : List ℤ} → Permᴰ xs ys → sorted xs ≡ sorted ys
unfolding sorted
sorted_permᴰ Permᴰ.nil = refl
sorted_permᴰ (Permᴰ.cons e d) = rw (e, sorted_permᴰ d)
sorted_permᴰ (Permᴰ.swap {a} {b} {l = l} e f) = rw (← e, ← f) (insert_sorted_comm a b (sorted l))
sorted_permᴰ (Permᴰ.trans d d') = sorted_permᴰ d ∙ sorted_permᴰ d'

-- What `canonical_candidates` computes from is the same for the lists of one permutation class.
pub record SameChecks (xs ys : List ℤ) : Type 0 where
  pub empty : is_empty xs ≡ is_empty ys
  pub positive : any_not_positive xs ≡ any_not_positive ys
  pub duplicates : has_duplicates xs ≡ has_duplicates ys
  pub order : sorted xs ≡ sorted ys

pub perm-SameChecks : {xs ys : List ℤ} → Perm xs ys → SameChecks xs ys
perm-SameChecks p = record {
  empty = ∥∥₁_elim p (Bool-set _ _) is_empty_permᴰ;
  positive = ∥∥₁_elim p (Bool-set _ _) any_not_positive_permᴰ;
  duplicates = ∥∥₁_elim p (Bool-set _ _) has_duplicates_permᴰ;
  order = ∥∥₁_elim p (List_ℤ-set _ _) sorted_permᴰ;
}
  where
    List_ℤ-set : IsSet (List ℤ)
    List_ℤ-set = hlevel
