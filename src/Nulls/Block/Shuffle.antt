-- ===== src/Nulls/Block/Shuffle.antt =====
-- The shuffle of the block null samples a permutation, which the check of a token's order accepts.
use mathlib.Core.List.{Perm, Permᴰ}
use mathlib.Core.Logic.{∥∥₁_elim}
use mathlib.Core.List.Perm as P
use selcal.Prelude.{
  ℕ, zero, suc, ◌-◌, ◌≤◌, ◌<◌, List, [], ◌∷◌, true, false, not, Option, some, ◌≡◌, ◌≢◌, refl, sym,
  ap, subst, ◌∙◌, arith, length, length-set, length-map, map, get_elem?, get_elem?-set_self,
  get_elem?-set_ne, set, ltb, ◌==◌, inl, inr, Bool-cases, some-injective,
}
use selcal.Prelude.Index.{get_elem?-some, range_from, length-range_from}
use selcal.Prelude.Int.{ℤ, pos, leb_ℤ}
use selcal.Errors.{Result, ok, index_error, or_raise, >>=-eq-ok, or_raise-eq-ok, ok-injective}
use selcal.Candidates.{sorted, insert_sorted}
use selcal.Candidates.Perms.{perm-SameChecks}
use selcal.Nulls.Token.{labels_below}
use selcal.Nulls.Owned.Laws.{equal_labels_refl, same_length}
use selcal.Nulls.Circular.{require_index}
use selcal.Nulls.Block.{
  wrong_count, validate_block_order, swap_entries, shuffle_from, sample_block_order,
}

module _ {ℓ} {A : Type ℓ} where
  -- Putting `b` where `a` stood
  set-perm :
      (xs : List A) (i : ℕ) {a : A} (b : A)
      → get_elem? xs i ≡ some a
      → Perm (b ∷ xs) (a ∷ set xs i b)
  set-perm [] i b h = cc
  set-perm (x ∷ xs) zero {a} b h =
      subst (λ y. Perm (b ∷ x ∷ xs) (y ∷ b ∷ xs)) (some-injective h) (P.swap x b xs)
  set-perm (x ∷ xs) (suc i) {a} b h =
      P.trans (P.swap x b xs) (P.trans (P.cons x (set-perm xs i b h)) (P.swap a x (set xs i b)))

  get_elem?-lt : (xs : List A) (i : ℕ) {a : A} → get_elem? xs i ≡ some a → i < length xs
  get_elem?-lt [] i h = cc
  get_elem?-lt (x ∷ xs) zero h = omega arith
  get_elem?-lt (x ∷ xs) (suc i) h = omega (arith, get_elem?-lt xs i h)

  set-get :
      (xs : List A) (i j : ℕ) {a b : A}
      → get_elem? xs i ≡ some a
      → get_elem? xs j ≡ some b
      → get_elem? (set xs i b) j ≡ some b
  set-get xs i j {a} {b} hi hj = elim (Bool-cases (i == j)) [
    | inl same ↦
        subst (λ k. get_elem? (set xs i b) k ≡ some b) (eq_of same)
          (get_elem?-set_self xs i b (get_elem?-lt xs i hi))
    | inr differs ↦ get_elem?-set_ne xs b (ne_of differs) ∙ hj
  ]
    where
      eq_of : (i == j) ≡ true → i ≡ j
      eq_of h = ground arith

      ne_of : (i == j) ≡ false → i ≢ j
      ne_of h = ground arith

  -- Exchanging two entries permutes the list.
  swap_entries-perm :
      (xs : List A) (i j : ℕ) {ys : List A} → swap_entries xs i j ≡ ok ys → Perm xs ys
  unfolding swap_entries
  swap_entries-perm xs i j h =
      let (b, hb, h1) = >>=-eq-ok (or_raise (get_elem? xs j) index_error) _ h in
      let (a, ha, h2) = >>=-eq-ok (or_raise (get_elem? xs i) index_error) _ h1 in
      let at_j = or_raise-eq-ok (get_elem? xs j) index_error hb in
      let at_i = or_raise-eq-ok (get_elem? xs i) index_error ha in
      let there = set-get xs i j at_i at_j in
      subst (λ ys. Perm xs ys) (ok-injective h2)
        (P.cons_inv (P.trans (set-perm xs i b at_i) (set-perm (set xs i b) j a there)))

length-permᴰ : {A : Type 0} {xs ys : List A} → Permᴰ xs ys → length xs ≡ length ys
length-permᴰ Permᴰ.nil = refl
length-permᴰ (Permᴰ.cons e d) = ap suc (length-permᴰ d)
length-permᴰ (Permᴰ.swap e f) = refl
length-permᴰ (Permᴰ.trans d d') = length-permᴰ d ∙ length-permᴰ d'

pub length-perm : {A : Type 0} {xs ys : List A} → Perm xs ys → length xs ≡ length ys
length-perm p = ∥∥₁_elim p (ℕ-set _ _) length-permᴰ
  where
    ℕ-set : IsSet ℕ
    ℕ-set = hlevel

swap_entries_total :
    (xs : List ℤ) (i j : ℕ)
    → i < length xs
    → j < length xs
    → (ys : List ℤ) × (swap_entries xs i j ≡ ok ys) × (length ys ≡ length xs)
unfolding swap_entries
swap_entries_total xs i j hi hj =
    let (a, ha) = get_elem?-some xs i hi in
    let (b, hb) = get_elem?-some xs j hj in
    (set (set xs i b) j a, rw (hb, ha), length-set (set xs i b) j a ∙ length-set xs i b)

require_index_lem : (n bound : ℕ) → n < bound → require_index (pos n) bound ≡ ok n
unfolding require_index
require_index_lem n bound h = ground arith

insert_below :
    (start count : ℕ)
    → insert_sorted (pos start) (map pos (range_from (suc start) count))
      ≡ pos start ∷ map pos (range_from (suc start) count)
unfolding insert_sorted
insert_below start zero = refl
insert_below start (suc count) =
    let first : leb_ℤ (pos start) (pos (suc start)) ≡ true = ground arith in rw first

pub sorted-range :
    (start count : ℕ) → sorted (map pos (range_from start count)) ≡ map pos (range_from start count)
unfolding sorted
sorted-range start zero = refl
sorted-range start (suc count) = rw (sorted-range (suc start) count) (insert_below start count)

pub length-labels_below : (q : ℕ) → length (labels_below q) ≡ q
length-labels_below q = length-map (range_from 0 q) pos ∙ length-range_from 0 q

-- The check of an order accepts every permutation of the labels.
pub validate_block_order-perm :
    (q : ℕ) (order : List ℤ) (expected : Option ℕ)
    → 2 ≤ q
    → Perm (labels_below q) order
    → wrong_count expected q ≡ false
    → validate_block_order order expected ≡ ok order
unfolding validate_block_order
validate_block_order-perm q order expected h p right =
    let count : length order ≡ q = sym (length-perm p) ∙ length-labels_below q in
    let same : sorted order ≡ labels_below q = sym (perm-SameChecks p).order ∙ sorted-range 0 q in
    let enough : ltb q 2 ≡ false = ground arith in
    rw (count, enough, right, same, equal_labels_refl (labels_below q))

module _ {S : Type 0} (randbelow : ℕ → S → Result (ℤ × S)) where
  pub shuffle_from-perm :
      (i : ℕ) (labels : List ℤ) (s : S) {out : List ℤ × S}
      → shuffle_from randbelow i labels s ≡ ok out
      → Perm labels out.0
  unfolding shuffle_from
  shuffle_from-perm zero labels s h =
      subst (λ (o : List ℤ × S). Perm labels o.0) (ok-injective h) P.rfl
  shuffle_from-perm (suc i) labels s h =
      let (drawn, h0, h1) = >>=-eq-ok (randbelow (suc (suc i)) s) _ h in
      let (index, h2, h3) = >>=-eq-ok (require_index drawn.0 (suc (suc i))) _ h1 in
      let (swapped, h4, h5) = >>=-eq-ok (swap_entries labels (suc i) index) _ h3 in
      P.trans (swap_entries-perm labels (suc i) index h4) (shuffle_from-perm i swapped drawn.1 h5)

  -- A source whose index is below every bound that is not 0, as its protocol promises
  unfoldable pub InRange : Type 0
  InRange =
      (bound : ℕ) (s : S)
      → 0 < bound
      → (n : ℕ) × (next : S) × (n < bound) × (randbelow bound s ≡ ok (pos n, next))

  shuffle_from_total :
      InRange
      → (i : ℕ) (labels : List ℤ) (s : S) → i < length labels
      → (out : List ℤ × S) × (shuffle_from randbelow i labels s ≡ ok out)
  unfolding shuffle_from InRange
  shuffle_from_total source zero labels s h = ((labels, s), refl)
  shuffle_from_total source (suc i) labels s h =
      let (n, next, small, drawn) = source (suc (suc i)) s (omega arith) in
      let (swapped, e, size) = swap_entries_total labels (suc i) n h (omega arith) in
      let (out, f) = shuffle_from_total source i swapped next (omega arith) in
      (out, rw (drawn, require_index_lem n (suc (suc i)) small, e, f))

  -- Sampling: with a source that keeps its promise and q >= 2 blocks, sampling returns an order of
  -- the labels 0, ..., q - 1, a permutation of them, and the check of a token's order accepts it.
  pub sample_block_order-permutes :
      InRange
      → (block_count : ℕ) (s : S) → 2 ≤ block_count
      → (out : List ℤ × S) × (sample_block_order randbelow block_count s ≡ ok out)
        × Perm (labels_below block_count) out.0
        × (validate_block_order out.0 (some block_count) ≡ ok out.0)
  unfolding sample_block_order
  sample_block_order-permutes source q s h =
      let size = length-labels_below q in
      let (out, e) = shuffle_from_total source (q - 1) (labels_below q) s (omega arith) in
      let p = shuffle_from-perm (q - 1) (labels_below q) s e in
      (out, e, p, validate_block_order-perm q out.0 (some q) h p (ap not (same_length q)))
