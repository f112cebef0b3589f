-- ===== src/Prelude/Tally.antt =====
-- How many elements of a list have a property, as a relation.
use selcal.Prelude.{ℕ, suc, List, [], ◌∷◌}

-- Walking the list, the elements that have the property are counted, and the others are passed over.
pub data Tally {A : Type 0} (P : A → Type 0) : List A → ℕ → Type 0 where
  nothing : Tally P [] 0
  counted : {x : A} {xs : List A} {n : ℕ} → P x → Tally P xs n → Tally P (x ∷ xs) (suc n)
  passed : {x : A} {xs : List A} {n : ℕ} → (P x → ⊥) → Tally P xs n → Tally P (x ∷ xs) n
