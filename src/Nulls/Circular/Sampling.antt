-- ===== src/Nulls/Circular/Sampling.antt =====
-- The states that the circular null samples.
use selcal.Prelude.{ℕ, zero, suc, ◌+◌, ◌-◌, ◌*◌, ◌≤◌, ◌<◌, ◌≡◌, ◌⊎◌, refl, sym, arith, inl, inr}
use selcal.Nulls.Circular.{shift_of_index}

-- The shifts that a bound null with this `min_shift` and length owns: none, or a right shift that
-- stays `min_shift` away from a full turn.
unfoldable pub IsShift : ℕ → ℕ → ℕ → Type 0
IsShift min_shift observed_length shift =
    (shift ≡ 0) ⊎ ((min_shift ≤ shift) × (shift ≤ observed_length - min_shift))

-- Sampling: for `1 <= min_shift` and `2 * min_shift <= observed_length`, the shift of an index
-- below the state count `observed_length - 2 * min_shift + 2` is a shift of the null, every
-- shift of the null is the shift of such an index, and two indices never have the same shift.
pub shift_of_index-bijective :
    (min_shift observed_length : ℕ)
    → 1 ≤ min_shift
    → 2 * min_shift ≤ observed_length
    → ((i : ℕ)
        → i < observed_length - 2 * min_shift + 2
        → IsShift min_shift observed_length (shift_of_index min_shift i))
      × ((shift : ℕ)
          → IsShift min_shift observed_length shift
          → (i : ℕ) × (i < observed_length - 2 * min_shift + 2)
            × (shift_of_index min_shift i ≡ shift))
      × ((i j : ℕ) → shift_of_index min_shift i ≡ shift_of_index min_shift j → i ≡ j)
unfolding IsShift
shift_of_index-bijective m n positive enough = (into, onto, one_to_one)
  where
    into : (i : ℕ) → i < n - 2 * m + 2 → IsShift m n (shift_of_index m i)
    into zero h = inl refl
    into (suc i) h = inr (ground arith, ground arith)

    onto :
        (shift : ℕ)
        → IsShift m n shift
        → (i : ℕ) × (i < n - 2 * m + 2) × (shift_of_index m i ≡ shift)
    onto shift (inl z) = (0, omega arith, sym z)
    onto shift (inr (low, high)) = (suc (shift - m), omega arith, ground arith)

    one_to_one : (i j : ℕ) → shift_of_index m i ≡ shift_of_index m j → i ≡ j
    one_to_one zero zero e = refl
    one_to_one zero (suc j) e = ground arith
    one_to_one (suc i) zero e = ground arith
    one_to_one (suc i) (suc j) e = ground arith
