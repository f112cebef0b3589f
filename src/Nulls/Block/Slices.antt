-- ===== src/Nulls/Block/Slices.antt =====
-- NumPy slices of one vector: slices that meet, and a vector written to a slice that it fits.
use selcal.Prelude.{
  ℕ, zero, suc, ◌+◌, ◌≤◌, List, [], ◌∷◌, ◌++◌, ◌≡◌, refl, ap, ◌∙◌, arith, length, take, drop,
}
use selcal.Errors.{ok}
use selcal.Arrays.{slice}
use selcal.Arrays.Laws.{length-slice}
use selcal.Nulls.Owned.Laws.{same_length}
use selcal.Nulls.Block.{fitted, write_slice}

module _ {F : Type 0} where
  fitted_exact : (n : ℕ) (values : List F) → length values ≡ n → fitted n values ≡ ok values
  unfolding fitted
  fitted_exact n [] h = rw (← h)
  fitted_exact n (v ∷ []) h = rw (← h)
  fitted_exact n (v ∷ w ∷ vs) h = rw (← h) (rw (same_length (length (v ∷ w ∷ vs))))

  pub take-append_exact : (n : ℕ) (xs ys : List F) → length xs ≡ n → take n (xs ++ ys) ≡ xs
  take-append_exact zero [] ys h = refl
  take-append_exact zero (x ∷ xs) ys h = absurd (omega arith)
  take-append_exact (suc n) [] ys h = absurd (omega arith)
  take-append_exact (suc n) (x ∷ xs) ys h =
      ap (λ zs. x ∷ zs) (take-append_exact n xs ys (omega arith))

  pub take_all : (n : ℕ) (xs : List F) → length xs ≡ n → take n xs ≡ xs
  take_all zero [] h = refl
  take_all zero (x ∷ xs) h = absurd (omega arith)
  take_all (suc n) [] h = refl
  take_all (suc n) (x ∷ xs) h = ap (λ zs. x ∷ zs) (take_all n xs (omega arith))

  slice_nil : (a b : ℕ) → slice {A = F} a b [] ≡ []
  slice_nil zero zero = refl
  slice_nil zero (suc b) = refl
  slice_nil (suc a) zero = refl
  slice_nil (suc a) (suc b) = refl

  pub slice_empty : (a : ℕ) (xs : List F) → slice a a xs ≡ []
  slice_empty zero xs = refl
  slice_empty (suc a) [] = refl
  slice_empty (suc a) (x ∷ xs) = slice_empty a xs

  -- Two slices that meet
  pub slice-append :
      (a b c : ℕ) (xs : List F) → a ≤ b → b ≤ c → slice a b xs ++ slice b c xs ≡ slice a c xs
  slice-append a b c [] p q = rw (slice_nil a b, slice_nil b c, slice_nil a c)
  slice-append zero zero c (x ∷ xs) p q = refl
  slice-append zero (suc b) zero (x ∷ xs) p q = absurd (omega arith)
  slice-append zero (suc b) (suc c) (x ∷ xs) p q =
      ap (λ ys. x ∷ ys) (slice-append zero b c xs (omega arith) (omega arith))
  slice-append (suc a) zero c (x ∷ xs) p q = absurd (omega arith)
  slice-append (suc a) (suc b) zero (x ∷ xs) p q = absurd (omega arith)
  slice-append (suc a) (suc b) (suc c) (x ∷ xs) p q =
      slice-append a b c xs (omega arith) (omega arith)

  -- A vector that fits the slice replaces it.
  pub write_slice_exact :
      (start size : ℕ) (values buffer : List F)
      → length values ≡ size
      → start + size ≤ length buffer
      → write_slice start (start + size) values buffer
        ≡ ok (take start buffer ++ (values ++ drop (start + size) buffer))
  unfolding write_slice
  write_slice_exact start size values buffer h room =
      let fits : length (slice start (start + size) buffer) ≡ size =
        length-slice start (start + size) buffer room ∙ omega arith in
      rw (fits, fitted_exact size values h)
