-- ===== src/Matrix/Systems.antt =====
-- Which vectors the rows of a matrix of include/mars/matrix.h send to zero, before and after the steps
-- of reduced_row_echelon.
use taurus.Shared.{
  ℕ, ◌<◌, ◌≡◌, sym, ap, subst, ◌∙◌, false, ◌==◌, if◌then◌else◌, Bool-cases, inl, inr, arith,
}
use taurus.Shared.Int.{pos, negsuc}
use taurus.Matrix.{Element}
use taurus.Matrix.Products.{sum}
use taurus.Matrix.RowViews.{switched}
use taurus.Matrix.Entries.{==_refl}
use taurus.Matrix.Echelon.{pivoted}
use taurus.Matrix.Fields.{IsExact, mul_zero, add_mul, div_as_mul, sum_congr, sum-mul, sum-add}

module _ {ℓ} {A : Type ℓ} (e : Element A) where
  open e use {add, mul, div, of_int, is_zero}

  -- Row i times the vector x
  abbrev pub row_value : ℕ → (ℕ → ℕ → A) → (ℕ → A) → ℕ → A
  row_value cols f x i = sum e (λ t. mul (f i t) (x t)) cols

  -- Every row sends x to zero.
  abbrev pub Kills : ℕ → ℕ → (ℕ → ℕ → A) → (ℕ → A) → Type ℓ
  Kills rows cols f x = (i : ℕ) → i < rows → row_value cols f x i ≡ of_int (pos 0)

  module _ (laws : IsExact e) (rows cols : ℕ) (x : ℕ → A) where
    open laws use {
      add_assoc, add_comm, zero_add, negate, mul_assoc, mul_comm, one_mul, mul_add, mul_div,
    }

    pub switched_value :
        (r1 r2 : ℕ) (f : ℕ → ℕ → A) (i : ℕ)
        → row_value cols (switched r1 r2 f) x i ≡ (
            if i == r2
            then row_value cols f x r1
            else (if i == r1 then row_value cols f x r2 else row_value cols f x i))
    switched_value r1 r2 f i = elim (Bool-cases (i == r2)) [
      | inl second ↦ simp second
      | inr other ↦ elim (Bool-cases (i == r1)) [
        | inl first ↦ simp (other, first)
        | inr third ↦ simp (other, third)
      ]
    ]

    module _ (r : ℕ) (f : ℕ → ℕ → A) (pivot : is_zero (f r r) ≡ false) where
      -- The quotient of the row by its pivot
      quotient_value :
          row_value cols (λ _ t. div (f r t) (f r r)) x r
          ≡ mul (div (of_int (pos 1)) (f r r)) (row_value cols f x r)
      quotient_value =
          sum_congr e laws (λ t. mul (div (f r t) (f r r)) (x t))
            (λ t. mul (div (of_int (pos 1)) (f r r)) (mul (f r t) (x t))) cols
            (λ t _.
              ap (λ u. mul u (x t)) (div_as_mul e laws (f r t) (f r r) pivot)
              ∙ mul_assoc (div (of_int (pos 1)) (f r r)) (f r t) (x t))
          ∙ sum-mul e laws (div (of_int (pos 1)) (f r r)) (λ t. mul (f r t) (x t)) cols

      pivoted_own_value :
          row_value cols (pivoted e r f) x r
          ≡ mul (div (of_int (pos 1)) (f r r)) (row_value cols f x r)
      pivoted_own_value = simp (==_refl r) quotient_value

      pivoted_other_value :
          (k : ℕ)
          → (k == r) ≡ false
          → row_value cols (pivoted e r f) x k
            ≡ add
                (mul
                  (mul (f k r) (of_int (negsuc 0)))
                  (mul (div (of_int (pos 1)) (f r r)) (row_value cols f x r)))
                (row_value cols f x k)
      pivoted_other_value k other =
          let c = mul (f k r) (of_int (negsuc 0)) in
          simp other (
            sum_congr e laws (λ t. mul (add (mul (div (f r t) (f r r)) c) (f k t)) (x t))
              (λ t. add (mul c (mul (div (f r t) (f r r)) (x t))) (mul (f k t) (x t))) cols
              (λ t _.
                add_mul e laws (mul (div (f r t) (f r r)) c) (f k t) (x t)
                ∙ ap (λ u. add u (mul (f k t) (x t)))
                    (ap (λ u. mul u (x t)) (mul_comm (div (f r t) (f r r)) c)
                      ∙ mul_assoc c (div (f r t) (f r r)) (x t)))
            ∙ sum-add e laws (λ t. mul c (mul (div (f r t) (f r r)) (x t))) (λ t. mul (f k t) (x t))
                cols
            ∙ ap (λ u. add u (row_value cols f x k))
                (sum-mul e laws c (λ t. mul (div (f r t) (f r r)) (x t)) cols
                  ∙ ap (mul c) quotient_value))

      -- The row of the pivot is zero before exactly if it is after.
      own_back :
          row_value cols (pivoted e r f) x r ≡ of_int (pos 0)
          → row_value cols f x r ≡ of_int (pos 0)
      own_back h =
          let q = div (of_int (pos 1)) (f r r) in
          sym (one_mul (row_value cols f x r))
          ∙ ap (λ u. mul u (row_value cols f x r)) (sym (mul_div (of_int (pos 1)) (f r r) pivot))
          ∙ mul_assoc (f r r) q (row_value cols f x r)
          ∙ ap (mul (f r r)) (sym pivoted_own_value ∙ h)
          ∙ mul_zero e laws (f r r)

      others_agree :
          (k : ℕ)
          → (k == r) ≡ false
          → row_value cols f x r ≡ of_int (pos 0)
          → row_value cols (pivoted e r f) x k ≡ row_value cols f x k
      others_agree k other h =
          let c = mul (f k r) (of_int (negsuc 0)) in
          let q = div (of_int (pos 1)) (f r r) in
          pivoted_other_value k other
          ∙ ap (λ u. add (mul c (mul q u)) (row_value cols f x k)) h
          ∙ ap (λ u. add (mul c u) (row_value cols f x k)) (mul_zero e laws q)
          ∙ ap (λ u. add u (row_value cols f x k)) (mul_zero e laws c)
          ∙ zero_add (row_value cols f x k)

      pub Kills-pivoted : Kills rows cols f x → r < rows → Kills rows cols (pivoted e r f) x
      Kills-pivoted h p i i_in = elim (Bool-cases (i == r)) [
        | inl own ↦
            subst (λ j. row_value cols (pivoted e r f) x j ≡ of_int (pos 0)) {x = r} (ground arith)
              (pivoted_own_value
                ∙ ap (mul (div (of_int (pos 1)) (f r r))) (h r p)
                ∙ mul_zero e laws (div (of_int (pos 1)) (f r r)))
        | inr other ↦ others_agree i other (h r p) ∙ h i i_in
      ]

      pub pivoted-Kills : Kills rows cols (pivoted e r f) x → r < rows → Kills rows cols f x
      pivoted-Kills h p i i_in = elim (Bool-cases (i == r)) [
        | inl own ↦
            subst (λ j. row_value cols f x j ≡ of_int (pos 0)) {x = r} (ground arith)
              (own_back (h r p))
        | inr other ↦ sym (others_agree i other (own_back (h r p))) ∙ h i i_in
      ]
