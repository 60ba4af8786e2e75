-- ===== src/Matrix/Associativity.antt =====
-- operator* of include/mars/matrix.h over a field: products of three matrices.
use taurus.Shared.{ℕ, zero, suc, ◌*◌, ◌<◌, ◌≡◌, refl, sym, ap, ◌∙◌, done, ◌>>=◌}
use taurus.Shared.Int.{pos}
use taurus.Matrix.{Element, Matrix, size_mod}
use taurus.Matrix.Views.{Represents, Represents-same}
use taurus.Matrix.Arith.{multiply}
use taurus.Matrix.Products.{sum, product, multiply_lem}
use taurus.Matrix.Fields.{IsExact, sum_congr, sum-mul, sum-add}

module _ {ℓ} {A : Type ℓ} (e : Element A) (laws : IsExact e) where
  open e use {add, mul, of_int}
  open laws use {zero_add, mul_assoc, mul_comm}

  sum-zero : (n : ℕ) → sum e (λ _. of_int (pos 0)) n ≡ of_int (pos 0)
  sum-zero zero = refl
  sum-zero (suc n) = ap (λ x. add x (of_int (pos 0))) (sum-zero n) ∙ zero_add (of_int (pos 0))

  -- A double sum in the other order
  sum_comm :
      (f : ℕ → ℕ → A) (m n : ℕ) → sum e (λ i. sum e (f i) n) m ≡ sum e (λ j. sum e (λ i. f i j) m) n
  sum_comm f zero n = sym (sum-zero n)
  sum_comm f (suc m) n =
      ap (λ x. add x (sum e (f m) n)) (sum_comm f m n)
      ∙ sym (sum-add e laws (λ j. sum e (λ i. f i j) m) (f m) n)

  sum_mul_right : (c : A) (f : ℕ → A) (n : ℕ) → mul (sum e f n) c ≡ sum e (λ t. mul (f t) c) n
  sum_mul_right c f n =
      mul_comm (sum e f n) c
      ∙ sym (sum-mul e laws c f n)
      ∙ sum_congr e laws (λ t. mul c (f t)) (λ t. mul (f t) c) n (λ t _. mul_comm c (f t))

  product_assoc :
      (m n : ℕ) (f g h : ℕ → ℕ → A) (i j : ℕ)
      → product e n (product e m f g) h i j ≡ product e m f (product e n g h) i j
  product_assoc m n f g h i j =
      sum_congr e laws (λ t. mul (product e m f g i t) (h t j))
        (λ t. sum e (λ s. mul (mul (f i s) (g s t)) (h t j)) m) n
        (λ t _. sum_mul_right (h t j) (λ s. mul (f i s) (g s t)) m)
      ∙ sum_comm (λ t s. mul (mul (f i s) (g s t)) (h t j)) n m
      ∙ sum_congr e laws (λ s. sum e (λ t. mul (mul (f i s) (g s t)) (h t j)) n)
          (λ s. mul (f i s) (product e n g h s j)) m
          (λ s _.
            sum_congr e laws (λ t. mul (mul (f i s) (g s t)) (h t j))
              (λ t. mul (f i s) (mul (g s t) (h t j))) n (λ t _. mul_assoc (f i s) (g s t) (h t j))
            ∙ sum-mul e laws (f i s) (λ t. mul (g s t) (h t j)) n)

  -- (m1 * m2) * m3 and m1 * (m2 * m3) over a field, where the three products of two fit in size_t: both
  -- are computed, have the same size and the same entries.
  pub multiply_assoc :
      (m1 m2 m3 : Matrix A) (rows m n cols : ℕ) (f g h : ℕ → ℕ → A)
      → Represents m1 rows m f
      → Represents m2 m n g
      → Represents m3 n cols h
      → rows * n < size_mod
      → m * cols < size_mod
      → rows * cols < size_mod
      → (x y : Matrix A) × ((multiply ⦃e = e⦄ m1 m2 >>= λ a. multiply ⦃e = e⦄ a m3) ≡ done x)
        × ((multiply ⦃e = e⦄ m2 m3 >>= λ b. multiply ⦃e = e⦄ m1 b) ≡ done y)
        × Represents x rows cols (product e m f (product e n g h))
        × Represents y rows cols (product e m f (product e n g h))
  multiply_assoc m1 m2 m3 rows m n cols f g h r1 r2 r3 s1 s2 s3 =
      let (a, a_eq, a_is) = multiply_lem e m1 m2 rows m n f g r1 r2 s1 in
      let (x, x_eq, x_is) = multiply_lem e a m3 rows n cols (product e m f g) h a_is r3 s3 in
      let (b, b_eq, b_is) = multiply_lem e m2 m3 m n cols g h r2 r3 s2 in
      let (y, y_eq, y_is) = multiply_lem e m1 b rows m cols f (product e n g h) r1 b_is s3 in
      (
        x,
        y,
        ap (λ o. o >>= λ a. multiply ⦃e = e⦄ a m3) a_eq ∙ x_eq,
        ap (λ o. o >>= λ b. multiply ⦃e = e⦄ m1 b) b_eq ∙ y_eq,
        Represents-same x rows cols (product e n (product e m f g) h)
            (product e m f (product e n g h)) (λ i j _ _. product_assoc m n f g h i j) x_is,
        y_is,
      )
