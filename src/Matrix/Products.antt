-- ===== src/Matrix/Products.antt =====
-- operator* of include/mars/matrix.h against the product of matrices.
use native.Mathlib.Nat.{mul_comm}
use taurus.Shared.{
  ℕ, zero, suc, ◌*◌, ◌<◌, ◌≡◌, refl, ap, ap₂, ◌∙◌, done, ◌>>=◌, loop-from_zero, arith,
}
use taurus.Shared.Int.{pos}
use taurus.Matrix.{Element, Matrix, size_mod}
use taurus.Matrix.Views.{Represents, Represents-same}
use taurus.Matrix.Arith.{transpose, multiply, dot}
use taurus.Matrix.Entries.{filled_lem, transpose_lem, ==_refl}

module _ {ℓ} {A : Type ℓ} (e : Element A) where
  -- f 0 + … + f (n - 1), summed from the left and from T(0)
  abbrev pub sum : (ℕ → A) → ℕ → A
  sum f zero = Element.of_int e (pos 0)
  sum f (suc n) = Element.add e (sum f n) (f n)

  -- The entry of a product with `n` terms
  abbrev pub product : ℕ → (ℕ → ℕ → A) → (ℕ → ℕ → A) → ℕ → ℕ → A
  product n f g i j = sum (λ t. Element.mul e (f i t) (g t j)) n

  dot_lem :
      (m1 m2 : Matrix A) (rows inner cols : ℕ) (f g : ℕ → ℕ → A) (i j : ℕ)
      → Represents m1 rows inner f
      → Represents m2 inner cols g
      → i < rows
      → j < cols
      → dot ⦃e = e⦄ m1 m2 i j ≡ done (product inner f g i j)
  unfolding dot
  dot_lem m1 m2 rows inner cols f g i j h k p q =
      let (x, ran, is) =
        loop-from_zero (λ t x. x ≡ product t f g i j) inner _ (Element.of_int e (pos 0))
          (λ t x r eq. (product (suc t) f g i j, simp (h.3 i t p r, k.3 t j r q, eq), refl)) refl in
      simp h.1 (ran ∙ ap done is)

  -- operator* of an r by n and an n by c matrix, whose r by c result fits in size_t, returns the
  -- matrix of the sums over t of f(i, t) * g(t, j).
  pub multiply_lem :
      (m1 m2 : Matrix A) (rows inner cols : ℕ) (f g : ℕ → ℕ → A)
      → Represents m1 rows inner f
      → Represents m2 inner cols g
      → rows * cols < size_mod
      → (m : Matrix A) × (multiply ⦃e = e⦄ m1 m2 ≡ done m)
        × Represents m rows cols (product inner f g)
  unfolding multiply
  multiply_lem m1 m2 rows inner cols f g h k size =
      simp (h.0, h.1, k.0, k.1, ==_refl inner)
        (filled_lem e rows cols (product inner f g) _
          (λ i j p q. dot_lem m1 m2 rows inner cols f g i j h k p q) size)

  pub sum-same : (f g : ℕ → A) (n : ℕ) → ((t : ℕ) → f t ≡ g t) → sum f n ≡ sum g n
  sum-same f g zero h = refl
  sum-same f g (suc n) h = ap₂ (Element.add e) (sum-same f g n h) (h n)

  -- With a commutative multiplication of elements, the transpose of a product is the product of the
  -- transposes in the other order: both are computed and have the same entries.
  pub transpose-multiply :
      ((a b : A) → Element.mul e a b ≡ Element.mul e b a)
      → (m1 m2 : Matrix A) (rows inner cols : ℕ) (f g : ℕ → ℕ → A) → Represents m1 rows inner f
      → Represents m2 inner cols g
      → rows * cols < size_mod
      → (x y : Matrix A) × ((multiply ⦃e = e⦄ m1 m2 >>= λ p. transpose ⦃e = e⦄ p) ≡ done x)
        × ((transpose ⦃e = e⦄ m2 >>= λ a. transpose ⦃e = e⦄ m1 >>= λ b. multiply ⦃e = e⦄ a b)
            ≡ done y)
        × Represents x cols rows (λ i j. product inner f g j i)
        × Represents y cols rows (λ i j. product inner f g j i)
  transpose-multiply comm m1 m2 rows inner cols f g h k size =
      let (p, p_eq, p_is) = multiply_lem m1 m2 rows inner cols f g h k size in
      let (x, x_eq, x_is) = transpose_lem e p rows cols (product inner f g) p_is in
      let (a, a_eq, a_is) = transpose_lem e m2 inner cols g k in
      let (b, b_eq, b_is) = transpose_lem e m1 rows inner f h in
      let (y, y_eq, y_is) =
        multiply_lem a b cols inner rows (λ i j. g j i) (λ i j. f j i) a_is b_is
          (omega (arith, size, mul_comm rows cols)) in
      (
        x,
        y,
        ap (λ o. o >>= λ p. transpose ⦃e = e⦄ p) p_eq ∙ x_eq,
        ap (λ o. o >>= λ a. transpose ⦃e = e⦄ m1 >>= λ b. multiply ⦃e = e⦄ a b) a_eq
            ∙ ap (λ o. o >>= λ b. multiply ⦃e = e⦄ a b) b_eq
            ∙ y_eq,
        x_is,
        Represents-same y cols rows (product inner (λ i j. g j i) (λ i j. f j i))
            (λ i j. product inner f g j i)
            (λ i j _ _. sum-same _ _ inner (λ t. comm (g t i) (f j t))) y_is,
      )
