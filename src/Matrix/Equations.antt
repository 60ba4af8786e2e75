-- ===== src/Matrix/Equations.antt =====
-- A system of linear equations, written as the code takes it: the coefficients and, in the last
-- column, the right sides (reduced_row_echelon of include/mars/matrix.h).
use taurus.Shared.{
  ℕ, zero, suc, ◌≤◌, ◌<◌, ◌≡◌, sym, ap, ap₂, ◌∙◌, true, false, ◌==◌, ltb, if◌then◌else◌, Bool-cases,
  inl, inr, done, arith,
}
use taurus.Shared.Int.{pos, negsuc}
use taurus.Matrix.{Element, Matrix, get}
use taurus.Matrix.Views.{Represents}
use taurus.Matrix.Rows.{reduced_row_echelon}
use taurus.Matrix.Products.{sum}
use taurus.Matrix.Echelon.{reduced, reduced_row_echelon_lem}
use taurus.Matrix.Identity.{unit, HasPivots, reduced_unit}
use taurus.Matrix.Fields.{IsExact, exact-IsField, negate_eq, sum_congr, add_zero, zero_mul}
use taurus.Matrix.Systems.{Kills, row_value}
use taurus.Matrix.Solutions.{SameKills-reduced}

module _ {ℓ} {A : Type ℓ} (e : Element A) where
  open e use {add, mul, of_int}

  -- x solves the equations f(i, 0) * x(0) + … + f(i, n - 1) * x(n - 1) = f(i, n), i < rows.
  abbrev pub Solves : ℕ → ℕ → (ℕ → ℕ → A) → (ℕ → A) → Type ℓ
  Solves rows n f x = (i : ℕ) → i < rows → sum e (λ t. mul (f i t) (x t)) n ≡ f i n

  module _ (laws : IsExact e) (rows n : ℕ) where
    open laws use {zero_add, negate, one_mul}

    -- The vector with -1 for the right side
    abbrev extended : (ℕ → A) → ℕ → A
    extended x t = if ltb t n then x t else of_int (negsuc 0)

    extended_value :
        (f : ℕ → ℕ → A) (x : ℕ → A) (i : ℕ)
        → row_value e (suc n) f (extended x) i
          ≡ add (sum e (λ t. mul (f i t) (x t)) n) (mul (f i n) (of_int (negsuc 0)))
    extended_value f x i =
        let last : ltb n n ≡ false = ground arith in
        ap₂ add
          (sum_congr e laws (λ t. mul (f i t) (extended x t)) (λ t. mul (f i t) (x t)) n
            (λ t p. let before : ltb t n ≡ true = ground arith in rw before))
          (rw last)

    Solves-Kills :
        (f : ℕ → ℕ → A) (x : ℕ → A) → Solves rows n f x → Kills e rows (suc n) f (extended x)
    Solves-Kills f x h i p =
        extended_value f x i
        ∙ ap (λ u. add u (mul (f i n) (of_int (negsuc 0)))) (h i p)
        ∙ negate (f i n)

    Kills-Solves :
        (f : ℕ → ℕ → A) (x : ℕ → A) → Kills e rows (suc n) f (extended x) → Solves rows n f x
    Kills-Solves f x h i p =
        negate_eq e laws (sum e (λ t. mul (f i t) (x t)) n) (f i n)
          (sym (extended_value f x i) ∙ h i p)

    Solves-reduced :
        (f : ℕ → ℕ → A) (x : ℕ → A)
        → (Solves rows n f x → Solves rows n (reduced e rows f rows) x)
          × (Solves rows n (reduced e rows f rows) x → Solves rows n f x)
    Solves-reduced f x =
        let (there, back) =
          SameKills-reduced e laws (extended x) rows (suc n) rows f (omega arith) in
        (
          λ h. Kills-Solves (reduced e rows f rows) x (there (Solves-Kills f x h)),
          λ h. Kills-Solves f x (back (Solves-Kills (reduced e rows f rows) x h)),
        )

    -- reduced_row_echelon keeps the solutions: over a field, the system that is returned is solved by
    -- the same vectors as the system given, whichever rows were exchanged or passed over.
    pub reduced_row_echelon-Solves :
        (m : Matrix A) (f : ℕ → ℕ → A)
        → Represents m rows (suc n) f
        → rows ≤ suc n
        → (y : Matrix A) × (g : ℕ → ℕ → A) × (reduced_row_echelon ⦃e = e⦄ m ≡ done y)
          × Represents y rows (suc n) g
          × ((x : ℕ → A)
              → (Solves rows n f x → Solves rows n g x) × (Solves rows n g x → Solves rows n f x))
    reduced_row_echelon-Solves m f h wide =
        let (y, y_eq, y_is) = reduced_row_echelon_lem e m rows (suc n) f h wide in
        (y, reduced e rows f rows, y_eq, y_is, λ x. Solves-reduced f x)

  module _ (laws : IsExact e) (n : ℕ) where
    open laws use {zero_add, one_mul}

    sum-unit :
        (i : ℕ) (x : ℕ → A) (k : ℕ)
        → sum e (λ t. mul (unit e i t) (x t)) k ≡ (if ltb i k then x i else of_int (pos 0))
    sum-unit i x zero = let none_ : ltb i 0 ≡ false = ground arith in rw none_
    sum-unit i x (suc k) = elim (Bool-cases (i == k)) [
      | inl here ↦
          let before : ltb i k ≡ false = ground arith in
          let now : ltb i (suc k) ≡ true = ground arith in
          rw (sum-unit i x k, before, here, now)
            (zero_add (mul (of_int (pos 1)) (x k)) ∙ one_mul (x k) ∙ ap x (ground arith))
      | inr elsewhere ↦
          let same : ltb i (suc k) ≡ ltb i k = ground arith in
          rw (sum-unit i x k, elsewhere, same)
            (ap (add (if ltb i k then x i else of_int (pos 0))) (zero_mul e laws (x k))
              ∙ add_zero e laws (if ltb i k then x i else of_int (pos 0)))
    ]

    -- A system of n equations in n unknowns over a field, for which reduced_row_echelon finds a
    -- diagonal entry that is not zero for every row: what it returns has the solution in its last
    -- column, and the system has no other.
    pub reduced_row_echelon_unique :
        (m : Matrix A) (f : ℕ → ℕ → A)
        → Represents m n (suc n) f
        → HasPivots e n f
        → (y : Matrix A) × (a : ℕ → A) × (reduced_row_echelon ⦃e = e⦄ m ≡ done y)
          × ((i : ℕ) → i < n → get y i n ≡ done (a i))
          × Solves n n f a
          × ((x : ℕ → A) → Solves n n f x → (i : ℕ) → i < n → x i ≡ a i)
    reduced_row_echelon_unique m f h pivots =
        let (y, y_eq, y_is) = reduced_row_echelon_lem e m n (suc n) f h (omega arith) in
        (
          y,
          λ i. g i n,
          y_eq,
          λ i p. y_is.3 i n p (omega arith),
          (Solves-reduced laws n n f (λ i. g i n)).1 (λ i p. left_value (λ i. g i n) i p),
          λ x s i p. sym (left_value x i p) ∙ (Solves-reduced laws n n f x).0 s i p,
        )
      where
        g : ℕ → ℕ → A
        g = reduced e n f n

        left_value : (x : ℕ → A) (i : ℕ) → i < n → sum e (λ t. mul (g i t) (x t)) n ≡ x i
        left_value x i p =
            let within : ltb i n ≡ true = ground arith in
            sum_congr e laws (λ t. mul (g i t) (x t)) (λ t. mul (unit e i t) (x t)) n
              (λ t q.
                ap (λ u. mul u (x t))
                  (reduced_unit e (exact-IsField e laws) n n f (omega arith) pivots i t p q))
            ∙ rw within at (sum-unit i x n)
