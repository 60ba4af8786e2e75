-- ===== src/Matrix/Idempotence.antt =====
-- reduced_row_echelon of include/mars/matrix.h on a matrix that is reduced already.
use taurus.Shared.{
  ℕ, zero, suc, ◌≤◌, ◌<◌, ◌≡◌, refl, sym, ap, ◌∙◌, false, ◌==◌, Bool-cases, inl, inr, done, arith,
}
use taurus.Shared.Int.{pos, negsuc}
use taurus.Matrix.{Element, Matrix, get}
use taurus.Matrix.Views.{Represents}
use taurus.Matrix.Rows.{reduced_row_echelon}
use taurus.Matrix.Entries.{==_refl}
use taurus.Matrix.Echelon.{pivoted, reduced, reduced_row_echelon_lem}
use taurus.Matrix.Identity.{unit, HasPivots, IsUnitUpTo, reduced_unit}
use taurus.Matrix.Fields.{IsExact, exact-IsField, mul_zero, zero_mul}

module _ {ℓ} {A : Type ℓ} (e : Element A) (laws : IsExact e)
    (distinct : Element.is_zero e (Element.of_int e (pos 1)) ≡ false) where
  open e use {add, mul, div, of_int, is_zero}
  open laws use {zero_add, one_mul, mul_div}

  div_one : (a : A) → div a (of_int (pos 1)) ≡ a
  div_one a = sym (one_mul (div a (of_int (pos 1)))) ∙ mul_div a (of_int (pos 1)) distinct

  cleared_nothing : (x a : A) → add (mul x (mul (of_int (pos 0)) (of_int (negsuc 0)))) a ≡ a
  cleared_nothing x a =
      ap (λ y. add (mul x y) a) (zero_mul e laws (of_int (negsuc 0)))
      ∙ ap (λ y. add y a) (mul_zero e laws x)
      ∙ zero_add a

  unit_one : (k : ℕ) → unit e k k ≡ of_int (pos 1)
  unit_one k = rw (==_refl k) refl

  -- A step on the row n changes nothing, if the column n is that of the identity.
  pivoted_kept :
      (n k c : ℕ) (h : ℕ → ℕ → A)
      → h n n ≡ of_int (pos 1)
      → h k n ≡ unit e k n
      → pivoted e n h k c ≡ h k c
  pivoted_kept n k c h diagonal column = elim (Bool-cases (k == n)) [
    | inl own ↦ rw (own, diagonal) (div_one (h n c) ∙ ap (λ x. h x c) (ground arith))
    | inr other ↦ rw (other, column, other) (cleared_nothing (div (h n c) (h n n)) (h k c))
  ]

  reduced_kept :
      (rows n : ℕ) (g : ℕ → ℕ → A)
      → n ≤ rows
      → IsUnitUpTo e rows rows g
      → (k c : ℕ) → k < rows
      → reduced e rows g n k c ≡ g k c
  reduced_kept rows zero g p is k c k_in = refl
  reduced_kept rows (suc n) g p is k c k_in =
      let h = reduced e rows g n in
      let same : (j l : ℕ) → j < rows → h j l ≡ g j l = reduced_kept rows n g (omega arith) is in
      let diagonal : h n n ≡ of_int (pos 1) =
        same n n (omega arith) ∙ is n n (omega arith) (omega arith) ∙ unit_one n in
      let column : h k n ≡ unit e k n = same k n k_in ∙ is k n k_in (omega arith) in
      let pivot : is_zero (h n n) ≡ false = ap is_zero diagonal ∙ distinct in
      rw (pivot, pivot) (pivoted_kept n k c h diagonal column ∙ same k c k_in)

  -- Over a field in which 1 is not 0: if reduced_row_echelon finds a diagonal entry that is not
  -- zero for every row, then running it again on what it returned returns the same cells.
  pub reduced_row_echelon_idempotent :
      (m : Matrix A) (rows cols : ℕ) (f : ℕ → ℕ → A)
      → Represents m rows cols f
      → rows ≤ cols
      → HasPivots e rows f
      → (y : Matrix A) × (z : Matrix A) × (reduced_row_echelon ⦃e = e⦄ m ≡ done y)
        × (reduced_row_echelon ⦃e = e⦄ y ≡ done z)
        × ((k c : ℕ) → k < rows → c < cols → get z k c ≡ get y k c)
  reduced_row_echelon_idempotent m rows cols f h wide pivots =
      let g = reduced e rows f rows in
      let (y, y_eq, y_is) = reduced_row_echelon_lem e m rows cols f h wide in
      let (z, z_eq, z_is) = reduced_row_echelon_lem e y rows cols g y_is wide in
      let is : IsUnitUpTo e rows rows g =
        reduced_unit e (exact-IsField e laws) rows rows f (omega arith) pivots in
      (
        y,
        z,
        y_eq,
        z_eq,
        λ k c k_in c_in.
            z_is.3 k c k_in c_in
            ∙ ap done (reduced_kept rows rows g (omega arith) is k c k_in)
            ∙ sym (y_is.3 k c k_in c_in),
      )
