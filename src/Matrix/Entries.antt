-- ===== src/Matrix/Entries.antt =====
-- transpose and the arithmetic operators of include/mars/matrix.h compute the entries that the
-- operations of linear algebra have.
use native.Mathlib.Nat.{mul_comm}
use taurus.Shared.{
  ℕ, suc, ◌*◌, ◌<◌, ◌≡◌, sym, ap, ap₂, subst, ◌∙◌, true, ◌&&◌, ◌||◌, ◌==◌, ltb, if◌then◌else◌,
  Bool-cases, inl, inr, Outcome, done, abort, ◌>>=◌, ◌≢◌, ◌⊎◌, ◌↔◌, loop, loop-from_zero, arith,
}
use taurus.Matrix.{Element, Matrix, size_mod, get, set, of_size}
use taurus.Matrix.Cells.{IsValid}
use taurus.Matrix.Views.{
  Represents, Represents-same, Represents-size, update, set-Represents, entry, entry-Represents,
  of_size-Represents,
}
use taurus.Matrix.Arith.{fill, transpose, combine, add, subtract}

module _ {ℓ} {A : Type ℓ} (rows cols : ℕ) (g : ℕ → ℕ → A) where
  -- What the matrix stands for once the cells before (i, j) are filled
  abbrev filled : (ℕ → ℕ → A) → ℕ → ℕ → ℕ → ℕ → A
  filled f i j k l = if ltb k i || (k == i && ltb l j) then g k l else f k l

  filled-update :
      (f : ℕ → ℕ → A) (i j k l : ℕ) → update (filled f i j) i j (g i j) k l ≡ filled f i (suc j) k l
  filled-update f i j k l = elim (Bool-cases (k == i && l == j)) [
    | inl here ↦
        let now : (ltb k i || (k == i && ltb l (suc j))) ≡ true = ground arith in
        rw (here, now) (ap₂ g (ground arith) (ground arith))
    | inr there ↦
        let same : (ltb k i || (k == i && ltb l (suc j))) ≡ (ltb k i || (k == i && ltb l j)) =
          ground arith in
        rw (there, same)
  ]

  row_done : (f : ℕ → ℕ → A) (i k l : ℕ) → l < cols → filled f i cols k l ≡ filled f (suc i) 0 k l
  row_done f i k l q =
      let same : (ltb k i || (k == i && ltb l cols)) ≡ (ltb k (suc i) || (k == suc i && ltb l 0)) =
        ground arith in
      rw same

  module _ (value : ℕ → ℕ → Outcome A)
      (value_lem : (i j : ℕ) → i < rows → j < cols → value i j ≡ done (g i j)) where
    abbrev fill_cell : ℕ → ℕ → Matrix A → Outcome (Matrix A)
    fill_cell i j m = do a ← value i j; set m i j a

    fill_cell_lem :
        (f : ℕ → ℕ → A) (i j : ℕ) (m : Matrix A)
        → i < rows
        → j < cols
        → Represents m rows cols (filled f i j)
        → (m' : Matrix A) × (fill_cell i j m ≡ done m')
          × Represents m' rows cols (filled f i (suc j))
    fill_cell_lem f i j m p q h =
        let (m', e, r) = set-Represents m rows cols (filled f i j) i j (g i j) h p q in
        (
          m',
          ap (λ o. o >>= λ a. set m i j a) (value_lem i j p q) ∙ e,
          Represents-same m' rows cols (update (filled f i j) i j (g i j)) (filled f i (suc j))
              (λ k l _ _. filled-update f i j k l) r,
        )

    fill_row_lem :
        (f : ℕ → ℕ → A) (i : ℕ) (m : Matrix A)
        → i < rows
        → Represents m rows cols (filled f i 0)
        → (m' : Matrix A) × (loop cols 0 (fill_cell i) m ≡ done m')
          × Represents m' rows cols (filled f (suc i) 0)
    fill_row_lem f i m p h =
        let (m', e, r) =
          loop-from_zero (λ j x. Represents x rows cols (filled f i j)) cols (fill_cell i) m
            (λ j x q. fill_cell_lem f i j x p q) h in
        (
          m',
          e,
          Represents-same m' rows cols (filled f i cols) (filled f (suc i) 0)
              (λ k l _ q. row_done f i k l q) r,
        )

    -- Filling a matrix of the size gives it the entries.
    pub fill_lem :
        (f : ℕ → ℕ → A) (m : Matrix A)
        → Represents m rows cols f
        → (m' : Matrix A) × (fill rows cols value m ≡ done m') × Represents m' rows cols g
    unfolding fill
    fill_lem f m h =
        let (m', e, r) =
          loop-from_zero (λ i x. Represents x rows cols (filled f i 0)) rows
            (λ i. loop cols 0 (fill_cell i)) m (λ i x p. fill_row_lem f i x p)
            (Represents-same m rows cols f (filled f 0 0) (λ k l _ _. ground arith) h) in
        (m', e, Represents-same m' rows cols (filled f rows 0) g (λ k l p _. ground arith) r)

pub ==_refl : (a : ℕ) → (a == a) ≡ true
==_refl a = ground arith

module _ {ℓ} {A : Type ℓ} (e : Element A) where
  pub filled_lem :
      (rows cols : ℕ) (g : ℕ → ℕ → A) (value : ℕ → ℕ → Outcome A)
      → ((i j : ℕ) → i < rows → j < cols → value i j ≡ done (g i j))
      → rows * cols < size_mod
      → (m : Matrix A) × (fill rows cols value (of_size ⦃e = e⦄ rows cols) ≡ done m)
        × Represents m rows cols g
  filled_lem rows cols g value h size =
      fill_lem rows cols g value h (entry (Element.junk e) (of_size ⦃e = e⦄ rows cols))
        (of_size ⦃e = e⦄ rows cols) (of_size-Represents e rows cols size)

  -- transpose() of an r by c matrix is the c by r matrix with rows and columns exchanged.
  pub transpose_lem :
      (m : Matrix A) (rows cols : ℕ) (f : ℕ → ℕ → A)
      → Represents m rows cols f
      → (m' : Matrix A) × (transpose ⦃e = e⦄ m ≡ done m') × Represents m' cols rows (λ i j. f j i)
  unfolding transpose
  transpose_lem m rows cols f h =
      simp (h.1, h.0)
        (filled_lem cols rows (λ i j. f j i) (λ i j. get m j i) (λ i j p q. h.3 j i q p)
          (omega (arith, Represents-size m rows cols f h, mul_comm rows cols)))

  -- What operator+ and operator- on matrices of the same size compute
  combine_lem :
      (op : A → A → A) (m1 m2 : Matrix A) (rows cols : ℕ) (f g : ℕ → ℕ → A)
      → Represents m1 rows cols f
      → Represents m2 rows cols g
      → (m : Matrix A) × (combine ⦃e = e⦄ op m1 m2 ≡ done m)
        × Represents m rows cols (λ i j. op (f i j) (g i j))
  combine_lem op m1 m2 rows cols f g h k =
      simp (h.0, h.1, k.0, k.1, ==_refl rows, ==_refl cols)
        (filled_lem rows cols (λ i j. op (f i j) (g i j)) _
          (λ i j p q. simp (h.3 i j p q, k.3 i j p q)) (Represents-size m1 rows cols f h))

  -- operator+ of two matrices of one size that fits in size_t returns the matrix of the sums.
  pub add_lem :
      (m1 m2 : Matrix A) (rows cols : ℕ) (f g : ℕ → ℕ → A)
      → Represents m1 rows cols f
      → Represents m2 rows cols g
      → (m : Matrix A) × (add ⦃e = e⦄ m1 m2 ≡ done m)
        × Represents m rows cols (λ i j. Element.add e (f i j) (g i j))
  unfolding add
  add_lem m1 m2 rows cols f g h k = combine_lem (Element.add e) m1 m2 rows cols f g h k

  pub subtract_lem :
      (m1 m2 : Matrix A) (rows cols : ℕ) (f g : ℕ → ℕ → A)
      → Represents m1 rows cols f
      → Represents m2 rows cols g
      → (m : Matrix A) × (subtract ⦃e = e⦄ m1 m2 ≡ done m)
        × Represents m rows cols (λ i j. Element.sub e (f i j) (g i j))
  unfolding subtract
  subtract_lem m1 m2 rows cols f g h k = combine_lem (Element.sub e) m1 m2 rows cols f g h k

  -- operator+ and operator- stop at their assert exactly when the sizes differ, for valid matrices.
  pub add_aborts :
      (m1 m2 : Matrix A)
      → IsValid m1
      → IsValid m2
      → (add ⦃e = e⦄ m1 m2 ≡ abort) ↔ ((m1.rows ≢ m2.rows) ⊎ (m1.cols ≢ m2.cols))
  unfolding add
  add_aborts m1 m2 v1 v2 = elim (Bool-cases (m1.rows == m2.rows && m1.cols == m2.cols)) [
    | inl same ↦
        let r : m2.rows ≡ m1.rows = ground arith in
        let c : m2.cols ≡ m1.cols = ground arith in
        let h =
          subst (λ x. Represents m2 x m1.cols (entry (Element.junk e) m2)) r
            (subst (λ x. Represents m2 m2.rows x (entry (Element.junk e) m2)) c
              (entry-Represents (Element.junk e) m2 v2)) in
        let (m, sum, _) =
          add_lem m1 m2 m1.rows m1.cols (entry (Element.junk e) m1) (entry (Element.junk e) m2)
            (entry-Represents (Element.junk e) m1 v1) h in
        (λ stops. absurd (not_both m sum stops), λ differ. absurd (no_difference r c differ))
    | inr differ ↦ (λ _. ground arith, λ _. simp differ)
  ]
    where
      not_both :
          (m : Matrix A)
          → combine ⦃e = e⦄ (Element.add e) m1 m2 ≡ done m
          → combine ⦃e = e⦄ (Element.add e) m1 m2 ≡ abort
          → ⊥
      not_both m p q = cc

      no_difference :
          m2.rows ≡ m1.rows → m2.cols ≡ m1.cols → (m1.rows ≢ m2.rows) ⊎ (m1.cols ≢ m2.cols) → ⊥
      no_difference r c (inl f) = f (sym r)
      no_difference r c (inr f) = f (sym c)
