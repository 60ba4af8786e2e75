-- ===== src/Matrix/RowViews.antt =====
-- What the row operations of `struct Matop` do to the entries (include/mars/matrix.h).
use taurus.Shared.{
  ℕ, suc, ◌<◌, ◌≡◌, ◌≢◌, refl, sym, ap, ap₂, ◌∙◌, Bool, true, false, ◌&&◌, ◌==◌, ltb, if◌then◌else◌,
  Bool-cases, inl, inr, Outcome, done, ◌>>=◌, loop, loop-from_zero, arith,
}
use taurus.Matrix.{Element, Matrix, get, set}
use taurus.Matrix.Views.{Represents, Represents-same, update, set-Represents}
use taurus.Matrix.Rows.{row_switch, row_multiply, row_divide, row_multiply_add}
use taurus.Matrix.Entries.{==_refl}

module _ {ℓ} {A : Type ℓ} where
  -- The columns before `c` are those of `g`, the others those of `f`.
  abbrev columns : (ℕ → ℕ → A) → (ℕ → ℕ → A) → ℕ → ℕ → ℕ → A
  columns f g c k l = if ltb l c then g k l else f k l

  columns-loop :
      (rows cols : ℕ) (f g : ℕ → ℕ → A) (body : ℕ → Matrix A → Outcome (Matrix A)) (m : Matrix A)
      → ((c : ℕ) (x : Matrix A)
          → c < cols
          → Represents x rows cols (columns f g c)
          → (y : Matrix A) × (body c x ≡ done y) × Represents y rows cols (columns f g (suc c)))
      → Represents m rows cols f
      → (y : Matrix A) × (loop cols 0 body m ≡ done y) × Represents y rows cols g
  columns-loop rows cols f g body m step h =
      let (y, e, r) =
        loop-from_zero (λ c x. Represents x rows cols (columns f g c)) cols body m step
          (Represents-same m rows cols f (columns f g 0) (λ k l _ _. ground arith) h) in
      (y, e, Represents-same y rows cols (columns f g cols) g (λ k l _ q. ground arith) r)

  column_start : (f g : ℕ → ℕ → A) (c k : ℕ) → columns f g c k c ≡ f k c
  column_start f g c k = ground arith

  column_same : (f g : ℕ → ℕ → A) (c k l : ℕ) → g k l ≡ f k l → columns f g c k l ≡ f k l
  column_same f g c k l eq = elim (Bool-cases (ltb l c)) [
    | inl before ↦ rw before eq
    | inr after ↦ rw after
  ]

  column_now :
      (rows cols : ℕ) (f g : ℕ → ℕ → A) (c k : ℕ) (x : Matrix A)
      → k < rows
      → c < cols
      → Represents x rows cols (columns f g c)
      → get x k c ≡ done (f k c)
  column_now rows cols f g c k x p q h = h.3 k c p q ∙ ap done (column_start f g c k)

  -- A step that writes the entry of one row
  write_one :
      (rows cols : ℕ) (f g : ℕ → ℕ → A) (r c : ℕ) (x : Matrix A)
      → ((k l : ℕ) → k ≢ r → g k l ≡ f k l)
      → r < rows
      → c < cols
      → Represents x rows cols (columns f g c)
      → (y : Matrix A) × (set x r c (g r c) ≡ done y) × Represents y rows cols (columns f g (suc c))
  write_one rows cols f g r c x others p q h =
      let (y, e, is) = set-Represents x rows cols (columns f g c) r c (g r c) h p q in
      (
        y,
        e,
        Represents-same y rows cols (update (columns f g c) r c (g r c)) (columns f g (suc c))
            (λ k l _ _. now k l) is,
      )
    where
      later : (k l : ℕ) → (k == r && l == c) ≡ false → columns f g c k l ≡ columns f g (suc c) k l
      later k l there = elim (Bool-cases (k == r)) [
        | inl same ↦ let still : ltb l c ≡ ltb l (suc c) = ground arith in rw still
        | inr apart ↦
            let eq = others k l (ground arith) in
            column_same f g c k l eq ∙ sym (column_same f g (suc c) k l eq)
      ]

      now : (k l : ℕ) → update (columns f g c) r c (g r c) k l ≡ columns f g (suc c) k l
      now k l = elim (Bool-cases (k == r && l == c)) [
        | inl here ↦
            let passed : ltb l (suc c) ≡ true = ground arith in
            rw (here, passed) (ap₂ g (ground arith) (ground arith))
        | inr there ↦ rw there (later k l there)
      ]

  -- The row r replaced
  abbrev pub replaced : ℕ → (ℕ → A) → (ℕ → ℕ → A) → ℕ → ℕ → A
  replaced r row f k l = if k == r then row l else f k l

  write_row :
      (rows cols : ℕ) (f : ℕ → ℕ → A) (row : ℕ → A) (r c : ℕ) (x : Matrix A)
      → r < rows
      → c < cols
      → Represents x rows cols (columns f (replaced r row f) c)
      → (y : Matrix A) × (set x r c (row c) ≡ done y)
        × Represents y rows cols (columns f (replaced r row f) (suc c))
  write_row rows cols f row r c x p q h =
      let (y, e, is) =
        write_one rows cols f (replaced r row f) r c x (λ k l apart. ground arith) p q h in
      (y, ap (λ b. set x r c (if b then row c else f r c)) (sym (==_refl r)) ∙ e, is)

  -- The rows r1 and r2 exchanged
  abbrev pub switched : ℕ → ℕ → (ℕ → ℕ → A) → ℕ → ℕ → A
  switched r1 r2 f k l = if k == r2 then f r1 l else (if k == r1 then f r2 l else f k l)

  -- Two writes in column c, seen from one place: `b1` and `b2` tell whether it is in the rows written
  -- to, `at` whether it is in the column.
  chosen :
      (b1 b2 at before after : Bool) (v1 v2 u1 u2 w : A)
      → (at ≡ true → v1 ≡ u1)
      → (at ≡ true → v2 ≡ u2)
      → (at ≡ true → after ≡ true)
      → (at ≡ false → before ≡ after)
      → (if b2 && at
          then v1
          else (if b1 && at
              then v2
              else (if before then (if b2 then u1 else (if b1 then u2 else w)) else w)))
        ≡ (if after then (if b2 then u1 else (if b1 then u2 else w)) else w)
  chosen true true true x y v1 v2 u1 u2 w p q h k = rw (h refl) (p refl)
  chosen true false true x y v1 v2 u1 u2 w p q h k = rw (h refl) (q refl)
  chosen false true true x y v1 v2 u1 u2 w p q h k = rw (h refl) (p refl)
  chosen false false true true y v1 v2 u1 u2 w p q h k = rw (h refl)
  chosen false false true false y v1 v2 u1 u2 w p q h k = rw (h refl)
  chosen true true false x y v1 v2 u1 u2 w p q h k = rw (k refl)
  chosen true false false x y v1 v2 u1 u2 w p q h k = rw (k refl)
  chosen false true false x y v1 v2 u1 u2 w p q h k = rw (k refl)
  chosen false false false x y v1 v2 u1 u2 w p q h k = rw (k refl)

  switch_cell :
      (rows cols : ℕ) (f : ℕ → ℕ → A) (r1 r2 c : ℕ) (x : Matrix A)
      → r1 < rows
      → r2 < rows
      → c < cols
      → Represents x rows cols (columns f (switched r1 r2 f) c)
      → (y : Matrix A) × ((do m ← set x r1 c (f r2 c); set m r2 c (f r1 c)) ≡ done y)
        × Represents y rows cols (columns f (switched r1 r2 f) (suc c))
  switch_cell rows cols f r1 r2 c x p p2 q is =
      let (y, e, is_y) =
        set-Represents x rows cols (columns f (switched r1 r2 f) c) r1 c (f r2 c) is p q in
      let (z, e2, is_z) =
        set-Represents y rows cols (update (columns f (switched r1 r2 f) c) r1 c (f r2 c)) r2 c
          (f r1 c) is_y p2 q in
      (
        z,
        ap (λ o. o >>= λ m. set m r2 c (f r1 c)) e ∙ e2,
        Represents-same z rows cols
            (update (update (columns f (switched r1 r2 f) c) r1 c (f r2 c)) r2 c (f r1 c))
            (columns f (switched r1 r2 f) (suc c)) (λ k l _ _. now k l) is_z,
      )
    where
      now :
          (k l : ℕ)
          → update (update (columns f (switched r1 r2 f) c) r1 c (f r2 c)) r2 c (f r1 c) k l
            ≡ columns f (switched r1 r2 f) (suc c) k l
      now k l =
          chosen (k == r1) (k == r2) (l == c) (ltb l c) (ltb l (suc c)) (f r1 c) (f r2 c) (f r1 l)
            (f r2 l) (f k l) (λ h. ap (f r1) (ground arith)) (λ h. ap (f r2) (ground arith))
            (λ h. ground arith) (λ h. ground arith)

  -- row_switch(m, r1, r2) of a matrix that has these rows returns it with the rows exchanged, also
  -- when they are one row.
  pub row_switch_lem :
      (m : Matrix A) (rows cols : ℕ) (f : ℕ → ℕ → A) (r1 r2 : ℕ)
      → Represents m rows cols f
      → r1 < rows
      → r2 < rows
      → (y : Matrix A) × (row_switch m r1 r2 ≡ done y) × Represents y rows cols (switched r1 r2 f)
  unfolding row_switch
  row_switch_lem m rows cols f r1 r2 h p p2 = simp h.1 (
      columns-loop rows cols f (switched r1 r2 f) _ m
        (λ c x q is.
          simp
            (
              column_now rows cols f (switched r1 r2 f) c r1 x p q is,
              column_now rows cols f (switched r1 r2 f) c r2 x p2 q is,
            )
            (switch_cell rows cols f r1 r2 c x p p2 q is))
        h)

module _ {ℓ} {A : Type ℓ} (e : Element A) where
  -- Row r1 with every entry replaced by its quotient, its product, or its sum with the multiple of
  -- row r2
  abbrev pub divided : ℕ → A → (ℕ → ℕ → A) → ℕ → ℕ → A
  divided r value f = replaced r (λ l. Element.div e (f r l) value) f

  abbrev pub multiplied : ℕ → A → (ℕ → ℕ → A) → ℕ → ℕ → A
  multiplied r value f = replaced r (λ l. Element.mul e (f r l) value) f

  abbrev pub summed : ℕ → ℕ → A → (ℕ → ℕ → A) → ℕ → ℕ → A
  summed r1 r2 value f = replaced r1 (λ l. Element.add e (Element.mul e (f r2 l) value) (f r1 l)) f

  pub row_divide_lem :
      (m : Matrix A) (rows cols : ℕ) (f : ℕ → ℕ → A) (r : ℕ) (value : A)
      → Represents m rows cols f
      → r < rows
      → (y : Matrix A) × (row_divide ⦃e = e⦄ m r value ≡ done y)
        × Represents y rows cols (divided r value f)
  unfolding row_divide
  row_divide_lem m rows cols f r value h p = simp h.1 (
      columns-loop rows cols f (divided r value f) _ m
        (λ c x q is.
          simp (column_now rows cols f (divided r value f) c r x p q is)
            (write_row rows cols f (λ l. Element.div e (f r l) value) r c x p q is))
        h)

  pub row_multiply_lem :
      (m : Matrix A) (rows cols : ℕ) (f : ℕ → ℕ → A) (r : ℕ) (value : A)
      → Represents m rows cols f
      → r < rows
      → (y : Matrix A) × (row_multiply ⦃e = e⦄ m r value ≡ done y)
        × Represents y rows cols (multiplied r value f)
  unfolding row_multiply
  row_multiply_lem m rows cols f r value h p = simp h.1 (
      columns-loop rows cols f (multiplied r value f) _ m
        (λ c x q is.
          simp (column_now rows cols f (multiplied r value f) c r x p q is)
            (write_row rows cols f (λ l. Element.mul e (f r l) value) r c x p q is))
        h)

  pub row_multiply_add_lem :
      (m : Matrix A) (rows cols : ℕ) (f : ℕ → ℕ → A) (r1 r2 : ℕ) (value : A)
      → Represents m rows cols f
      → r1 < rows
      → r2 < rows
      → (y : Matrix A) × (row_multiply_add ⦃e = e⦄ m r1 r2 value ≡ done y)
        × Represents y rows cols (summed r1 r2 value f)
  unfolding row_multiply_add
  row_multiply_add_lem m rows cols f r1 r2 value h p p2 = simp h.1 (
      columns-loop rows cols f (summed r1 r2 value f) _ m
        (λ c x q is.
          simp
            (
              column_now rows cols f (summed r1 r2 value f) c r1 x p q is,
              column_now rows cols f (summed r1 r2 value f) c r2 x p2 q is,
            )
            (write_row rows cols f (λ l. Element.add e (Element.mul e (f r2 l) value) (f r1 l)) r1 c
              x p q is))
        h)
