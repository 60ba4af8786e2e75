-- ===== src/Matrix/Identity.antt =====
-- When reduced_row_echelon of include/mars/matrix.h reaches the reduced form, and when it does
-- nothing.
use taurus.Shared.{
  ℕ, zero, suc, ◌+◌, ◌-◌, ◌≤◌, ◌<◌, ◌≡◌, ◌≢◌, refl, sym, ap, subst, ◌∙◌, true, false, ◌==◌, ltb,
  if◌then◌else◌, Bool-cases, inl, inr, done, arith,
}
use taurus.Shared.Int.{pos, negsuc}
use taurus.Matrix.{Element, Matrix}
use taurus.Matrix.Views.{Represents, Represents-same}
use taurus.Matrix.Rows.{reduced_row_echelon}
use taurus.Matrix.RowViews.{switched}
use taurus.Matrix.Echelon.{pivoted, searched, candidate, reduced, reduced_row_echelon_lem}

-- The laws of a field that the elimination rests on
pub record IsField {ℓ} {A : Type ℓ} (e : Element A) : Type ℓ where
  pub div_self :
      (a : A) → Element.is_zero e a ≡ false → Element.div e a a ≡ Element.of_int e (pos 1)
  pub div_zero :
      (a : A)
      → Element.is_zero e a ≡ false
      → Element.div e (Element.of_int e (pos 0)) a ≡ Element.of_int e (pos 0)
  pub mul_zero : (a : A) → Element.mul e (Element.of_int e (pos 0)) a ≡ Element.of_int e (pos 0)
  pub add_zero : (a : A) → Element.add e (Element.of_int e (pos 0)) a ≡ a
  pub cancels :
      (a : A)
      → Element.add e
          (Element.mul e (Element.of_int e (pos 1)) (Element.mul e a (Element.of_int e (negsuc 0))))
          a
        ≡ Element.of_int e (pos 0)

module _ {ℓ} {A : Type ℓ} (e : Element A) where
  -- The identity matrix
  abbrev pub unit : ℕ → ℕ → A
  unit k c = if k == c then Element.of_int e (pos 1) else Element.of_int e (pos 0)

  -- Before every use of a row, the entry on its diagonal is not zero.
  abbrev pub HasPivots : ℕ → (ℕ → ℕ → A) → Type 0
  HasPivots rows f =
      (r : ℕ) → r < rows → Element.is_zero e (candidate e rows r (reduced e rows f r) r r) ≡ false

  -- The columns before `n` are those of the identity.
  abbrev pub IsUnitUpTo : ℕ → ℕ → (ℕ → ℕ → A) → Type ℓ
  IsUnitUpTo rows n g = (k c : ℕ) → k < rows → c < n → g k c ≡ unit k c

  off_diagonal : (k c : ℕ) → k ≢ c → unit k c ≡ Element.of_int e (pos 0)
  off_diagonal k c apart = let no_ : (k == c) ≡ false = ground arith in rw no_

  switched_unit :
      (rows r r1 : ℕ) (g : ℕ → ℕ → A)
      → r < r1
      → r1 < rows
      → IsUnitUpTo rows r g
      → IsUnitUpTo rows r (switched r r1 g)
  switched_unit rows r r1 g p q h k c k_in c_in = elim (Bool-cases (k == r1)) [
    | inl at_r1 ↦ rw at_r1 (
        h r c (omega arith) c_in
        ∙ off_diagonal r c (omega arith)
        ∙ sym (off_diagonal k c (ground arith)))
    | inr not_r1 ↦ elim (Bool-cases (k == r)) [
      | inl at_r ↦
          rw (not_r1, at_r)
            (h r1 c q c_in
              ∙ off_diagonal r1 c (omega arith)
              ∙ sym (off_diagonal k c (ground arith)))
      | inr not_r ↦ rw (not_r1, not_r) (h k c k_in c_in)
    ]
  ]

  searched_unit :
      (rows n r1 r : ℕ) (g : ℕ → ℕ → A)
      → r < r1
      → r1 + n ≤ rows
      → IsUnitUpTo rows r g
      → IsUnitUpTo rows r (searched e n r1 r g)
  unfolding searched
  searched_unit rows zero r1 r g p q h = h
  searched_unit rows (suc n) r1 r g p q h = elim (Bool-cases (Element.is_zero e (g r1 r1))) [
    | inl zero_ ↦ λ k c k_in c_in.
        rw zero_ (searched_unit rows n (suc r1) r g (omega arith) (omega arith) h k c k_in c_in)
    | inr not_zero ↦
        λ k c k_in c_in. rw not_zero (switched_unit rows r r1 g p (omega arith) h k c k_in c_in)
  ]

  candidate_unit :
      (rows r : ℕ) (g : ℕ → ℕ → A)
      → r < rows
      → IsUnitUpTo rows r g
      → IsUnitUpTo rows r (candidate e rows r g)
  candidate_unit rows r g p h k c k_in c_in = elim (Bool-cases (Element.is_zero e (g r r))) [
    | inl zero_ ↦ rw zero_ (
        searched_unit rows (rows - (r + 1)) (r + 1) r g (omega arith) (omega arith) h k c k_in c_in)
    | inr not_zero ↦ rw not_zero (h k c k_in c_in)
  ]

  module _ (laws : IsField e) (rows r : ℕ) (h : ℕ → ℕ → A) (p : r < rows)
      (pivot : Element.is_zero e (h r r) ≡ false) where
    pivoted_own : (k : ℕ) → pivoted e r h k r ≡ unit k r
    pivoted_own k = elim (Bool-cases (k == r)) [
      | inl own ↦ rw own (laws.div_self (h r r) pivot)
      | inr other ↦ rw (other, laws.div_self (h r r) pivot) (laws.cancels (h k r))
    ]

    pivoted_before :
        (k c : ℕ) → k < rows → c < r → IsUnitUpTo rows r h → pivoted e r h k c ≡ unit k c
    pivoted_before k c k_in c_in is =
        let row_zero : h r c ≡ Element.of_int e (pos 0) =
          is r c p c_in ∙ off_diagonal r c (omega arith) in
        let quotient : Element.div e (h r c) (h r r) ≡ Element.of_int e (pos 0) =
          ap (λ x. Element.div e x (h r r)) row_zero ∙ laws.div_zero (h r r) pivot in
        elim (Bool-cases (k == r)) [
          | inl own ↦ rw (own, quotient) (sym (off_diagonal k c (ground arith)))
          | inr other ↦
              rw (other, quotient)
                (ap (λ x. Element.add e x (h k c))
                    (laws.mul_zero (Element.mul e (h k r) (Element.of_int e (negsuc 0))))
                  ∙ laws.add_zero (h k c)
                  ∙ is k c k_in c_in)
        ]

    pivoted_unit : IsUnitUpTo rows r h → IsUnitUpTo rows (suc r) (pivoted e r h)
    pivoted_unit is k c k_in c_in = elim (Bool-cases (c == r)) [
      | inl own ↦ subst (λ x. pivoted e r h k x ≡ unit k x) {x = r} (ground arith) (pivoted_own k)
      | inr other ↦ pivoted_before k c k_in (ground arith) is
    ]

  pub reduced_unit :
      (laws : IsField e) (rows n : ℕ) (f : ℕ → ℕ → A)
      → n ≤ rows
      → HasPivots rows f
      → IsUnitUpTo rows n (reduced e rows f n)
  reduced_unit laws rows zero f p pivots k c k_in c_in = absurd (omega arith)
  reduced_unit laws rows (suc n) f p pivots k c k_in c_in = rw (pivots n (omega arith)) (
      pivoted_unit laws rows n (candidate e rows n (reduced e rows f n)) (omega arith)
        (pivots n (omega arith))
        (candidate_unit rows n (reduced e rows f n) (omega arith)
          (reduced_unit laws rows n f (omega arith) pivots))
        k c k_in c_in)

  -- reduced_row_echelon of a matrix over a field with no more rows than columns, which finds a
  -- diagonal entry that is not zero for every row, returns a matrix whose first columns are those of
  -- the identity.
  pub reduced_row_echelon-IsUnit :
      (laws : IsField e) (m : Matrix A) (rows cols : ℕ) (f : ℕ → ℕ → A)
      → Represents m rows cols f
      → rows ≤ cols
      → HasPivots rows f
      → (y : Matrix A) × (reduced_row_echelon ⦃e = e⦄ m ≡ done y)
        × Represents y rows cols (λ k c. if ltb c rows then unit k c else reduced e rows f rows k c)
  reduced_row_echelon-IsUnit laws m rows cols f h wide pivots =
      let (y, y_eq, y_is) = reduced_row_echelon_lem e m rows cols f h wide in
      (
        y,
        y_eq,
        Represents-same y rows cols (reduced e rows f rows)
            (λ k c. if ltb c rows then unit k c else reduced e rows f rows k c)
            (λ k c k_in _. on_left k c k_in) y_is,
      )
    where
      on_left :
          (k c : ℕ)
          → k < rows
          → reduced e rows f rows k c ≡ (if ltb c rows then unit k c else reduced e rows f rows k c)
      on_left k c k_in = elim (Bool-cases (ltb c rows)) [
        | inl left ↦
            rw left (reduced_unit laws rows rows f (omega arith) pivots k c k_in (ground arith))
        | inr right ↦ rw right
      ]

  searched_none :
      (n r1 r : ℕ) (f : ℕ → ℕ → A)
      → ((i : ℕ) → i < r1 + n → Element.is_zero e (f i i) ≡ true)
      → searched e n r1 r f ≡ f
  unfolding searched
  searched_none zero r1 r f h = refl
  searched_none (suc n) r1 r f h =
      rw (h r1 (omega arith)) (searched_none n (suc r1) r f (λ i p. h i (omega arith)))

  reduced_none :
      (rows n : ℕ) (f : ℕ → ℕ → A)
      → n ≤ rows
      → ((i : ℕ) → i < rows → Element.is_zero e (f i i) ≡ true)
      → reduced e rows f n ≡ f
  reduced_none rows zero f p h = refl
  reduced_none rows (suc n) f p h = rw (
    reduced_none rows n f (omega arith) h,
    h n (omega arith),
    searched_none (rows - (n + 1)) (n + 1) n f (λ i q. h i (omega arith)),
    h n (omega arith),
  )

  -- The search looks at the diagonal entries of the rows below, not at their entries in the column:
  -- a matrix whose diagonal is all zero comes back from reduced_row_echelon as it was, whatever else
  -- it holds.
  pub reduced_row_echelon_stuck :
      (m : Matrix A) (rows cols : ℕ) (f : ℕ → ℕ → A)
      → Represents m rows cols f
      → rows ≤ cols
      → ((i : ℕ) → i < rows → Element.is_zero e (f i i) ≡ true)
      → (y : Matrix A) × (reduced_row_echelon ⦃e = e⦄ m ≡ done y) × Represents y rows cols f
  reduced_row_echelon_stuck m rows cols f h wide zeros =
      let (y, y_eq, y_is) = reduced_row_echelon_lem e m rows cols f h wide in
      (
        y,
        y_eq,
        subst (λ g. Represents y rows cols g) (reduced_none rows rows f (omega arith) zeros) y_is,
      )
