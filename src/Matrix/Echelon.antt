-- ===== src/Matrix/Echelon.antt =====
-- reduced_row_echelon of include/mars/matrix.h, described on the entries.
use taurus.Shared.{
  ℕ, zero, suc, ◌+◌, ◌-◌, ◌≤◌, ◌<◌, ◌≡◌, ◌≢◌, refl, sym, ap, ap₂, subst, ◌∙◌, true, false, ◌==◌,
  ltb, leb, if◌then◌else◌, Bool-cases, inl, inr, done, loop-from_zero, arith,
}
use taurus.Shared.Int.{negsuc}
use taurus.Matrix.{Element, Matrix}
use taurus.Matrix.Views.{Represents, Represents-same}
use taurus.Matrix.Rows.{find_row, clear_row, use_row, echelon_step, reduced_row_echelon}
use taurus.Matrix.Entries.{==_refl}
use taurus.Matrix.RowViews.{
  divided, summed, switched, row_switch_lem, row_divide_lem, row_multiply_add_lem,
}

module _ {ℓ} {A : Type ℓ} (e : Element A) where
  -- Row k after row r was used to clear its column: r itself is divided by its diagonal entry, and
  -- subtracted from another row as often as that row has in column r.
  abbrev pub pivoted : ℕ → (ℕ → ℕ → A) → ℕ → ℕ → A
  pivoted r f k l =
      if k == r
      then Element.div e (f r l) (f r r)
      else Element.add e
          (Element.mul e (Element.div e (f r l) (f r r))
            (Element.mul e (f k r) (Element.of_int e (negsuc 0))))
          (f k l)

  -- The rows before `n` are cleared.
  abbrev cleared : ℕ → (ℕ → ℕ → A) → ℕ → ℕ → ℕ → A
  cleared r f n k l = if ltb k n then pivoted r f k l else divided e r (f r r) f k l

  cleared_pivot :
      (r : ℕ) (f : ℕ → ℕ → A) (n l : ℕ) → cleared r f n r l ≡ Element.div e (f r l) (f r r)
  cleared_pivot r f n l = elim (Bool-cases (ltb r n)) [
    | inl before ↦ rw (before, ==_refl r)
    | inr after ↦ rw (after, ==_refl r)
  ]

  cleared_next : (r : ℕ) (f : ℕ → ℕ → A) (n l : ℕ) → n ≢ r → cleared r f n n l ≡ f n l
  cleared_next r f n l apart =
      let not_yet : ltb n n ≡ false = ground arith in
      let other : (n == r) ≡ false = ground arith in rw (not_yet, other)

  cleared_own :
      (r : ℕ) (f : ℕ → ℕ → A) (n k l : ℕ) → n ≡ r → cleared r f n k l ≡ cleared r f (suc n) k l
  cleared_own r f n k l same = elim (Bool-cases (k == r)) [
    | inl own ↦
        subst (λ x. cleared r f n x l ≡ cleared r f (suc n) x l) {x = r} (ground arith)
          (cleared_pivot r f n l ∙ sym (cleared_pivot r f (suc n) l))
    | inr other ↦ let still : ltb k n ≡ ltb k (suc n) = ground arith in rw still
  ]

  cleared_other :
      (r : ℕ) (f : ℕ → ℕ → A) (n k l : ℕ)
      → n ≢ r
      → summed e n r (Element.mul e (f n r) (Element.of_int e (negsuc 0))) (cleared r f n) k l
        ≡ cleared r f (suc n) k l
  cleared_other r f n k l apart = elim (Bool-cases (k == n)) [
    | inl here ↦
        let now : ltb k (suc n) ≡ true = ground arith in
        let other : (k == r) ≡ false = ground arith in
        let k_is : n ≡ k = ground arith in
        rw (here, now, other)
          (ap₂
              (λ a b.
                Element.add e
                  (Element.mul e a (Element.mul e (f n r) (Element.of_int e (negsuc 0)))) b)
              (cleared_pivot r f n l) (cleared_next r f n l apart)
            ∙ ap
                (λ x.
                  Element.add e
                    (Element.mul e (Element.div e (f r l) (f r r))
                      (Element.mul e (f x r) (Element.of_int e (negsuc 0))))
                    (f x l))
                k_is)
    | inr elsewhere ↦ let still : ltb k n ≡ ltb k (suc n) = ground arith in rw (elsewhere, still)
  ]

  module _ (rows cols : ℕ) (f : ℕ → ℕ → A) (r : ℕ) (p : r < rows) (wide : rows ≤ cols) where
    clear_row_lem :
        (n : ℕ) (x : Matrix A)
        → n < rows
        → Represents x rows cols (cleared r f n)
        → (y : Matrix A) × (clear_row ⦃e = e⦄ r n x ≡ done y)
          × Represents y rows cols (cleared r f (suc n))
    unfolding clear_row
    clear_row_lem n x q h = elim (Bool-cases (n == r)) [
      | inl same ↦ (
        x,
        simp same,
        Represents-same x rows cols (cleared r f n) (cleared r f (suc n))
            (λ k l _ _. cleared_own r f n k l (ground arith)) h,
      )
      | inr apart ↦
          let value = Element.mul e (f n r) (Element.of_int e (negsuc 0)) in
          let (y, y_eq, y_is) =
            row_multiply_add_lem e x rows cols (cleared r f n) n r value h q p in
          (
            y,
            simp (apart, h.3 n r q (omega arith) ∙ ap done (cleared_next r f n r (ground arith)))
                y_eq,
            Represents-same y rows cols (summed e n r value (cleared r f n)) (cleared r f (suc n))
                (λ k l _ _. cleared_other r f n k l (ground arith)) y_is,
          )
    ]

    pub use_row_lem :
        (m : Matrix A)
        → Represents m rows cols f
        → (y : Matrix A) × (use_row ⦃e = e⦄ rows r m ≡ done y)
          × Represents y rows cols (pivoted r f)
    unfolding use_row
    use_row_lem m h =
        let (x, x_eq, x_is) = row_divide_lem e m rows cols f r (f r r) h p in
        let (y, y_eq, y_is) =
          loop-from_zero (λ n z. Represents z rows cols (cleared r f n)) rows (clear_row ⦃e = e⦄ r)
            x clear_row_lem
            (Represents-same x rows cols (divided e r (f r r) f) (cleared r f 0)
              (λ k l _ _. ground arith) x_is) in
        (
          y,
          simp (h.3 r r p (omega arith), x_eq) y_eq,
          Represents-same y rows cols (cleared r f rows) (pivoted r f) (λ k l a _. ground arith)
              y_is,
        )

  -- The first of `n` rows from r1 on whose own diagonal entry is not zero is exchanged with row r.
  unfoldable pub searched : ℕ → ℕ → ℕ → (ℕ → ℕ → A) → ℕ → ℕ → A
  searched zero r1 r f = f
  searched (suc n) r1 r f =
      if Element.is_zero e (f r1 r1) then searched n (suc r1) r f else switched r r1 f

  find_row_lem :
      (rows cols n r1 r : ℕ) (f : ℕ → ℕ → A) (m : Matrix A)
      → r < rows
      → r1 + n ≤ rows
      → rows ≤ cols
      → Represents m rows cols f
      → (y : Matrix A) × (find_row ⦃e = e⦄ n r1 r m ≡ done y)
        × Represents y rows cols (searched n r1 r f)
  unfolding searched find_row
  find_row_lem rows cols zero r1 r f m p q wide h = (m, refl, h)
  find_row_lem rows cols (suc n) r1 r f m p q wide h =
      elim (Bool-cases (Element.is_zero e (f r1 r1))) [
        | inl zero_ ↦
            simp (h.3 r1 r1 (omega arith) (omega arith), zero_)
              (find_row_lem rows cols n (suc r1) r f m p (omega arith) wide h)
        | inr not_zero ↦
            simp (h.3 r1 r1 (omega arith) (omega arith), not_zero)
              (row_switch_lem m rows cols f r r1 h p (omega arith))
      ]

  -- The diagonal entry of row r after the search for one that is not zero
  abbrev pub candidate : ℕ → ℕ → (ℕ → ℕ → A) → ℕ → ℕ → A
  candidate rows r f =
      if Element.is_zero e (f r r) then searched (rows - (r + 1)) (r + 1) r f else f

  -- One turn of the loop, on the entries
  abbrev pub stepped : ℕ → ℕ → (ℕ → ℕ → A) → ℕ → ℕ → A
  stepped rows r f =
      if Element.is_zero e (candidate rows r f r r)
      then candidate rows r f
      else pivoted r (candidate rows r f)

  pub echelon_step_lem :
      (rows cols r : ℕ) (f : ℕ → ℕ → A) (m : Matrix A)
      → r < rows
      → rows ≤ cols
      → Represents m rows cols f
      → (y : Matrix A) × (echelon_step ⦃e = e⦄ rows r m ≡ done y)
        × Represents y rows cols (stepped rows r f)
  unfolding echelon_step
  echelon_step_lem rows cols r f m p wide h = elim (Bool-cases (Element.is_zero e (f r r))) [
    | inl zero_ ↦
        let (x, x_eq, x_is) =
          find_row_lem rows cols (rows - (r + 1)) (r + 1) r f m p (omega arith) wide h in
        let g = searched (rows - (r + 1)) (r + 1) r f in
        simp (h.3 r r p (omega arith), zero_, x_eq, x_is.3 r r p (omega arith))
          (elim (Bool-cases (Element.is_zero e (g r r))) [
            | inl still ↦ simp still (x, refl, x_is)
            | inr found ↦ simp found (use_row_lem rows cols g r p wide x x_is)
          ])
    | inr not_zero ↦ simp (h.3 r r p (omega arith), not_zero) (use_row_lem rows cols f r p wide m h)
  ]

  -- The entries after the rows before `n`
  abbrev pub reduced : ℕ → (ℕ → ℕ → A) → ℕ → ℕ → ℕ → A
  reduced rows f zero = f
  reduced rows f (suc n) = stepped rows n (reduced rows f n)

  -- reduced_row_echelon of a matrix with no more rows than columns returns: the entries are those
  -- that the steps on the entries give, one for each row from the top.
  pub reduced_row_echelon_lem :
      (m : Matrix A) (rows cols : ℕ) (f : ℕ → ℕ → A)
      → Represents m rows cols f
      → rows ≤ cols
      → (y : Matrix A) × (reduced_row_echelon ⦃e = e⦄ m ≡ done y)
        × Represents y rows cols (reduced rows f rows)
  unfolding reduced_row_echelon
  reduced_row_echelon_lem m rows cols f h wide =
      let fits : leb rows cols ≡ true = ground arith in
      simp (h.0, h.1, fits)
        (loop-from_zero (λ n x. Represents x rows cols (reduced rows f n)) rows _ m
          (λ r x p is. echelon_step_lem rows cols r (reduced rows f r) x p wide is) h)
