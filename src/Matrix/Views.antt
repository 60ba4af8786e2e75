-- ===== src/Matrix/Views.antt =====
-- What a matrix of include/mars/matrix.h stands for: a function from row and column to an element.
use taurus.Shared.{
  ℕ, zero, suc, ◌*◌, ◌%◌, ◌<◌, ◌≡◌, refl, sym, ap, subst, ◌∙◌, inl, inr, ◌&&◌, length, ltb,
  if◌then◌else◌, done, abort, fault, arith, ◌==◌, Bool-cases,
}
use taurus.Matrix.{Element, Matrix, size_mod, replicate, get, set, of_size}
use taurus.Matrix.Cells.{
  IsValid, get_in, set_in, get-written_same, get-written_other, written, written-IsValid,
}

-- `m` is a valid matrix of `rows` by `cols` whose cells are those of `f`.
abbrev pub Represents {ℓ} : {A : Type ℓ} → Matrix A → ℕ → ℕ → (ℕ → ℕ → A) → Type ℓ
Represents m rows cols f =
    (m.rows ≡ rows)
    × (m.cols ≡ cols)
    × IsValid m
    × ((i j : ℕ) → i < rows → j < cols → get m i j ≡ done (f i j))

module _ {ℓ} {A : Type ℓ} where
  pub Represents-same :
      (m : Matrix A) (rows cols : ℕ) (f g : ℕ → ℕ → A)
      → ((i j : ℕ) → i < rows → j < cols → f i j ≡ g i j)
      → Represents m rows cols f
      → Represents m rows cols g
  Represents-same m rows cols f g same (r, c, v, e) =
      (r, c, v, λ i j p q. e i j p q ∙ ap done (same i j p q))

  pub Represents-size :
      (m : Matrix A) (rows cols : ℕ) (f : ℕ → ℕ → A)
      → Represents m rows cols f
      → rows * cols < size_mod
  Represents-size m rows cols f (r, c, v, e) =
      subst (λ x. x * cols < size_mod) r (subst (λ y. m.rows * y < size_mod) c v.0)

  -- `f` with the value at one place replaced
  abbrev pub update : (ℕ → ℕ → A) → ℕ → ℕ → A → ℕ → ℕ → A
  update f i j a k l = if k == i && l == j then a else f k l

  pub set-Represents :
      (m : Matrix A) (rows cols : ℕ) (f : ℕ → ℕ → A) (i j : ℕ) (a : A)
      → Represents m rows cols f
      → i < rows
      → j < cols
      → (m' : Matrix A) × (set m i j a ≡ done m') × Represents m' rows cols (update f i j a)
  set-Represents m rows cols f i j a (r, c, v, e) p q =
      (m', set_in m v i j a (omega arith) (omega arith), (r, c, v', entries))
    where
      m' : Matrix A
      m' = written m v i j a

      v' : IsValid m'
      v' = written-IsValid m v i j a

      entries : (k l : ℕ) → k < rows → l < cols → get m' k l ≡ done (update f i j a k l)
      entries k l p' q' = elim (Bool-cases (k == i && l == j)) [
        | inl here ↦ rw here (
            subst (λ x. get m' x l ≡ done a) {x = i} (ground arith)
              (subst (λ y. get m' i y ≡ done a) {x = j} (ground arith)
                (get-written_same m v i j a (omega arith) (omega arith))))
        | inr there ↦ rw there (
            get-written_other m v i j a k l (omega arith) (omega arith) (omega arith) (omega arith)
              (ground arith)
            ∙ e k l p' q')
      ]

  -- Every valid matrix stands for some function.
  unfoldable pub entry : A → Matrix A → ℕ → ℕ → A
  entry d m i j = elim (get m i j) [ done a ↦ a | abort ↦ d | fault ↦ d ]

  pub entry-Represents : (d : A) (m : Matrix A) → IsValid m → Represents m m.rows m.cols (entry d m)
  unfolding entry get
  entry-Represents d m v = (
    refl,
    refl,
    v,
    λ i j p q.
        let (a, e) = get_in m v i j p q in
        e ∙ ap done (sym (ap (λ o. elim o [ done b ↦ b | abort ↦ d | fault ↦ d ]) e)),
  )

  -- Two valid matrices that stand for the same function have the same cells.
  pub Represents-unique :
      (m n : Matrix A) (rows cols : ℕ) (f : ℕ → ℕ → A)
      → Represents m rows cols f
      → Represents n rows cols f
      → (i j : ℕ) → i < rows
      → j < cols
      → get m i j ≡ get n i j
  Represents-unique m n rows cols f x y i j p q = x.3 i j p q ∙ sym (y.3 i j p q)

  length-replicate : (n : ℕ) (a : A) → length (replicate n a) ≡ n
  length-replicate zero a = refl
  length-replicate (suc n) a = ap suc (length-replicate n a)

  of_size-IsValid :
      (e : Element A) (rows cols : ℕ) → rows * cols < size_mod → IsValid (of_size ⦃e = e⦄ rows cols)
  unfolding of_size
  of_size-IsValid e rows cols h = (
    h,
    elim (Bool-cases (ltb 0 ((rows * cols) % size_mod))) [
      | inl some_ ↦
          rw some_ (length-replicate ((rows * cols) % size_mod) (Element.junk e) ∙ omega arith)
      | inr none_ ↦ rw none_ (ground arith)
    ],
  )

  -- The matrix that an operation fills has the size of its result.
  pub of_size-Represents :
      (e : Element A) (rows cols : ℕ)
      → rows * cols < size_mod
      → Represents
          (of_size ⦃e = e⦄ rows cols)
          rows
          cols
          (entry (Element.junk e) (of_size ⦃e = e⦄ rows cols))
  unfolding of_size
  of_size-Represents e rows cols h =
      entry-Represents (Element.junk e) (of_size ⦃e = e⦄ rows cols) (of_size-IsValid e rows cols h)
