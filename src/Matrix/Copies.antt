-- ===== src/Matrix/Copies.antt =====
-- Copies of a matrix (include/mars/matrix.h).
use taurus.Shared.{
  ℕ, zero, suc, ◌*◌, ◌%◌, ◌<◌, ◌≡◌, refl, sym, ap, ◌∙◌, List, [], ◌∷◌, length, take, overwrite,
  true, false, Bool-cases, inl, inr, ◌⊎◌, Option, none, some, done, ltb, leb, arith,
}
use taurus.Matrix.{Element, Matrix, size_mod, cells, replicate, of_size, copy_cells, copy, assign}
use taurus.Matrix.Cells.{IsValid}

module _ {ℓ} {A : Type ℓ} (e : Element A) where
  overwrite_all : (xs ys : List A) → length xs ≡ length ys → overwrite xs 0 ys ≡ ys
  overwrite_all [] [] h = refl
  overwrite_all [] (y ∷ ys) h = absurd (omega arith)
  overwrite_all (x ∷ xs) [] h = absurd (omega arith)
  overwrite_all (x ∷ xs) (y ∷ ys) h = ap (◌∷◌ y) (overwrite_all xs ys (omega arith))

  take_all : (xs : List A) (n : ℕ) → length xs ≡ n → take n xs ≡ xs
  take_all [] zero h = refl
  take_all [] (suc n) h = refl
  take_all (x ∷ xs) zero h = absurd (omega arith)
  take_all (x ∷ xs) (suc n) h = ap (◌∷◌ x) (take_all xs n (omega arith))

  length-replicate : (n : ℕ) (a : A) → length (replicate n a) ≡ n
  length-replicate zero a = refl
  length-replicate (suc n) a = ap suc (length-replicate n a)

  copy_cells_lem :
      (n : ℕ) (a : A) (l : List A)
      → length l ≡ n
      → copy_cells n l (some (replicate n a)) ≡ done (some l)
  unfolding copy_cells
  copy_cells_lem n a l h =
      let enough : leb n (length l) ≡ true = ground arith in
      let room : leb n (length (replicate n a)) ≡ true = ground (arith, length-replicate n a) in
      rw (
        enough,
        room,
        take_all l n h,
        overwrite_all (replicate n a) l (length-replicate n a ∙ sym h),
      )

  no_cells : (l : List A) → length l ≡ 0 → [] ≡ l
  no_cells [] h = refl
  no_cells (x ∷ l) h = absurd (omega arith)

  assigned :
      (rows cols : ℕ) (array : Option (List A)) (target : Matrix A)
      → (rows * cols < size_mod) × (length (cells array) ≡ rows * cols)
      → assign ⦃e = e⦄ target (record { rows = rows; cols = cols; array = array })
        ≡ done (record { rows = rows; cols = cols; array = array })
  unfolding assign
  assigned rows cols none target v = refl
  assigned rows cols (some l) target v =
      let size : (rows * cols) % size_mod ≡ rows * cols = omega (arith, v.0) in
      rw (size, copy_cells_lem (rows * cols) (Element.junk e) l v.1)

  -- The copy constructor, and the assignment of a copy to another object whatever that one holds,
  -- give a valid matrix the rows, the columns and the cells of the one that is copied.
  pub copy_lem :
      (m : Matrix A) (target : Matrix A)
      → IsValid m
      → ((y : Matrix A) × (copy ⦃e = e⦄ m ≡ done y)
          × IsValid y
          × (y.rows ≡ m.rows)
          × (y.cols ≡ m.cols)
          × (cells y.array ≡ cells m.array))
        × ((y : Matrix A) × (assign ⦃e = e⦄ target m ≡ done y)
            × IsValid y
            × (y.rows ≡ m.rows)
            × (y.cols ≡ m.cols)
            × (cells y.array ≡ cells m.array))
  unfolding copy assign of_size
  copy_lem m target v = (
    copied (Bool-cases (ltb 0 ((m.rows * m.cols) % size_mod))),
    (m, assigned m.rows m.cols m.array target v, v, refl, refl, refl),
  )
    where
      size : (m.rows * m.cols) % size_mod ≡ m.rows * m.cols
      size = omega (arith, v.0)

      copied :
          (ltb 0 ((m.rows * m.cols) % size_mod) ≡ true)
            ⊎ (ltb 0 ((m.rows * m.cols) % size_mod) ≡ false)
          → (y : Matrix A) × (copy ⦃e = e⦄ m ≡ done y)
            × IsValid y
            × (y.rows ≡ m.rows)
            × (y.cols ≡ m.cols)
            × (cells y.array ≡ cells m.array)
      copied (inl some_) = (
        record m { array = some (cells m.array) },
        rw some_ (
            rw (
              copy_cells_lem ((m.rows * m.cols) % size_mod) (Element.junk e) (cells m.array)
                (v.1 ∙ sym size))),
        v,
        refl,
        refl,
        refl,
      )
      copied (inr none_) =
          let empty_ : [] ≡ cells m.array = no_cells (cells m.array) (ground (arith, v.1, size)) in
          (record m { array = none }, rw none_, (v.0, ap length empty_ ∙ v.1), refl, refl, empty_)
