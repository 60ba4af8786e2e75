-- ===== src/Matrix/Arith.antt =====
-- transpose and the arithmetic operators of include/mars/matrix.h: each makes a new matrix and fills
-- it row by row.
use taurus.Shared.{ℕ, ◌&&◌, ◌==◌, Outcome, done, ◌>>=◌, ◌>>◌, check, loop}
use taurus.Shared.Int.{pos}
use taurus.Matrix.{Element, Matrix, get, set, of_size}

module _ {ℓ} {A : Type ℓ} where
  -- for i < rows, for j < cols: mr(i, j) = value(i, j)
  unfoldable pub fill : ℕ → ℕ → (ℕ → ℕ → Outcome A) → Matrix A → Outcome (Matrix A)
  fill rows cols value mr = loop rows 0 (λ i. loop cols 0 (λ j m. do a ← value i j; set m i j a)) mr

  module _ ⦃e : Element A⦄ where
    -- transpose() of the class and Matop::transpose
    unfoldable pub transpose : Matrix A → Outcome (Matrix A)
    transpose m = fill m.cols m.rows (λ i j. get m j i) (of_size m.cols m.rows)

    abbrev pub combine : (A → A → A) → Matrix A → Matrix A → Outcome (Matrix A)
    combine op m1 m2 = do
      check (m1.rows == m2.rows && m1.cols == m2.cols)
      fill m1.rows m1.cols (λ i j. do a ← get m1 i j; b ← get m2 i j; done (op a b))
          (of_size m1.rows m1.cols)

    abbrev pub map_value : (A → A → A) → Matrix A → A → Outcome (Matrix A)
    map_value op m value =
        fill m.rows m.cols (λ i j. do a ← get m i j; done (op a value)) (of_size m.rows m.cols)

    -- operator+ and operator- on two matrices
    unfoldable pub add : Matrix A → Matrix A → Outcome (Matrix A)
    add m1 m2 = combine (Element.add e) m1 m2

    unfoldable pub subtract : Matrix A → Matrix A → Outcome (Matrix A)
    subtract m1 m2 = combine (Element.sub e) m1 m2

    -- operator+, operator-, operator* and operator/ with an element
    unfoldable pub add_value : Matrix A → A → Outcome (Matrix A)
    add_value m value = map_value (Element.add e) m value

    unfoldable pub subtract_value : Matrix A → A → Outcome (Matrix A)
    subtract_value m value = map_value (Element.sub e) m value

    unfoldable pub multiply_value : Matrix A → A → Outcome (Matrix A)
    multiply_value m value = map_value (Element.mul e) m value

    unfoldable pub divide_value : Matrix A → A → Outcome (Matrix A)
    divide_value m value = map_value (Element.div e) m value

    -- The inner loop of operator*
    unfoldable pub dot : Matrix A → Matrix A → ℕ → ℕ → Outcome A
    dot m1 m2 i j =
        loop m1.cols 0
          (λ t value. do
            a ← get m1 i t
            b ← get m2 t j
            done (Element.add e value (Element.mul e a b)))
          (Element.of_int e (pos 0))

    -- operator* on two matrices
    unfoldable pub multiply : Matrix A → Matrix A → Outcome (Matrix A)
    multiply m1 m2 = do
      check (m1.cols == m2.rows)
      fill m1.rows m2.cols (λ i j. dot m1 m2 i j) (of_size m1.rows m2.cols)
