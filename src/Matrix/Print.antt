-- ===== src/Matrix/Print.antt =====
-- TMatrix::print and Matop::transpose of include/mars/matrix.h. What is written to the stream is a text;
-- how an element is written is an argument.
use taurus.Shared.{[], ◌∷◌, ◌++◌, Text, Outcome, done, ◌>>=◌, loop}
use taurus.Matrix.{Element, Matrix, get, of_size}
use taurus.Matrix.Arith.{fill}

abbrev newline : Text
newline = 10 ∷ []

abbrev tab : Text
tab = 9 ∷ []

module _ {ℓ} {A : Type ℓ} where
  -- print(oss): the stream afterwards
  unfoldable pub print : (A → Text) → Matrix A → Text → Outcome Text
  print show m oss =
      loop m.rows 0
        (λ i os. do
          row ← loop m.cols 0 (λ j os. do a ← get m i j; done (os ++ tab ++ show a)) os
          done (row ++ newline))
        (oss ++ newline)

  module _ ⦃e : Element A⦄ where
    -- Matop::transpose
    unfoldable pub matop_transpose : Matrix A → Outcome (Matrix A)
    unfolding fill
    matop_transpose m = fill m.cols m.rows (λ i j. get m j i) (of_size m.cols m.rows)
