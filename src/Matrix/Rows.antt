-- ===== src/Matrix/Rows.antt =====
-- The row operations of `struct Matop` (include/mars/matrix.h), which change the matrix they get.
use taurus.Shared.{
  ℕ, zero, suc, ◌+◌, ◌-◌, ◌==◌, if◌then◌else◌, leb, Outcome, done, ◌>>=◌, ◌>>◌, check, loop,
}
use taurus.Shared.Int.{negsuc}
use taurus.Matrix.{Element, Matrix, get, set}

module _ {ℓ} {A : Type ℓ} where
  unfoldable pub row_switch : Matrix A → ℕ → ℕ → Outcome (Matrix A)
  row_switch m r1 r2 =
      loop m.cols 0
        (λ c m. do temp ← get m r1 c; b ← get m r2 c; m1 ← set m r1 c b; set m1 r2 c temp) m

  module _ ⦃e : Element A⦄ where
    unfoldable pub row_multiply : Matrix A → ℕ → A → Outcome (Matrix A)
    row_multiply m r1 value =
        loop m.cols 0 (λ c m. do a ← get m r1 c; set m r1 c (Element.mul e a value)) m

    unfoldable pub row_divide : Matrix A → ℕ → A → Outcome (Matrix A)
    row_divide m r1 value =
        loop m.cols 0 (λ c m. do a ← get m r1 c; set m r1 c (Element.div e a value)) m

    unfoldable pub row_multiply_add : Matrix A → ℕ → ℕ → A → Outcome (Matrix A)
    row_multiply_add m r1 r2 value =
        loop m.cols 0
          (λ c m. do
            a ← get m r1 c
            b ← get m r2 c
            set m r1 c (Element.add e (Element.mul e b value) a))
          m

    -- The search below the diagonal for a row to swap in: `n` rows are left from `r1` on.
    unfoldable pub find_row : ℕ → ℕ → ℕ → Matrix A → Outcome (Matrix A)
    find_row zero r1 r m = done m
    find_row (suc n) r1 r m = do
      let rest = find_row n (suc r1) r m
      a ← get m r1 r1
      if Element.is_zero e a then rest else row_switch m r r1

    -- Row r2 is cleared by row r, unless they are the same.
    unfoldable pub clear_row : ℕ → ℕ → Matrix A → Outcome (Matrix A)
    clear_row r n m = if n == r then done m else (do
      a ← get m n r
      row_multiply_add m n r (Element.mul e a (Element.of_int e (negsuc 0))))

    -- What is done once the diagonal of row r is not zero
    unfoldable pub use_row : ℕ → ℕ → Matrix A → Outcome (Matrix A)
    use_row rows r m = do a ← get m r r; m1 ← row_divide m r a; loop rows 0 (clear_row r) m1

    -- One turn of the loop of reduced_row_echelon
    unfoldable pub echelon_step : ℕ → ℕ → Matrix A → Outcome (Matrix A)
    echelon_step rows r m = do
      v0 ← get m r r
      let swapped : Outcome (Matrix A) = (do
        m1 ← find_row (rows - (r + 1)) (r + 1) r m
        a ← get m1 r r
        if Element.is_zero e a then done m1 else use_row rows r m1)
      if Element.is_zero e v0 then swapped else use_row rows r m

    unfoldable pub reduced_row_echelon : Matrix A → Outcome (Matrix A)
    reduced_row_echelon m = do check (leb m.rows m.cols); loop m.rows 0 (echelon_step m.rows) m
