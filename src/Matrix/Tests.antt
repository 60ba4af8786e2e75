-- ===== src/Matrix/Tests.antt =====
-- The matrices of include/mars/matrix.h over the field of two elements.
use taurus.Shared.{
  ℕ, zero, suc, ◌<◌, ◌≡◌, refl, arith, Bool, true, false, not, [], ◌∷◌, some, done, ◌>>=◌,
}
use taurus.Matrix.{Element, Matrix, cells, copy, assign, get, set, of_size, of_array, write_cell}
use taurus.Matrix.Cells.{IsValid}
use taurus.Matrix.Parity.{gf2, and_comm}
use taurus.Matrix.Views.{Represents, entry, entry-Represents}
use taurus.Matrix.Arith.{transpose, multiply}
use taurus.Matrix.Rows.{
  row_divide, row_multiply_add, find_row, clear_row, use_row, echelon_step, reduced_row_echelon,
}
use taurus.Matrix.Products.{product, multiply_lem, transpose-multiply}
use taurus.Matrix.Echelon.{searched, reduced, reduced_row_echelon_lem}
use taurus.Matrix.Identity.{HasPivots, reduced_row_echelon_stuck}

-- The rows 1 1 and 0 1
abbrev upper : Matrix Bool
upper = record { rows = 2; cols = 2; array = some (true ∷ true ∷ false ∷ true ∷ []) }

-- The rows 0 1 and 1 0
abbrev exchange : Matrix Bool
exchange = record { rows = 2; cols = 2; array = some (false ∷ true ∷ true ∷ false ∷ []) }

abbrev column : Matrix Bool
column = record { rows = 2; cols = 1; array = some (true ∷ false ∷ []) }

upper-IsValid : IsValid upper
upper-IsValid = (omega arith, refl)

exchange-IsValid : IsValid exchange
exchange-IsValid = (omega arith, refl)

column-IsValid : IsValid column
column-IsValid = (omega arith, refl)

abbrev upper_entry : ℕ → ℕ → Bool
upper_entry = entry false upper

abbrev exchange_entry : ℕ → ℕ → Bool
exchange_entry = entry false exchange

abbrev column_entry : ℕ → ℕ → Bool
column_entry = entry false column

upper_is : Represents upper 2 2 upper_entry
upper_is = entry-Represents false upper upper-IsValid

exchange_is : Represents exchange 2 2 exchange_entry
exchange_is = entry-Represents false exchange exchange-IsValid

column_is : Represents column 2 1 column_entry
column_is = entry-Represents false column column-IsValid

multiply_lem_example :
    (m : Matrix Bool) × (multiply ⦃e = gf2⦄ upper column ≡ done m)
    × Represents m 2 1 (product gf2 2 upper_entry column_entry)
multiply_lem_example =
    multiply_lem gf2 upper column 2 2 1 upper_entry column_entry upper_is column_is (omega arith)

transpose-multiply_example :
    (x y : Matrix Bool) × ((multiply ⦃e = gf2⦄ upper column >>= λ p. transpose ⦃e = gf2⦄ p)
      ≡ done x)
    × ((transpose ⦃e = gf2⦄ column >>= λ a.
          transpose ⦃e = gf2⦄ upper >>= λ b. multiply ⦃e = gf2⦄ a b)
        ≡ done y)
    × Represents x 1 2 (λ i j. product gf2 2 upper_entry column_entry j i)
    × Represents y 1 2 (λ i j. product gf2 2 upper_entry column_entry j i)
transpose-multiply_example =
    transpose-multiply gf2 and_comm upper column 2 2 1 upper_entry column_entry upper_is column_is
      (omega arith)

reduced_row_echelon_lem_example :
    (y : Matrix Bool) × (reduced_row_echelon ⦃e = gf2⦄ upper ≡ done y)
    × Represents y 2 2 (reduced gf2 2 upper_entry 2)
reduced_row_echelon_lem_example =
    reduced_row_echelon_lem gf2 upper 2 2 upper_entry upper_is (omega arith)

upper-HasPivots : HasPivots gf2 2 upper_entry
unfolding entry get taurus.Matrix.offset searched
upper-HasPivots zero p = refl
upper-HasPivots (suc zero) p = refl
upper-HasPivots (suc (suc r)) p = absurd (omega arith)

zero_diagonal : (i : ℕ) → i < 2 → not (exchange_entry i i) ≡ true
unfolding entry get taurus.Matrix.offset
zero_diagonal zero p = refl
zero_diagonal (suc zero) p = refl
zero_diagonal (suc (suc r)) p = absurd (omega arith)

reduced_row_echelon_stuck_example :
    (y : Matrix Bool) × (reduced_row_echelon ⦃e = gf2⦄ exchange ≡ done y)
    × Represents y 2 2 exchange_entry
reduced_row_echelon_stuck_example =
    reduced_row_echelon_stuck gf2 exchange 2 2 exchange_entry exchange_is (omega arith)
      zero_diagonal

upper_reduced :
    reduced_row_echelon ⦃e = gf2⦄ upper
    ≡ done (record { rows = 2; cols = 2; array = some (true ∷ false ∷ false ∷ true ∷ []) })
unfolding reduced_row_echelon echelon_step use_row clear_row row_divide row_multiply_add get set
    write_cell taurus.Matrix.offset find_row
upper_reduced = refl
