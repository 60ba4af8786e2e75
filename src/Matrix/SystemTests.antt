-- ===== src/Matrix/SystemTests.antt =====
-- A system of two equations over the field of two elements, solved by reduced_row_echelon of
-- include/mars/matrix.h.
use taurus.Shared.{
  ℕ, zero, suc, ◌<◌, ◌≡◌, refl, arith, Bool, true, false, [], ◌∷◌, some, done, ◌>>=◌,
}
use taurus.Matrix.{Element, Matrix, get}
use taurus.Matrix.Views.{Represents, entry, entry-Represents}
use taurus.Matrix.Rows.{reduced_row_echelon}
use taurus.Matrix.Arith.{multiply}
use taurus.Matrix.Products.{product}
use taurus.Matrix.Associativity.{multiply_assoc}
use taurus.Matrix.Echelon.{searched}
use taurus.Matrix.Identity.{HasPivots}
use taurus.Matrix.Parity.{gf2, gf2-IsExact}
use taurus.Matrix.Idempotence.{reduced_row_echelon_idempotent}
use taurus.Matrix.Equations.{Solves, reduced_row_echelon-Solves, reduced_row_echelon_unique}

-- x + y = 0 and y = 1
abbrev system : Matrix Bool
system = record {
  rows = 2;
  cols = 3;
  array = some (true ∷ true ∷ false ∷ false ∷ true ∷ true ∷ []);
}

abbrev system_entry : ℕ → ℕ → Bool
system_entry = entry false system

system_is : Represents system 2 3 system_entry
system_is = entry-Represents false system (omega arith, refl)

reduced_row_echelon-Solves_example :
    (y : Matrix Bool) × (g : ℕ → ℕ → Bool) × (reduced_row_echelon ⦃e = gf2⦄ system ≡ done y)
    × Represents y 2 3 g
    × ((x : ℕ → Bool)
        → (Solves gf2 2 2 system_entry x → Solves gf2 2 2 g x)
          × (Solves gf2 2 2 g x → Solves gf2 2 2 system_entry x))
reduced_row_echelon-Solves_example =
    reduced_row_echelon-Solves gf2 gf2-IsExact 2 2 system system_entry system_is (omega arith)

system-HasPivots : HasPivots gf2 2 system_entry
unfolding entry get taurus.Matrix.offset searched
system-HasPivots zero p = refl
system-HasPivots (suc zero) p = refl
system-HasPivots (suc (suc r)) p = absurd (omega arith)

reduced_row_echelon_unique_example :
    (y : Matrix Bool) × (a : ℕ → Bool) × (reduced_row_echelon ⦃e = gf2⦄ system ≡ done y)
    × ((i : ℕ) → i < 2 → get y i 2 ≡ done (a i))
    × Solves gf2 2 2 system_entry a
    × ((x : ℕ → Bool) → Solves gf2 2 2 system_entry x → (i : ℕ) → i < 2 → x i ≡ a i)
reduced_row_echelon_unique_example =
    reduced_row_echelon_unique gf2 gf2-IsExact 2 system system_entry system_is system-HasPivots

reduced_row_echelon_idempotent_example :
    (y : Matrix Bool) × (z : Matrix Bool) × (reduced_row_echelon ⦃e = gf2⦄ system ≡ done y)
    × (reduced_row_echelon ⦃e = gf2⦄ y ≡ done z)
    × ((k c : ℕ) → k < 2 → c < 3 → get z k c ≡ get y k c)
reduced_row_echelon_idempotent_example =
    reduced_row_echelon_idempotent gf2 gf2-IsExact refl system 2 3 system_entry system_is
      (omega arith) system-HasPivots

abbrev square : Matrix Bool
square = record { rows = 2; cols = 2; array = some (true ∷ true ∷ false ∷ true ∷ []) }

abbrev square_entry : ℕ → ℕ → Bool
square_entry = entry false square

square_is : Represents square 2 2 square_entry
square_is = entry-Represents false square (omega arith, refl)

multiply_assoc_example :
    (x y : Matrix Bool) × ((multiply ⦃e = gf2⦄ square square >>= λ a. multiply ⦃e = gf2⦄ a system)
      ≡ done x)
    × ((multiply ⦃e = gf2⦄ square system >>= λ b. multiply ⦃e = gf2⦄ square b) ≡ done y)
    × Represents x 2 3 (product gf2 2 square_entry (product gf2 2 square_entry system_entry))
    × Represents y 2 3 (product gf2 2 square_entry (product gf2 2 square_entry system_entry))
multiply_assoc_example =
    multiply_assoc gf2 gf2-IsExact square square system 2 2 2 3 square_entry square_entry
      system_entry square_is square_is system_is (omega arith) (omega arith) (omega arith)
