-- ===== src/Matrix.antt =====
-- `class TMatrix` of include/mars/matrix.h. The element type is a parameter with the operations the
-- template asks of it; `std::out_of_range` is an abort, a cell outside the storage a fault.
pub mod Arith
pub mod Rows
pub mod Cells
pub mod Views
pub mod Copies
pub mod Entries
pub mod Products
pub mod RowViews
pub mod Echelon
pub mod Identity
pub mod Fields
pub mod Systems
pub mod Solutions
pub mod Equations
pub mod Associativity
pub mod Idempotence
pub mod Parity
pub mod Print
mod SystemTests
mod Tests
use taurus.Shared.{
  ℕ, zero, suc, ◌+◌, ◌*◌, ◌%◌, ◌^◌, ◌≡◌, Bool, true, false, List, [], ◌∷◌, length, take, overwrite,
  get_elem?, leb, ltb, if◌then◌else◌, Option, none, some, Outcome, done, abort, fault, ◌>>=◌, loop,
}
use taurus.Shared.Int.{ℤ}

-- What the template uses of T. `junk` is what `new T[len]` leaves in a cell.
pub record Element {ℓ} (A : Type ℓ) : Type ℓ where
  pub add : A → A → A
  pub sub : A → A → A
  pub mul : A → A → A
  pub div : A → A → A
  pub of_int : ℤ → A
  pub is_zero : A → Bool
  pub junk : A

-- `size_t` is taken mod 2^64.
abbrev pub size_mod : ℕ
size_mod = 2 ^ 64

-- m_array is a pointer to storage of its own, or null.
pub record Matrix {ℓ} (A : Type ℓ) : Type ℓ where
  pub rows : ℕ
  pub cols : ℕ
  pub array : Option (List A)

abbrev pub cells {ℓ} : {A : Type ℓ} → Option (List A) → List A
cells none = []
cells (some l) = l

abbrev pub replicate {ℓ} : {A : Type ℓ} → ℕ → A → List A
replicate zero a = []
replicate (suc n) a = a ∷ replicate n a

-- Reading and writing `m_array[i]`
abbrev pub read_cell {ℓ} : {A : Type ℓ} → List A → ℕ → Outcome A
read_cell l i = elim (get_elem? l i) [ none ↦ fault | some a ↦ done a ]

unfoldable pub write_cell {ℓ} : {A : Type ℓ} → Option (List A) → ℕ → A → Outcome (Option (List A))
write_cell none i a = fault
write_cell (some l) i a = if ltb i (length l) then done (some (overwrite l i (a ∷ []))) else fault

module _ {ℓ} {A : Type ℓ} where
  -- TMatrix()
  unfoldable pub empty : Matrix A
  empty = record { rows = 0; cols = 0; array = none }

  unfoldable pub offset : Matrix A → ℕ → ℕ → ℕ
  offset m row col = (row * m.cols + col) % size_mod

  -- operator()(row, col) read: get does no more
  unfoldable pub get : Matrix A → ℕ → ℕ → Outcome A
  get m row col =
      if leb m.rows row
      then abort
      else (if leb m.cols col then abort else read_cell (cells m.array) (offset m row col))

  -- set: operator()(row, col) assigned to
  unfoldable pub set : Matrix A → ℕ → ℕ → A → Outcome (Matrix A)
  unfolding write_cell
  set m row col value =
      if leb m.rows row
      then abort
      else (if leb m.cols col then abort else (do
        array ← write_cell m.array (offset m row col) value
        done (record m { array = array })))

  -- TMatrix(TMatrix &&): the new object and what the source becomes
  unfoldable pub move : Matrix A → Matrix A × Matrix A
  unfolding empty
  move m = (m, empty)

  -- operator=(TMatrix &&) on two objects, or on one object twice
  unfoldable pub move_assign : Matrix A → Matrix A → Matrix A × Matrix A
  unfolding empty
  move_assign m source = (source, empty)

  unfoldable pub move_assign_self : Matrix A → Matrix A
  move_assign_self m = m

  -- ~TMatrix()
  unfoldable pub destroy : Matrix A → Matrix A
  unfolding empty
  destroy m = empty

  -- memcpy of `n` elements
  unfoldable pub copy_cells : ℕ → List A → Option (List A) → Outcome (Option (List A))
  copy_cells n source none = if ltb 0 n then fault else done none
  copy_cells n source (some target) =
      if leb n (length source)
      then (if leb n (length target)
          then done (some (overwrite target 0 (take n source)))
          else fault)
      else fault

  module _ ⦃e : Element A⦄ where
    -- TMatrix(size_t, size_t)
    unfoldable pub of_size : ℕ → ℕ → Matrix A
    of_size rows cols =
        let len = (rows * cols) % size_mod in
        record {
          rows = rows;
          cols = cols;
          array = if ltb 0 len then some (replicate len (Element.junk e)) else none;
        }

    -- TMatrix(T *, size_t, size_t)
    unfoldable pub of_array : List A → ℕ → ℕ → Outcome (Matrix A)
    unfolding of_size write_cell
    of_array source rows cols =
        let m = of_size rows cols in
        let copy : ℕ → ℕ → Option (List A) → Outcome (Option (List A)) = (λ i j array. do
          let at = (i * cols + j) % size_mod
          a ← read_cell source at
          write_cell array at a) in
        let copied : Outcome (Matrix A) = (do
          array ← loop rows 0 (λ i. loop cols 0 (copy i)) m.array
          done (record m { array = array })) in
        if ltb 0 ((rows * cols) % size_mod) then copied else done m

    -- TMatrix(size_t, size_t, T)
    unfoldable pub of_value : ℕ → ℕ → A → Outcome (Matrix A)
    unfolding of_size write_cell
    of_value rows cols initval = do
      let m = of_size rows cols
      array ← loop ((rows * cols) % size_mod) 0 (λ i a. write_cell a i initval) m.array
      done (record m { array = array })

    -- TMatrix(const TMatrix &)
    unfoldable pub copy : Matrix A → Outcome (Matrix A)
    unfolding of_size copy_cells
    copy m = do
      let new = of_size m.rows m.cols
      array ← elim new.array [
        | none ↦ done none
        | some t ↦ copy_cells ((m.rows * m.cols) % size_mod) (cells m.array) (some t)
      ]
      done (record new { array = array })

    -- operator=(const TMatrix &) from another object; from itself it changes nothing
    unfoldable pub assign : Matrix A → Matrix A → Outcome (Matrix A)
    unfolding copy_cells
    assign m source = do
      let len = (source.rows * source.cols) % size_mod
      array ← elim source.array [
        | none ↦ done none
        | some s ↦ copy_cells len s (some (replicate len (Element.junk e)))
      ]
      done (record { rows = source.rows; cols = source.cols; array = array })

    unfoldable pub assign_self : Matrix A → Matrix A
    assign_self m = m
