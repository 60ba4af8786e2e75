-- ===== src/Matrix/Cells.antt =====
-- Reading and writing one cell of a matrix (include/mars/matrix.h).
use taurus.Shared.{
  ℕ, zero, suc, ◌+◌, ◌*◌, ◌<◌, ◌≡◌, refl, sym, ap, ◌∙◌, ◌≢◌, ◌⊎◌, inl, inr, List, [], ◌∷◌, length,
  overwrite, length-overwrite, get_elem?-overwrite_out, lt→ltb, Option, none, some, done, fault,
  arith,
}
use taurus.Matrix.{Matrix, size_mod, cells, read_cell, write_cell, offset, get, set}

-- What every operation keeps: the size fits in `size_t` and the storage has the size.
abbrev pub IsValid {ℓ} : {A : Type ℓ} → Matrix A → Type 0
IsValid m = (m.rows * m.cols < size_mod) × (length (cells m.array) ≡ m.rows * m.cols)

pub cell_in : (rows cols i j : ℕ) → i < rows → j < cols → i * cols + j < rows * cols
cell_in zero cols i j p q = absurd (omega arith)
cell_in (suc rows) cols zero j p q = omega arith
cell_in (suc rows) cols (suc i) j p q = omega (arith, cell_in rows cols i j (omega arith) q)

pub cell_injective :
    (cols i j k l : ℕ) → j < cols → l < cols → i * cols + j ≡ k * cols + l → (i ≡ k) × (j ≡ l)
cell_injective cols zero j zero l p q h = (refl, omega arith)
cell_injective cols zero j (suc k) l p q h = absurd (omega arith)
cell_injective cols (suc i) j zero l p q h = absurd (omega arith)
cell_injective cols (suc i) j (suc k) l p q h =
    let (a, b) = cell_injective cols i j k l p q (omega arith) in (ap suc a, b)

read_cell_in {ℓ} :
    {A : Type ℓ} (l : List A) (i : ℕ) → i < length l → (a : A) × (read_cell l i ≡ done a)
read_cell_in [] i h = absurd (omega arith)
read_cell_in (x ∷ l) zero h = (x, refl)
read_cell_in (x ∷ l) (suc i) h = read_cell_in l i (omega arith)

pub read_cell-overwrite {ℓ} :
    {A : Type ℓ} (l : List A) (i : ℕ) (a : A)
    → i < length l
    → read_cell (overwrite l i (a ∷ [])) i ≡ done a
read_cell-overwrite [] i a h = absurd (omega arith)
read_cell-overwrite (x ∷ l) zero a h = refl
read_cell-overwrite (x ∷ l) (suc i) a h = read_cell-overwrite l i a (omega arith)

pub read_cell-overwrite_out {ℓ} :
    {A : Type ℓ} (l : List A) (i j : ℕ) (a : A)
    → j ≢ i
    → read_cell (overwrite l i (a ∷ [])) j ≡ read_cell l j
read_cell-overwrite_out l i j a h =
    ap (λ o. elim o [ none ↦ fault | some b ↦ done b ])
      (get_elem?-overwrite_out l i j (a ∷ []) (omega arith))

module _ {ℓ} {A : Type ℓ} (m : Matrix A) (valid : IsValid m) where
  offset_lem : (i j : ℕ) → i < m.rows → j < m.cols → offset m i j ≡ i * m.cols + j
  unfolding offset
  offset_lem i j p q = omega (arith, cell_in m.rows m.cols i j p q, valid.0)

  pub get_lem :
      (i j : ℕ) → i < m.rows → j < m.cols → get m i j ≡ read_cell (cells m.array) (i * m.cols + j)
  unfolding get
  get_lem i j p q = rw (sym (offset_lem i j p q)) (ground arith)

  -- A cell in range can be read.
  pub get_in : (i j : ℕ) → i < m.rows → j < m.cols → (a : A) × (get m i j ≡ done a)
  get_in i j p q =
      let (a, e) =
        read_cell_in (cells m.array) (i * m.cols + j)
          (omega (arith, cell_in m.rows m.cols i j p q, valid.1)) in
      (a, get_lem i j p q ∙ e)

  write_cell_lem :
      (array : Option (List A)) (i : ℕ) (a : A)
      → i < length (cells array)
      → write_cell array i a ≡ done (some (overwrite (cells array) i (a ∷ [])))
  unfolding write_cell
  write_cell_lem none i a h = absurd (omega arith)
  write_cell_lem (some l) i a h = rw (lt→ltb i (length l) h)

  -- The matrix after a write
  abbrev pub written : ℕ → ℕ → A → Matrix A
  written i j a = record m { array = some (overwrite (cells m.array) (i * m.cols + j) (a ∷ [])) }

  -- A cell in range can be written.
  pub set_in : (i j : ℕ) (a : A) → i < m.rows → j < m.cols → set m i j a ≡ done (written i j a)
  unfolding set
  set_in i j a p q =
      rw
        (
          offset_lem i j p q,
          write_cell_lem m.array (i * m.cols + j) a
              (omega (arith, cell_in m.rows m.cols i j p q, valid.1)),
        )
        (ground arith)

  pub written-IsValid : (i j : ℕ) (a : A) → IsValid (written i j a)
  written-IsValid i j a =
      (valid.0, length-overwrite (cells m.array) (i * m.cols + j) (a ∷ []) ∙ valid.1)

module _ {ℓ} {A : Type ℓ} (m : Matrix A) (valid : IsValid m) where
  pub get-written_same :
      (i j : ℕ) (a : A) → i < m.rows → j < m.cols → get (written m valid i j a) i j ≡ done a
  get-written_same i j a p q =
      get_lem (written m valid i j a) (written-IsValid m valid i j a) i j p q
      ∙ read_cell-overwrite (cells m.array) (i * m.cols + j) a
          (omega (arith, cell_in m.rows m.cols i j p q, valid.1))

  pub get-written_other :
      (i j : ℕ) (a : A) (k l : ℕ)
      → i < m.rows
      → j < m.cols
      → k < m.rows
      → l < m.cols
      → (k ≢ i) ⊎ (l ≢ j)
      → get (written m valid i j a) k l ≡ get m k l
  get-written_other i j a k l p q p' q' h =
      get_lem (written m valid i j a) (written-IsValid m valid i j a) k l p' q'
      ∙ read_cell-overwrite_out (cells m.array) (i * m.cols + j) (k * m.cols + l) a apart
      ∙ sym (get_lem m valid k l p' q')
    where
      apart : k * m.cols + l ≢ i * m.cols + j
      apart e =
          let (x, y) = cell_injective m.cols k l i j q' q e in elim h [ inl f ↦ f x | inr f ↦ f y ]
