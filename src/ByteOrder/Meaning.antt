-- ===== src/ByteOrder/Meaning.antt =====
-- What the byte swaps of include/mercury/nio/buffer.h mean: the value that a machine of the one
-- order reads from its memory is the value that a machine of the other order reads after the swap.
use taurus.Shared.{
  ℕ, ◌+◌, ◌*◌, ◌≡◌, refl, ◌⊎◌, inl, inr, List, [], ◌∷◌, reverse, length, length-reverse, arith,
  ◌==◌, if◌then◌else◌, Bool-cases,
}
use mathlib.Core.List.{reverse-reverse}
use taurus.ByteOrder.{
  ByteOrder, little_endian, big_endian, swap2, swap4, swap8, apply_int16, apply_int32, apply_int64,
  apply_float, apply_double,
}

-- The number that bytes stand for, the least significant first.
pub little : List ℕ → ℕ
little [] = 0
little (b ∷ bs) = b + 256 * little bs

-- The number that a machine of order `e` reads from these bytes.
pub decode : ℕ → List ℕ → ℕ
decode e bs = if e == little_endian then little bs else little (reverse bs)

abbrev pub IsOrder : ℕ → Type 0
IsOrder e = (e ≡ little_endian) ⊎ (e ≡ big_endian)

-- The five operators, with the width of the type each takes.
pub data Width : Type 0 where
  int16 int32 int64 float double : Width

abbrev pub size : Width → ℕ
size int16 = 2
size int32 = 4
size int64 = 8
size float = 4
size double = 8

abbrev pub apply : Width → ByteOrder → List ℕ → List ℕ
apply int16 = apply_int16
apply int32 = apply_int32
apply int64 = apply_int64
apply float = apply_float
apply double = apply_double

swap2-reverse : (v : List ℕ) → length v ≡ 2 → swap2 v ≡ reverse v
unfolding swap2
swap2-reverse (a ∷ b ∷ []) h = refl
swap2-reverse [] h = absurd (omega arith)
swap2-reverse (a ∷ []) h = absurd (omega arith)
swap2-reverse (a ∷ b ∷ c ∷ v) h = absurd (omega arith)

swap4-reverse : (v : List ℕ) → length v ≡ 4 → swap4 v ≡ reverse v
unfolding swap4
swap4-reverse (a ∷ b ∷ c ∷ d ∷ []) h = refl
swap4-reverse [] h = absurd (omega arith)
swap4-reverse (a ∷ []) h = absurd (omega arith)
swap4-reverse (a ∷ b ∷ []) h = absurd (omega arith)
swap4-reverse (a ∷ b ∷ c ∷ []) h = absurd (omega arith)
swap4-reverse (a ∷ b ∷ c ∷ d ∷ e ∷ v) h = absurd (omega arith)

swap8-reverse : (v : List ℕ) → length v ≡ 8 → swap8 v ≡ reverse v
unfolding swap8
swap8-reverse (a ∷ b ∷ c ∷ d ∷ e ∷ f ∷ g ∷ k ∷ []) h = refl
swap8-reverse [] h = absurd (omega arith)
swap8-reverse (a ∷ []) h = absurd (omega arith)
swap8-reverse (a ∷ b ∷ []) h = absurd (omega arith)
swap8-reverse (a ∷ b ∷ c ∷ []) h = absurd (omega arith)
swap8-reverse (a ∷ b ∷ c ∷ d ∷ []) h = absurd (omega arith)
swap8-reverse (a ∷ b ∷ c ∷ d ∷ e ∷ []) h = absurd (omega arith)
swap8-reverse (a ∷ b ∷ c ∷ d ∷ e ∷ f ∷ []) h = absurd (omega arith)
swap8-reverse (a ∷ b ∷ c ∷ d ∷ e ∷ f ∷ g ∷ []) h = absurd (omega arith)
swap8-reverse (a ∷ b ∷ c ∷ d ∷ e ∷ f ∷ g ∷ k ∷ x ∷ v) h = absurd (omega arith)

-- Each operator keeps the bytes if the orders agree, and reverses them otherwise.
apply-reverse :
    (w : Width) (o : ByteOrder) (v : List ℕ)
    → length v ≡ size w
    → apply w o v ≡ (if o.endian == o.native then v else reverse v)
unfolding apply_int16 apply_int32 apply_int64 apply_float apply_double
apply-reverse int16 o v h = rw (swap2-reverse v h)
apply-reverse int32 o v h = rw (swap4-reverse v h)
apply-reverse int64 o v h = rw (swap8-reverse v h)
apply-reverse float o v h = rw (swap4-reverse v h)
apply-reverse double o v h = rw (swap8-reverse v h)

pub length-apply :
    (w : Width) (o : ByteOrder) (v : List ℕ) → length v ≡ size w → length (apply w o v) ≡ size w
length-apply w o v h = elim (Bool-cases (o.endian == o.native)) [
  | inl same ↦ rw (apply-reverse w o v h, same) h
  | inr other ↦ rw (apply-reverse w o v h, other, length-reverse) h
]

-- On every pair of machine order and wanted order, what lies in memory after the operator is, read
-- in the wanted order, the value that the machine had: for each of the five types.
pub decode-apply :
    (w : Width) (o : ByteOrder) (v : List ℕ)
    → IsOrder o.endian
    → IsOrder o.native
    → length v ≡ size w
    → decode o.endian (apply w o v) ≡ decode o.native v
unfolding decode
decode-apply w o v he hn h = rw (apply-reverse w o v h) (ground (arith, reverse-reverse v))

-- Applied twice, an operator gives the value back: what is swapped on its way into the buffer is
-- swapped back on its way out, for each of the five types and any order.
pub apply-apply :
    (w : Width) (o : ByteOrder) (v : List ℕ) → length v ≡ size w → apply w o (apply w o v) ≡ v
apply-apply w o v h = elim (Bool-cases (o.endian == o.native)) [
  | inl same ↦
      rw (apply-reverse w o (apply w o v) (length-apply w o v h), apply-reverse w o v h, same)
  | inr other ↦
      rw (apply-reverse w o (apply w o v) (length-apply w o v h), apply-reverse w o v h, other)
        (reverse-reverse v)
]
