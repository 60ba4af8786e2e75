-- ===== src/ByteBuffer/Values.antt =====
-- The absolute reads and writes of numbers of `class ByteBuffer` (src/nio/buffer.cpp), for each of
-- the five types.
use taurus.Shared.{
  ℕ, ◌+◌, ◌*◌, ◌≤◌, ◌<◌, ◌≡◌, refl, ◌∙◌, ap, subst, ◌⊎◌, List, length, get_elem?,
  get_elem?-overwrite_out, take, drop, overwrite, length-overwrite, take-drop-overwrite, arith,
  Outcome, done, fault,
}
use taurus.ByteOrder.{ByteOrder}
use taurus.ByteOrder.Meaning.{
  Width, int16, int32, int64, float, double, size, apply, decode, IsOrder, length-apply,
  decode-apply, apply-apply,
}
use taurus.Buffer.Window.{IsValid}
use taurus.ByteBuffer.{ByteBuffer}
use taurus.ByteBuffer.Numbers.{
  read_at, write_at, get_int16_at, get_int32_at, get_int64_at, get_float_at, get_double_at,
  put_int16_at, put_int32_at, put_int64_at, put_float_at, put_double_at,
}

pub get_value_at : Width → ℕ → ByteBuffer → Outcome (List ℕ)
get_value_at int16 = get_int16_at
get_value_at int32 = get_int32_at
get_value_at int64 = get_int64_at
get_value_at float = get_float_at
get_value_at double = get_double_at

pub put_value_at : Width → ℕ → List ℕ → ByteBuffer → Outcome ByteBuffer
put_value_at int16 = put_int16_at
put_value_at int32 = put_int32_at
put_value_at int64 = put_int64_at
put_value_at float = put_float_at
put_value_at double = put_double_at

pub get_value_at-read_at :
    (w : Width) (idx : ℕ) (b : ByteBuffer) → get_value_at w idx b ≡ read_at (size w) (apply w) idx b
unfolding get_value_at get_int16_at get_int32_at get_int64_at get_float_at get_double_at
get_value_at-read_at int16 idx b = refl
get_value_at-read_at int32 idx b = refl
get_value_at-read_at int64 idx b = refl
get_value_at-read_at float idx b = refl
get_value_at-read_at double idx b = refl

put_value_at-write_at :
    (w : Width) (idx : ℕ) (v : List ℕ) (b : ByteBuffer)
    → put_value_at w idx v b ≡ write_at (size w) (apply w) idx v b
unfolding put_value_at put_int16_at put_int32_at put_int64_at put_float_at put_double_at
put_value_at-write_at int16 idx v b = refl
put_value_at-write_at int32 idx v b = refl
put_value_at-write_at int64 idx v b = refl
put_value_at-write_at float idx v b = refl
put_value_at-write_at double idx v b = refl

pub size_pos : (w : Width) → 0 < size w
size_pos int16 = omega arith
size_pos int32 = omega arith
size_pos int64 = omega arith
size_pos float = omega arith
size_pos double = omega arith

-- The storage after a write at byte `at`.
abbrev pub written : ByteBuffer → ℕ → List ℕ → ByteBuffer
written b at bytes = record b { base = record b.base { mem = overwrite b.base.mem at bytes } }

pub read_at_lem :
    (n : ℕ) (f : ByteOrder → List ℕ → List ℕ) (idx : ℕ) (b : ByteBuffer)
    → IsValid b.base
    → 0 < n
    → idx + n ≤ b.base.lim
    → (idx * n + n ≤ length b.base.mem
        → read_at n f idx b ≡ done (f b.order (take n (drop (idx * n) b.base.mem))))
      × (length b.base.mem < idx * n + n → read_at n f idx b ≡ fault)
unfolding read_at
read_at_lem n f idx b v p h = (λ k. ground arith, λ k. ground arith)

write_at_lem :
    (n : ℕ) (f : ByteOrder → List ℕ → List ℕ) (idx : ℕ) (x : List ℕ) (b : ByteBuffer)
    → IsValid b.base
    → 0 < n
    → length (f b.order x) ≡ n
    → idx + n ≤ b.base.lim
    → (idx * n + n ≤ length b.base.mem
        → write_at n f idx x b ≡ done (written b (idx * n) (f b.order x)))
      × (length b.base.mem < idx * n + n → write_at n f idx x b ≡ fault)
unfolding write_at
write_at_lem n f idx x b v p e h = (λ k. ground arith, λ k. ground arith)

-- put_T(idx, value) and then get_T(idx) give the value back, for each of the five types and any
-- order: where idx + sizeof(T) lies within the limit and the storage reaches to element idx, both
-- return, the buffer stays valid, and bytes outside that element stay as they were.
pub get_value_at-put_value_at :
    (w : Width) (idx : ℕ) (x : List ℕ) (b : ByteBuffer)
    → IsValid b.base
    → length x ≡ size w
    → idx + size w ≤ b.base.lim
    → idx * size w + size w ≤ length b.base.mem
    → (c : ByteBuffer) × (put_value_at w idx x b ≡ done c)
      × (get_value_at w idx c ≡ done x)
      × IsValid c.base
      × ((j : ℕ)
          → (j < idx * size w) ⊎ (idx * size w + size w ≤ j)
          → get_elem? c.base.mem j ≡ get_elem? b.base.mem j)
get_value_at-put_value_at w idx x b v e h k = (
  c,
  put_value_at-write_at w idx x b
      ∙ (write_at_lem (size w) (apply w) idx x b v (size_pos w) len h).0 k,
  get_value_at-read_at w idx c
      ∙ (read_at_lem (size w) (apply w) idx c cv (size_pos w) h).0 room_c
      ∙ ap (λ l. done (apply w b.order l)) back
      ∙ ap done (apply-apply w b.order x e),
  cv,
  λ j out. get_elem?-overwrite_out b.base.mem (idx * size w) j y (rw len out),
)
  where
    y : List ℕ
    y = apply w b.order x

    len : length y ≡ size w
    len = length-apply w b.order x e

    c : ByteBuffer
    c = written b (idx * size w) y

    cv : IsValid c.base
    cv = ground (arith, length-overwrite b.base.mem (idx * size w) y)

    room_c : idx * size w + size w ≤ length c.base.mem
    room_c = rw (length-overwrite b.base.mem (idx * size w) y) k

    back : take (size w) (drop (idx * size w) c.base.mem) ≡ y
    back =
        subst (λ n. take n (drop (idx * size w) c.base.mem) ≡ y) len
          (take-drop-overwrite b.base.mem (idx * size w) y (rw len k))

-- What put_T(idx, value) leaves in the storage is the value in the buffer's byte order: read in
-- that order the bytes give the number that the machine had, whatever the machine's order.
pub put_value_at-decode :
    (w : Width) (idx : ℕ) (x : List ℕ) (b : ByteBuffer)
    → IsValid b.base
    → IsOrder b.order.endian
    → IsOrder b.order.native
    → length x ≡ size w
    → idx + size w ≤ b.base.lim
    → idx * size w + size w ≤ length b.base.mem
    → (c : ByteBuffer) × (put_value_at w idx x b ≡ done c)
      × (decode b.order.endian (take (size w) (drop (idx * size w) c.base.mem))
          ≡ decode b.order.native x)
put_value_at-decode w idx x b v oe on e h k = (
  written b (idx * size w) y,
  put_value_at-write_at w idx x b
      ∙ (write_at_lem (size w) (apply w) idx x b v (size_pos w) len h).0 k,
  ap (decode b.order.endian) back ∙ decode-apply w b.order x oe on e,
)
  where
    y : List ℕ
    y = apply w b.order x

    len : length y ≡ size w
    len = length-apply w b.order x e

    back : take (size w) (drop (idx * size w) (overwrite b.base.mem (idx * size w) y)) ≡ y
    back =
        subst (λ n. take n (drop (idx * size w) (overwrite b.base.mem (idx * size w) y)) ≡ y) len
          (take-drop-overwrite b.base.mem (idx * size w) y (rw len k))

-- The asserts count bytes and the pointers count elements: on a valid buffer an index that passes
-- the assert (idx + sizeof(T) within the limit) and whose element lies beyond the storage makes both
-- get_T(idx) and put_T(idx, value) touch memory outside it.
pub value_at_outside :
    (w : Width) (idx : ℕ) (x : List ℕ) (b : ByteBuffer)
    → IsValid b.base
    → length x ≡ size w
    → idx + size w ≤ b.base.lim
    → length b.base.mem < idx * size w + size w
    → (get_value_at w idx b ≡ fault) × (put_value_at w idx x b ≡ fault)
value_at_outside w idx x b v e h k = (
  get_value_at-read_at w idx b ∙ (read_at_lem (size w) (apply w) idx b v (size_pos w) h).1 k,
  put_value_at-write_at w idx x b
      ∙ (write_at_lem (size w) (apply w) idx x b v (size_pos w) (length-apply w b.order x e) h).1 k,
)
