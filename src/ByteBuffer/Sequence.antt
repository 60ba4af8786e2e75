-- ===== src/ByteBuffer/Sequence.antt =====
-- Numbers that are written one after the other by the relative operations of `class ByteBuffer`
-- (src/nio/buffer.cpp).
use taurus.Shared.{
  ℕ, zero, suc, ◌+◌, ◌*◌, ◌≤◌, ◌<◌, ◌≡◌, refl, ap, ◌∙◌, List, [], ◌∷◌, length, take, drop,
  overwrite, length-overwrite, arith, Outcome, done, abort, ◌>>=◌,
}
use taurus.ByteOrder.{ByteOrder}
use taurus.ByteOrder.Meaning.{Width, int16, int32, int64, float, double, size, apply, length-apply}
use taurus.Buffer.Window.{IsValid}
use taurus.ByteBuffer.{ByteBuffer}
use taurus.ByteBuffer.Numbers.{
  get_int16, get_int32, get_int64, get_float, get_double, put_int16, put_int32, put_int64,
  put_float, put_double,
}
use taurus.ByteBuffer.Relative.{get_value, put_value}

unfoldable pub put_values : Width → List (List ℕ) → ByteBuffer → Outcome ByteBuffer
put_values w [] b = done b
put_values w (x ∷ xs) b = do c ← put_value w x b; put_values w xs c

unfoldable pub get_values : Width → ℕ → ByteBuffer → Outcome (List (List ℕ) × ByteBuffer)
get_values w zero b = done ([], b)
get_values w (suc n) b = do (x, c) ← get_value w b; (xs, d) ← get_values w n c; done (x ∷ xs, d)

-- A buffer with another position and storage
abbrev pub at_with : ByteBuffer → ℕ → List ℕ → ByteBuffer
at_with b q mem = record b { base = record b.base { pos = q; mem = mem } }

-- Every number of a list has the width.
abbrev pub Fit : Width → List (List ℕ) → Type 0
Fit w [] = Unit
Fit w (x ∷ xs) = (length x ≡ size w) × Fit w xs

pub put_value_lem :
    (w : Width) (x : List ℕ) (b : ByteBuffer)
    → IsValid b.base
    → length x ≡ size w
    → b.base.pos + 8 ≤ b.base.lim
    → b.base.pos * size w + size w ≤ length b.base.mem
    → put_value w x b
      ≡ done (
          at_with b
            (b.base.pos + 8)
            (overwrite b.base.mem (b.base.pos * size w) (apply w b.order x)))
unfolding put_value put_int16 put_int32 put_int64 put_float put_double
put_value_lem int16 x b v e h k = let l = length-apply int16 b.order x e in ground (arith, l)
put_value_lem int32 x b v e h k = let l = length-apply int32 b.order x e in ground (arith, l)
put_value_lem int64 x b v e h k = let l = length-apply int64 b.order x e in ground (arith, l)
put_value_lem float x b v e h k = let l = length-apply float b.order x e in ground (arith, l)
put_value_lem double x b v e h k = let l = length-apply double b.order x e in ground (arith, l)

pub get_value_lem :
    (w : Width) (b : ByteBuffer)
    → IsValid b.base
    → b.base.pos + 8 < b.base.lim
    → b.base.pos * size w + size w ≤ length b.base.mem
    → get_value w b
      ≡ done (
        apply w b.order (take (size w) (drop (b.base.pos * size w) b.base.mem)),
        at_with b (b.base.pos + 8) b.base.mem,
      )
unfolding get_value get_int16 get_int32 get_int64 get_float get_double
get_value_lem int16 b v h k = ground arith
get_value_lem int32 b v h k = ground arith
get_value_lem int64 b v h k = ground arith
get_value_lem float b v h k = ground arith
get_value_lem double b v h k = ground arith

-- With fewer than sizeof(T) positions left before the limit both stop at the assert.
pub value_stops :
    (w : Width) (x : List ℕ) (b : ByteBuffer)
    → IsValid b.base
    → b.base.lim < b.base.pos + size w
    → (get_value w b ≡ abort) × (put_value w x b ≡ abort)
unfolding get_value get_int16 get_int32 get_int64 get_float get_double put_value put_int16 put_int32
    put_int64 put_float put_double
value_stops int16 x b v h = ground arith
value_stops int32 x b v h = ground arith
value_stops int64 x b v h = ground arith
value_stops float x b v h = ground arith
value_stops double x b v h = ground arith

-- What lies before the place that is written stays.
take-drop-overwrite_before :
    (xs : List ℕ) (i k : ℕ) (at_ : ℕ) (vs : List ℕ)
    → i + k ≤ at_
    → take k (drop i (overwrite xs at_ vs)) ≡ take k (drop i xs)
take-drop-overwrite_before [] i k at_ vs h = refl
take-drop-overwrite_before (x ∷ xs) zero zero at_ vs h = refl
take-drop-overwrite_before (x ∷ xs) zero (suc k) zero vs h = absurd (omega arith)
take-drop-overwrite_before (x ∷ xs) zero (suc k) (suc at_) vs h =
    ap (◌∷◌ x) (take-drop-overwrite_before xs zero k at_ vs (omega arith))
take-drop-overwrite_before (x ∷ xs) (suc i) k zero vs h = absurd (omega arith)
take-drop-overwrite_before (x ∷ xs) (suc i) k (suc at_) vs h =
    take-drop-overwrite_before xs i k at_ vs (omega arith)

module _ (w : Width) (o : ByteOrder) where
  -- The storage after numbers written from position `q` on, eight positions apart
  unfoldable pub stamped : ℕ → List (List ℕ) → List ℕ → List ℕ
  stamped q [] mem = mem
  stamped q (x ∷ xs) mem = stamped (q + 8) xs (overwrite mem (q * size w) (apply w o x))

  pub length-stamped :
      (q : ℕ) (xs : List (List ℕ)) (mem : List ℕ) → length (stamped q xs mem) ≡ length mem
  unfolding stamped
  length-stamped q [] mem = refl
  length-stamped q (x ∷ xs) mem =
      length-stamped (q + 8) xs (overwrite mem (q * size w) (apply w o x))
      ∙ length-overwrite mem (q * size w) (apply w o x)

  pub stamped_before :
      (i k q : ℕ) (xs : List (List ℕ)) (mem : List ℕ)
      → i + k ≤ q * size w
      → take k (drop i (stamped q xs mem)) ≡ take k (drop i mem)
  unfolding stamped
  stamped_before i k q [] mem h = refl
  stamped_before i k q (x ∷ xs) mem h =
      stamped_before i k (q + 8) xs (overwrite mem (q * size w) (apply w o x)) (later w h)
      ∙ take-drop-overwrite_before mem i k (q * size w) (apply w o x) h
    where
      later : (v : Width) → i + k ≤ q * size v → i + k ≤ (q + 8) * size v
      later int16 h = omega arith
      later int32 h = omega arith
      later int64 h = omega arith
      later float h = omega arith
      later double h = omega arith

  -- The numbers stand in the storage from position `q` on, eight positions apart.
  abbrev pub Lies : ℕ → List (List ℕ) → List ℕ → Type 0
  Lies q [] mem = Unit
  Lies q (x ∷ xs) mem = (take (size w) (drop (q * size w) mem) ≡ apply w o x) × Lies (q + 8) xs mem
