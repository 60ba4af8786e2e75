-- ===== src/ByteBuffer/Relative.antt =====
-- The relative reads and writes of numbers of `class ByteBuffer` (src/nio/buffer.cpp).
use taurus.Shared.{
  ℕ, ◌+◌, ◌*◌, ◌%◌, ◌≤◌, ◌<◌, ◌≡◌, Bool, List, length, take, drop, arith, Outcome, done, abort,
}
use taurus.ByteOrder.{ByteOrder, apply_int16, apply_int32, apply_int64, apply_float, apply_double}
use taurus.ByteOrder.Meaning.{Width, int16, int32, int64, float, double, size}
use taurus.Buffer.{size_mod}
use taurus.Buffer.Window.{IsValid}
use taurus.ByteBuffer.{ByteBuffer, advance}
use taurus.ByteBuffer.Numbers.{
  read_next, write_next, get_int16, get_int32, get_int64, get_float, get_double, put_int16,
  put_int32, put_int64, put_float, put_double,
}

unfoldable pub get_value : Width → ByteBuffer → Outcome (List ℕ × ByteBuffer)
get_value int16 = get_int16
get_value int32 = get_int32
get_value int64 = get_int64
get_value float = get_float
get_value double = get_double

unfoldable pub put_value : Width → List ℕ → ByteBuffer → Outcome ByteBuffer
put_value int16 = put_int16
put_value int32 = put_int32
put_value int64 = put_int64
put_value float = put_float
put_value double = put_double

read_next_advances :
    (n : ℕ) (fits : Bool) (f : ByteOrder → List ℕ → List ℕ) (b : ByteBuffer) (y : List ℕ)
    (c : ByteBuffer)
    → read_next n fits f b ≡ done (y, c)
    → (c.base.pos ≡ (b.base.pos + 8) % size_mod)
      × (c.base.mem ≡ b.base.mem)
      × (c.base.lim ≡ b.base.lim)
unfolding read_next
read_next_advances n fits f b y c h = ground arith

write_next_advances :
    (n : ℕ) (f : ByteOrder → List ℕ → List ℕ) (x : List ℕ) (b c : ByteBuffer)
    → write_next n f x b ≡ done c
    → (c.base.pos ≡ (b.base.pos + 8) % size_mod) × (c.base.lim ≡ b.base.lim)
unfolding write_next
write_next_advances n f x b c h = ground arith

-- Every relative read that returns has moved the position on by eight, mod 2^64, whatever the type, and
-- so has every relative write; a read leaves the storage and the limit alone.
pub value_advances_eight :
    (w : Width) (x : List ℕ) (b : ByteBuffer)
    → ((y : List ℕ) (c : ByteBuffer)
        → get_value w b ≡ done (y, c)
        → (c.base.pos ≡ (b.base.pos + 8) % size_mod)
          × (c.base.mem ≡ b.base.mem)
          × (c.base.lim ≡ b.base.lim))
      × ((c : ByteBuffer)
          → put_value w x b ≡ done c
          → (c.base.pos ≡ (b.base.pos + 8) % size_mod) × (c.base.lim ≡ b.base.lim))
unfolding get_value get_int16 get_int32 get_int64 get_float get_double put_value put_int16 put_int32
    put_int64 put_float put_double
value_advances_eight int16 x b =
    (read_next_advances 2 _ apply_int16 b, write_next_advances 2 apply_int16 x b)
value_advances_eight int32 x b =
    (read_next_advances 4 _ apply_int32 b, write_next_advances 4 apply_int32 x b)
value_advances_eight int64 x b =
    (read_next_advances 8 _ apply_int64 b, write_next_advances 8 apply_int64 x b)
value_advances_eight float x b =
    (read_next_advances 4 _ apply_float b, write_next_advances 4 apply_float x b)
value_advances_eight double x b =
    (read_next_advances 8 _ apply_double b, write_next_advances 8 apply_double x b)

-- A type shorter than eight bytes, read where it still fits before the limit but eight bytes do
-- not, leaves the position beyond the limit: the buffer is no longer valid.
pub get_value_overshoots :
    (w : Width) (b : ByteBuffer)
    → IsValid b.base
    → size w < 8
    → b.base.pos + size w ≤ b.base.lim
    → b.base.lim < b.base.pos + 8
    → b.base.pos * size w + size w ≤ length b.base.mem
    → b.base.pos + 8 < size_mod
    → (y : List ℕ) × (c : ByteBuffer) × (get_value w b ≡ done (y, c)) × ¬ IsValid c.base
unfolding get_value get_int16 get_int32 get_float
get_value_overshoots int16 b v s h o m k = (
  apply_int16 b.order (take 2 (drop (b.base.pos * 2) b.base.mem)),
  record b { base = advance 8 b.base },
  ground arith,
  λ v'. omega arith,
)
get_value_overshoots int32 b v s h o m k = (
  apply_int32 b.order (take 4 (drop (b.base.pos * 4) b.base.mem)),
  record b { base = advance 8 b.base },
  ground arith,
  λ v'. omega arith,
)
get_value_overshoots float b v s h o m k = (
  apply_float b.order (take 4 (drop (b.base.pos * 4) b.base.mem)),
  record b { base = advance 8 b.base },
  ground arith,
  λ v'. omega arith,
)
get_value_overshoots int64 b v s h o m k = absurd (omega arith)
get_value_overshoots double b v s h o m k = absurd (omega arith)

-- get_int64() asserts more than eight bytes: the eight that put_int64 wrote last, just before the
-- limit, stop the read at its assert, though the same bytes are a double that get_double() accepts.
pub get_int64_last :
    (b : ByteBuffer)
    → IsValid b.base
    → b.base.pos + 8 ≡ b.base.lim
    → b.base.pos * 8 + 8 ≤ length b.base.mem
    → (get_int64 b ≡ abort) × ((y : List ℕ) × (c : ByteBuffer) × (get_double b ≡ done (y, c)))
unfolding get_int64 get_double
get_int64_last b v h m = (
  ground arith,
  (
    apply_double b.order (take 8 (drop (b.base.pos * 8) b.base.mem)),
    record b { base = advance 8 b.base },
    ground arith,
  ),
)
