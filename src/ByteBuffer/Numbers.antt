-- ===== src/ByteBuffer/Numbers.antt =====
-- The reads and writes of numbers of `class ByteBuffer` (src/nio/buffer.cpp). A number is the bytes
-- that it has in the memory of the machine.
use taurus.Shared.{ℕ, Bool, List, ltb, leb, Outcome, done, ◌>>=◌, ◌>>◌, check}
use taurus.ByteOrder.{ByteOrder, apply_int16, apply_int32, apply_int64, apply_float, apply_double}
use taurus.Buffer.{remaining, locate, load, store}
use taurus.ByteBuffer.{ByteBuffer, advance, room}

-- What the relative and absolute reads of a number share. All of them advance the position by
-- `sizeof(sizeof(T))`, which is the size of a `size_t`.
unfoldable pub read_next :
    ℕ → Bool → (ByteOrder → List ℕ → List ℕ) → ByteBuffer → Outcome (List ℕ × ByteBuffer)
unfolding locate load
read_next size fits ord b = do
  check fits
  at ← locate size b.base.pos b.base
  v ← load at size b.base
  done (ord b.order v, record b { base = advance 8 b.base })

unfoldable pub read_at : ℕ → (ByteOrder → List ℕ → List ℕ) → ℕ → ByteBuffer → Outcome (List ℕ)
unfolding room locate load
read_at size ord idx b = do
  check (leb size (room idx b.base))
  at ← locate size idx b.base
  v ← load at size b.base
  done (ord b.order v)

unfoldable pub get_int16 : ByteBuffer → Outcome (List ℕ × ByteBuffer)
unfolding read_next remaining
get_int16 b = read_next 2 (leb 2 (remaining b.base)) apply_int16 b

unfoldable pub get_int16_at : ℕ → ByteBuffer → Outcome (List ℕ)
unfolding read_at
get_int16_at = read_at 2 apply_int16

unfoldable pub get_int32 : ByteBuffer → Outcome (List ℕ × ByteBuffer)
unfolding read_next remaining
get_int32 b = read_next 4 (leb 4 (remaining b.base)) apply_int32 b

unfoldable pub get_int32_at : ℕ → ByteBuffer → Outcome (List ℕ)
unfolding read_at
get_int32_at = read_at 4 apply_int32

-- the one assert that is strict
unfoldable pub get_int64 : ByteBuffer → Outcome (List ℕ × ByteBuffer)
unfolding read_next remaining
get_int64 b = read_next 8 (ltb 8 (remaining b.base)) apply_int64 b

unfoldable pub get_int64_at : ℕ → ByteBuffer → Outcome (List ℕ)
unfolding read_at
get_int64_at = read_at 8 apply_int64

unfoldable pub get_float : ByteBuffer → Outcome (List ℕ × ByteBuffer)
unfolding read_next remaining
get_float b = read_next 4 (leb 4 (remaining b.base)) apply_float b

unfoldable pub get_float_at : ℕ → ByteBuffer → Outcome (List ℕ)
unfolding read_at
get_float_at = read_at 4 apply_float

unfoldable pub get_double : ByteBuffer → Outcome (List ℕ × ByteBuffer)
unfolding read_next remaining
get_double b = read_next 8 (leb 8 (remaining b.base)) apply_double b

unfoldable pub get_double_at : ℕ → ByteBuffer → Outcome (List ℕ)
unfolding read_at
get_double_at = read_at 8 apply_double

-- What the writes of a number share.
unfoldable pub write_next :
    ℕ → (ByteOrder → List ℕ → List ℕ) → List ℕ → ByteBuffer → Outcome ByteBuffer
unfolding remaining locate store
write_next size ord value b = do
  check (leb size (remaining b.base))
  at ← locate size b.base.pos b.base
  c ← store at (ord b.order value) b.base
  done (record b { base = advance 8 c })

unfoldable pub write_at :
    ℕ → (ByteOrder → List ℕ → List ℕ) → ℕ → List ℕ → ByteBuffer → Outcome ByteBuffer
unfolding room locate store
write_at size ord idx value b = do
  check (leb size (room idx b.base))
  at ← locate size idx b.base
  c ← store at (ord b.order value) b.base
  done (record b { base = c })

unfoldable pub put_int16 : List ℕ → ByteBuffer → Outcome ByteBuffer
unfolding write_next
put_int16 = write_next 2 apply_int16

unfoldable pub put_int16_at : ℕ → List ℕ → ByteBuffer → Outcome ByteBuffer
unfolding write_at
put_int16_at = write_at 2 apply_int16

unfoldable pub put_int32 : List ℕ → ByteBuffer → Outcome ByteBuffer
unfolding write_next
put_int32 = write_next 4 apply_int32

unfoldable pub put_int32_at : ℕ → List ℕ → ByteBuffer → Outcome ByteBuffer
unfolding write_at
put_int32_at = write_at 4 apply_int32

unfoldable pub put_int64 : List ℕ → ByteBuffer → Outcome ByteBuffer
unfolding write_next
put_int64 = write_next 8 apply_int64

unfoldable pub put_int64_at : ℕ → List ℕ → ByteBuffer → Outcome ByteBuffer
unfolding write_at
put_int64_at = write_at 8 apply_int64

unfoldable pub put_float : List ℕ → ByteBuffer → Outcome ByteBuffer
unfolding write_next
put_float = write_next 4 apply_float

unfoldable pub put_float_at : ℕ → List ℕ → ByteBuffer → Outcome ByteBuffer
unfolding write_at
put_float_at = write_at 4 apply_float

unfoldable pub put_double : List ℕ → ByteBuffer → Outcome ByteBuffer
unfolding write_next
put_double = write_next 8 apply_double

unfoldable pub put_double_at : ℕ → List ℕ → ByteBuffer → Outcome ByteBuffer
unfolding write_at
put_double_at = write_at 8 apply_double
