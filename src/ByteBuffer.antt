-- ===== src/ByteBuffer.antt =====
-- `class ByteBuffer`: include/mercury/nio/buffer.h and src/nio/buffer.cpp. Multi-byte values are the
-- bytes that lie in memory. Every `assert` is taken to be compiled in, as CMakeLists.txt has it.
pub mod Numbers
pub mod Chars
pub mod Values
pub mod Relative
pub mod Sequence
pub mod ReadBack
pub mod Array
pub mod Safety
mod Tests
use taurus.Shared.{
  ℕ, ◌+◌, ◌-◌, ◌%◌, Bool, List, [], ◌∷◌, get_or, length, ltb, leb, ◌&&◌, if◌then◌else◌, Outcome,
  done, ◌>>=◌, ◌>>◌, check,
}
use taurus.ByteOrder.{ByteOrder, native_order}
use taurus.Buffer.{Buffer, size_mod, empty, wrap, remaining, locate, load, store}

pub record ByteBuffer : Type 0 where
  pub base : Buffer
  pub order : ByteOrder

-- The four constructors.
unfoldable pub byte_buffer : ℕ → ByteBuffer
unfolding empty native_order
byte_buffer machine = record { base = empty; order = native_order machine }

unfoldable pub byte_buffer_ordered : ByteOrder → ByteBuffer
unfolding empty
byte_buffer_ordered o = record { base = empty; order = o }

unfoldable pub byte_buffer_on : ℕ → ℕ → List ℕ → ℕ → ByteBuffer
unfolding wrap native_order
byte_buffer_on machine addr mem cap = record {
  base = wrap addr mem cap;
  order = native_order machine;
}

unfoldable pub byte_buffer_on_ordered : ByteOrder → ℕ → List ℕ → ℕ → ByteBuffer
unfolding wrap
byte_buffer_on_ordered o addr mem cap = record { base = wrap addr mem cap; order = o }

-- order(const ByteOrder &)
unfoldable pub set_order : ByteOrder → ByteBuffer → ByteBuffer
set_order o b = record b { order = o }

-- m_pos += n
abbrev pub advance : ℕ → Buffer → Buffer
advance n b = record b { pos = (b.pos + n) % size_mod }

-- limit() - idx, unsigned
unfoldable pub room : ℕ → Buffer → ℕ
room idx b = (size_mod + b.lim - idx) % size_mod

-- ptr() and ptr(size_t), as the distance from the start of the storage
unfoldable pub ptr : ByteBuffer → Outcome ℕ
unfolding locate
ptr b = locate 1 b.base.pos b.base

unfoldable pub ptr_at : ℕ → ByteBuffer → Outcome ℕ
unfolding locate
ptr_at idx b = locate 1 idx b.base

-- get()
unfoldable pub get : ByteBuffer → Outcome (ℕ × ByteBuffer)
unfolding remaining locate load
get b = do
  check (leb 1 (remaining b.base))
  at ← locate 1 b.base.pos b.base
  v ← load at 1 b.base
  done (get_or v 0 0, record b { base = advance 1 b.base })

-- get(size_t idx)
unfoldable pub get_at : ℕ → ByteBuffer → Outcome ℕ
unfolding locate load
get_at idx b = do at ← locate 1 idx b.base; v ← load at 1 b.base; done (get_or v 0 0)

-- assert( array < p && array >= p + len ), on addresses
abbrev pub apart : ℕ → ℕ → ℕ → Bool
apart array p len = ltb array p && leb (p + len) array

-- get(char *array, size_t len): the length returned and what went to the array
unfoldable pub get_array : ℕ → ℕ → ByteBuffer → Outcome (ℕ × List ℕ × ByteBuffer)
unfolding remaining locate load
get_array array len b = do
  let remain = remaining b.base
  let n = if ltb remain len then remain else len
  at ← locate 1 b.base.pos b.base
  check (apart array (b.base.addr + at) n)
  v ← load at n b.base
  done (n, v, record b { base = advance n b.base })

-- get(size_t idx, char *array, size_t len): it reads at the position, not at `idx`
unfoldable pub get_array_at : ℕ → ℕ → ℕ → ByteBuffer → Outcome (ℕ × List ℕ)
unfolding room locate load
get_array_at idx array len b = do
  let remain = room idx b.base
  let n = if ltb remain len then remain else len
  at ← locate 1 b.base.pos b.base
  check (apart array (b.base.addr + at) n)
  v ← load at n b.base
  done (n, v)

-- put(char)
unfoldable pub put : ℕ → ByteBuffer → Outcome ByteBuffer
unfolding remaining locate store
put ch b = do
  check (leb 1 (remaining b.base))
  at ← locate 1 b.base.pos b.base
  c ← store at (ch ∷ []) b.base
  done (record b { base = advance 1 c })

-- put(size_t, char)
unfoldable pub put_at : ℕ → ℕ → ByteBuffer → Outcome ByteBuffer
unfolding room locate store
put_at idx ch b = do
  check (leb 1 (room idx b.base))
  at ← locate 1 idx b.base
  c ← store at (ch ∷ []) b.base
  done (record b { base = c })

-- put(const char *, size_t)
unfoldable pub put_array : List ℕ → ByteBuffer → Outcome ByteBuffer
unfolding remaining locate store
put_array array b = do
  check (leb (length array) (remaining b.base))
  at ← locate 1 b.base.pos b.base
  c ← store at array b.base
  done (record b { base = advance (length array) c })

-- put(size_t, const char *, size_t): the assert asks for room for one byte only
unfoldable pub put_array_at : ℕ → List ℕ → ByteBuffer → Outcome ByteBuffer
unfolding room locate store
put_array_at idx array b = do
  check (leb 1 (room idx b.base))
  at ← locate 1 idx b.base
  c ← store at array b.base
  done (record b { base = c })
