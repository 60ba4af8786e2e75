-- ===== src/ByteBuffer/Array.antt =====
-- The arrays of `class ByteBuffer` (src/nio/buffer.cpp).
use taurus.Shared.{
  ℕ, ◌+◌, ◌≤◌, ◌<◌, ◌≡◌, List, length, take, drop, overwrite, length-overwrite, take-drop-overwrite,
  arith, done, abort, fault,
}
use taurus.Buffer.Window.{IsValid}
use taurus.ByteBuffer.{ByteBuffer, get_array, get_array_at, put_array, put_array_at}

-- The two reads of an array assert that the array lies before the bytes and also behind them, which
-- no address does: whatever the buffer, the array and the length, they stop at an assert.
pub get_array_never_returns :
    (idx array len : ℕ) (b : ByteBuffer)
    → (get_array array len b ≡ abort) × (get_array_at idx array len b ≡ abort)
unfolding get_array get_array_at
get_array_never_returns idx array len b = (ground arith, ground arith)

-- put(array, len) on a valid buffer: below the capacity and with room for all of the array it
-- stores the bytes at the position, in order, moves on past them and stays valid; with less room it
-- stops at its assert, and so does it at the end of the capacity, even for an empty array.
pub put_array_lem :
    (xs : List ℕ) (b : ByteBuffer)
    → IsValid b.base
    → (b.base.pos < b.base.cap
        → b.base.pos + length xs ≤ b.base.lim
        → (c : ByteBuffer) × (put_array xs b ≡ done c)
          × (take (length xs) (drop b.base.pos c.base.mem) ≡ xs)
          × (c.base.pos ≡ b.base.pos + length xs)
          × IsValid c.base)
      × (b.base.lim < b.base.pos + length xs → put_array xs b ≡ abort)
      × (b.base.pos ≡ b.base.cap → put_array xs b ≡ abort)
unfolding put_array
put_array_lem xs b v = (
  λ p h. (
    record b {
      base = record b.base {
        pos = b.base.pos + length xs;
        mem = overwrite b.base.mem b.base.pos xs;
      };
    },
    ground arith,
    take-drop-overwrite b.base.mem b.base.pos xs (omega arith),
    omega arith,
    ground (arith, length-overwrite b.base.mem b.base.pos xs),
  ),
  λ h. ground arith,
  λ h. ground arith,
)

-- put(idx, array, len) asserts room for one byte: on a valid buffer and below the limit it stores
-- the whole array as long as the storage holds it, past the limit too, and otherwise touches memory
-- outside the storage.
pub put_array_at_lem :
    (idx : ℕ) (xs : List ℕ) (b : ByteBuffer)
    → IsValid b.base
    → idx < b.base.lim
    → (idx + length xs ≤ length b.base.mem
        → (c : ByteBuffer) × (put_array_at idx xs b ≡ done c)
          × (take (length xs) (drop idx c.base.mem) ≡ xs)
          × (c.base.lim ≡ b.base.lim)
          × (c.base.pos ≡ b.base.pos))
      × (length b.base.mem < idx + length xs → put_array_at idx xs b ≡ fault)
unfolding put_array_at
put_array_at_lem idx xs b v h = (
  λ k. (
    record b { base = record b.base { mem = overwrite b.base.mem idx xs } },
    ground arith,
    take-drop-overwrite b.base.mem idx xs k,
    omega arith,
    omega arith,
  ),
  λ k. ground arith,
)
