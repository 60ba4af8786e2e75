-- ===== src/Buffer.antt =====
-- `class Buffer` of include/mercury/nio/buffer.h: a window on storage of the caller. The object
-- holds the address `addr` of the storage; `mem` is what the storage contains, as many bytes as the
-- caller really gave, whatever capacity it claimed. `size_t` is taken mod 2^64.
pub mod Window
mod Tests
use taurus.Shared.{
  ℕ, ◌+◌, ◌-◌, ◌*◌, ◌%◌, ◌^◌, Bool, List, [], length, take, drop, overwrite, ltb, leb, Outcome,
  done, ◌>>=◌, ◌>>◌, check, access,
}

pub record Buffer : Type 0 where
  pub addr : ℕ
  pub cap : ℕ
  pub pos : ℕ
  pub lim : ℕ
  pub mark : ℕ
  pub mem : List ℕ

abbrev pub size_mod : ℕ
size_mod = 2 ^ 64

-- Buffer(): no storage at all
unfoldable pub empty : Buffer
empty = record { addr = 0; cap = 0; pos = 0; lim = 0; mark = 0; mem = [] }

-- Buffer(void *, size_t)
unfoldable pub wrap : ℕ → List ℕ → ℕ → Buffer
wrap addr mem cap = record { addr = addr; cap = cap; pos = 0; lim = cap; mark = 0; mem = mem }

-- ~Buffer(): the storage stays the caller's
unfoldable pub destroy : Buffer → Buffer
destroy b = record b { addr = 0; cap = 0; pos = 0; lim = 0; mark = 0; mem = [] }

unfoldable pub clear : Buffer → Buffer
clear b = record b { pos = 0; lim = b.cap; mark = 0 }

unfoldable pub flip : Buffer → Buffer
flip b = record b { lim = b.pos; pos = 0; mark = 0 }

-- limit(size_t)
unfoldable pub set_limit : ℕ → Buffer → Outcome Buffer
set_limit newlim b = do check (leb newlim b.cap); done (record b { lim = newlim })

-- mark()
unfoldable pub set_mark : Buffer → Buffer
set_mark b = record b { mark = b.pos }

-- position(size_t)
unfoldable pub set_position : ℕ → Buffer → Outcome Buffer
set_position newpos b = do check (ltb newpos b.lim); done (record b { pos = newpos })

-- remaining(): an unsigned difference
unfoldable pub remaining : Buffer → ℕ
remaining b = (size_mod + b.lim - b.pos) % size_mod

unfoldable pub reset : Buffer → Buffer
reset b = record b { pos = b.mark }

unfoldable pub rewind : Buffer → Buffer
rewind b = record b { pos = 0; mark = 0 }

-- get<T>(index) with sizeof(T) = size: `(T *)m_buf + index` counts in elements of T. The result is
-- the distance from the start of the storage, in bytes.
unfoldable pub locate : ℕ → ℕ → Buffer → Outcome ℕ
locate size index b = do check (ltb index b.cap); done (index * size)

-- Reading and writing through the pointer, defined within the storage only.
unfoldable pub load : ℕ → ℕ → Buffer → Outcome (List ℕ)
load at n b = do access (leb (at + n) (length b.mem)); done (take n (drop at b.mem))

unfoldable pub store : ℕ → List ℕ → Buffer → Outcome Buffer
store at bytes b = do
  access (leb (at + length bytes) (length b.mem))
  done (record b { mem = overwrite b.mem at bytes })
