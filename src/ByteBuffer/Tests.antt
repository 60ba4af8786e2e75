-- ===== src/ByteBuffer/Tests.antt =====
-- `class ByteBuffer` of src/nio/buffer.cpp and `class ByteOrder` of include/mercury/nio/buffer.h on
-- concrete buffers.
use taurus.Shared.{
  ℕ, zero, suc, ◌>>=◌, ◌+◌, ◌*◌, ◌≤◌, ◌<◌, ◌≡◌, ◌⊎◌, inl, inr, refl, List, [], ◌∷◌, take, drop,
  get_elem?, arith, done, abort,
}
use taurus.ByteOrder.{ByteOrder, little_endian, big_endian}
use taurus.ByteOrder.Meaning.{int16, decode}
use taurus.Buffer.{set_position}
use taurus.Buffer.Window.{IsValid}
use taurus.ByteBuffer.{ByteBuffer, get}
use taurus.ByteBuffer.Chars.{put_all, get_all, cleared, flipped, put_all-flip-get_all}
use taurus.ByteBuffer.Values.{
  get_value_at, put_value_at, get_value_at-put_value_at, put_value_at-decode,
}
use taurus.ByteBuffer.Safety.{
  Op, limiting, positioning, getting, putting, perform_all, IsInside, Keeps, perform_all-Keeps,
}
use taurus.ByteBuffer.Relative.{get_value, put_value}
use taurus.ByteBuffer.Sequence.{put_values, get_values}
use taurus.ByteBuffer.ReadBack.{Found, get_values-put_values}

-- A little-endian machine and a buffer in network order
abbrev network : ByteOrder
network = record { endian = big_endian; native = little_endian }

abbrev small : ByteBuffer
small = record {
  base = record { addr = 1000; cap = 4; pos = 1; lim = 4; mark = 0; mem = 1 ∷ 2 ∷ 3 ∷ 4 ∷ [] };
  order = network;
}

small-IsValid : IsValid small.base
small-IsValid = record {
  mark_le = omega arith;
  pos_le = omega arith;
  lim_le = omega arith;
  cap_lt = omega arith;
  storage = omega arith;
}

put_all-flip-get_all_example :
    (c : ByteBuffer) × (d : ByteBuffer) × (put_all (7 ∷ 8 ∷ []) (cleared small) ≡ done c)
    × (get_all 2 (flipped c) ≡ done (7 ∷ 8 ∷ [], d))
    × (get d ≡ abort)
    × IsValid d.base
put_all-flip-get_all_example = put_all-flip-get_all (7 ∷ 8 ∷ []) small small-IsValid (omega arith)

get_value_at-put_value_at_example :
    (c : ByteBuffer) × (put_value_at int16 1 (7 ∷ 8 ∷ []) small ≡ done c)
    × (get_value_at int16 1 c ≡ done (7 ∷ 8 ∷ []))
    × IsValid c.base
    × ((j : ℕ)
        → (j < 1 * 2) ⊎ (1 * 2 + 2 ≤ j)
        → get_elem? c.base.mem j ≡ get_elem? small.base.mem j)
get_value_at-put_value_at_example =
    get_value_at-put_value_at int16 1 (7 ∷ 8 ∷ []) small small-IsValid refl (omega arith)
      (omega arith)

put_value_at-decode_example :
    (c : ByteBuffer) × (put_value_at int16 1 (7 ∷ 8 ∷ []) small ≡ done c)
    × (decode big_endian (take 2 (drop (1 * 2) c.base.mem)) ≡ decode little_endian (7 ∷ 8 ∷ []))
put_value_at-decode_example =
    put_value_at-decode int16 1 (7 ∷ 8 ∷ []) small small-IsValid (inr refl) (inl refl) refl
      (omega arith) (omega arith)

abbrev zeros : ℕ → List ℕ
zeros zero = []
zeros (suc n) = 0 ∷ zeros n

-- A buffer with room for two 16-bit numbers, eight positions apart
abbrev wide : ByteBuffer
wide = record {
  base = record { addr = 1000; cap = 36; pos = 1; lim = 36; mark = 0; mem = zeros 36 };
  order = network;
}

wide-IsValid : IsValid wide.base
wide-IsValid = record {
  mark_le = omega arith;
  pos_le = omega arith;
  lim_le = omega arith;
  cap_lt = omega arith;
  storage = omega arith;
}

abbrev pair : List (List ℕ)
pair = (7 ∷ 8 ∷ []) ∷ (9 ∷ 10 ∷ []) ∷ []

get_values-put_values_example :
    (c : ByteBuffer) × (d : ByteBuffer) × (put_values int16 pair wide ≡ done c)
    × IsValid c.base
    × (c.base.pos ≡ 17)
    × Found int16 c 1 pair
    × (take 2 c.base.mem ≡ 0 ∷ 0 ∷ [])
    × ((set_position 1 c.base >>= λ base. get_values int16 2 (record c { base = base }))
        ≡ done (pair, d))
    × (d.base.pos ≡ c.base.pos)
    × ((x : List ℕ)
        → d.base.lim < d.base.pos + 2
        → (get_value int16 d ≡ abort) × (put_value int16 x d ≡ abort))
get_values-put_values_example =
    get_values-put_values int16 pair wide wide-IsValid (refl, (refl, tt)) (omega arith)
      (omega arith)

small-IsInside : IsInside small.base
small-IsInside = record {
  mark_le = omega arith;
  pos_le = omega arith;
  lim_le = omega arith;
  cap_lt = omega arith;
  storage = omega arith;
}

-- The last byte is written, and then the limit is put below the position.
abbrev steps : List Op
steps = positioning 3 ∷ putting 9 ∷ limiting 1 ∷ getting ∷ []

perform_all-Keeps_example :
    ((c : ByteBuffer) × (perform_all steps small ≡ done c) × Keeps small.base c.base)
    ⊎ (perform_all steps small ≡ abort)
perform_all-Keeps_example = perform_all-Keeps steps small small-IsInside
