-- ===== src/ByteOrder.antt =====
-- `class ByteOrder` of include/mercury/nio/buffer.h. A value is its bytes as they lie in memory,
-- which is how the operators work on it. `native()` is declared and nowhere defined: the machine's
-- order is a field of the object, set by its constructor.
pub mod Meaning
use taurus.Shared.{ℕ, List, [], ◌∷◌, get_or, ◌==◌, if◌then◌else◌}

abbrev pub little_endian : ℕ
little_endian = 0

abbrev pub big_endian : ℕ
big_endian = 1

pub record ByteOrder : Type 0 where
  pub endian : ℕ
  pub native : ℕ

-- ByteOrder(): what `native()` returned
unfoldable pub native_order : ℕ → ByteOrder
native_order machine = record { endian = machine; native = machine }

-- ByteOrder(int)
unfoldable pub of_order : ℕ → ℕ → ByteOrder
of_order machine order = record { endian = order; native = machine }

abbrev byte : List ℕ → ℕ → ℕ
byte p i = get_or p i 0

unfoldable pub swap2 : List ℕ → List ℕ
swap2 p = byte p 1 ∷ byte p 0 ∷ []

unfoldable pub swap4 : List ℕ → List ℕ
swap4 p = byte p 3 ∷ byte p 2 ∷ byte p 1 ∷ byte p 0 ∷ []

unfoldable pub swap8 : List ℕ → List ℕ
swap8 p = byte p 7 ∷ byte p 6 ∷ byte p 5 ∷ byte p 4 ∷ byte p 3 ∷ byte p 2 ∷ byte p 1 ∷ byte p 0 ∷ []

-- operator()(int16_t) to operator()(double)
unfoldable pub apply_int16 : ByteOrder → List ℕ → List ℕ
apply_int16 o value = if o.endian == o.native then value else swap2 value

unfoldable pub apply_int32 : ByteOrder → List ℕ → List ℕ
apply_int32 o value = if o.endian == o.native then value else swap4 value

unfoldable pub apply_int64 : ByteOrder → List ℕ → List ℕ
apply_int64 o value = if o.endian == o.native then value else swap8 value

unfoldable pub apply_float : ByteOrder → List ℕ → List ℕ
apply_float o value = if o.endian == o.native then value else swap4 value

unfoldable pub apply_double : ByteOrder → List ℕ → List ℕ
apply_double o value = if o.endian == o.native then value else swap8 value
