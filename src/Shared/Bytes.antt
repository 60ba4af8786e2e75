-- ===== src/Shared/Bytes.antt =====
-- Texts as lists of bytes, and the decimal print of an integer by an output stream.
use Prim.Native.Nat.{ℕ, zero, suc, ◌+◌, ◌/◌, ◌%◌}
use Prim.Native.Char.{code}
use Prim.Native.String.{String}
use mathlib.Core.List.{List, [], ◌∷◌, ◌++◌}
use taurus.Shared.Tests.{ltb, if◌then◌else◌}

abbrev pub Text : Type 0
Text = List ℕ

-- The bytes of an ASCII literal.
abbrev pub codes : String → Text
codes String.[] = []
codes (String.◌∷◌ c s) = code c ∷ codes s

-- Decimal digits, most significant first; `n + 1` rounds are more than there are digits.
unfoldable pub digits_from : ℕ → ℕ → Text
digits_from zero n = []
digits_from (suc f) n =
    let rest = digits_from f (n / 10) ++ (b'0' + n % 10) ∷ [] in
    if ltb n 10 then (b'0' + n) ∷ [] else rest

unfoldable pub digits : ℕ → Text
unfolding digits_from
digits n = digits_from (suc n) n
