-- ===== src/Matrix/Parity.antt =====
-- The field of two elements, for the tests of include/mars/matrix.h.
use taurus.Shared.{◌%◌, ◌≡◌, refl, Bool, true, false, not, ◌&&◌, ◌==◌}
use taurus.Shared.Int.{ℤ, pos, negsuc}
use taurus.Matrix.{Element}
use taurus.Matrix.Fields.{IsExact}

abbrev pub xor : Bool → Bool → Bool
xor false b = b
xor true b = not b

abbrev pub parity : ℤ → Bool
parity (pos n) = n % 2 == 1
parity (negsuc n) = n % 2 == 0

abbrev pub gf2 : Element Bool
gf2 = record {
  add = xor;
  sub = xor;
  mul = λ a b. a && b;
  div = λ a b. a;
  of_int = parity;
  is_zero = not;
  junk = true;
}

pub and_comm : (a b : Bool) → (a && b) ≡ (b && a)
and_comm true true = refl
and_comm true false = refl
and_comm false true = refl
and_comm false false = refl

xor_assoc : (a b c : Bool) → xor (xor a b) c ≡ xor a (xor b c)
xor_assoc false b c = refl
xor_assoc true false c = refl
xor_assoc true true true = refl
xor_assoc true true false = refl

xor_comm : (a b : Bool) → xor a b ≡ xor b a
xor_comm true true = refl
xor_comm true false = refl
xor_comm false true = refl
xor_comm false false = refl

and_assoc : (a b c : Bool) → ((a && b) && c) ≡ (a && (b && c))
and_assoc false b c = refl
and_assoc true b c = refl

and-xor : (a b c : Bool) → (a && xor b c) ≡ xor (a && b) (a && c)
and-xor false b c = refl
and-xor true b c = refl

twice : (a : Bool) → xor a (a && true) ≡ false
twice true = refl
twice false = refl

divides : (a b : Bool) → not b ≡ false → (b && a) ≡ a
divides a true h = refl
divides a false h = cc

pub gf2-IsExact : IsExact gf2
gf2-IsExact = record {
  add_assoc = xor_assoc;
  add_comm = xor_comm;
  zero_add = λ a. refl;
  negate = twice;
  mul_assoc = and_assoc;
  mul_comm = and_comm;
  one_mul = λ a. refl;
  mul_add = and-xor;
  mul_div = divides;
}
