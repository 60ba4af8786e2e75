-- ===== src/Matrix/Fields.antt =====
-- The laws of a field that elimination in include/mars/matrix.h rests on, and sums over it.
use taurus.Shared.{ℕ, zero, suc, ◌<◌, ◌≡◌, refl, sym, ap, ap₂, ◌∙◌, false, arith}
use taurus.Shared.Int.{pos, negsuc}
use taurus.Matrix.{Element}
use taurus.Matrix.Identity.{IsField}
use taurus.Matrix.Products.{sum}

-- Commutative ring laws with T(-1) as the factor that negates, and division by what is not zero
pub record IsExact {ℓ} {A : Type ℓ} (e : Element A) : Type ℓ where
  pub add_assoc :
      (a b c : A) → Element.add e (Element.add e a b) c ≡ Element.add e a (Element.add e b c)
  pub add_comm : (a b : A) → Element.add e a b ≡ Element.add e b a
  pub zero_add : (a : A) → Element.add e (Element.of_int e (pos 0)) a ≡ a
  pub negate :
      (a : A)
      → Element.add e a (Element.mul e a (Element.of_int e (negsuc 0))) ≡ Element.of_int e (pos 0)
  pub mul_assoc :
      (a b c : A) → Element.mul e (Element.mul e a b) c ≡ Element.mul e a (Element.mul e b c)
  pub mul_comm : (a b : A) → Element.mul e a b ≡ Element.mul e b a
  pub one_mul : (a : A) → Element.mul e (Element.of_int e (pos 1)) a ≡ a
  pub mul_add :
      (a b c : A)
      → Element.mul e a (Element.add e b c) ≡ Element.add e (Element.mul e a b) (Element.mul e a c)
  pub mul_div : (a b : A) → Element.is_zero e b ≡ false → Element.mul e b (Element.div e a b) ≡ a

module _ {ℓ} {A : Type ℓ} (e : Element A) (laws : IsExact e) where
  open e use {add, mul, div, of_int, is_zero}
  open laws use {
    add_assoc, add_comm, zero_add, negate, mul_assoc, mul_comm, one_mul, mul_add, mul_div,
  }

  pub add_zero : (a : A) → add a (of_int (pos 0)) ≡ a
  add_zero a = add_comm a (of_int (pos 0)) ∙ zero_add a

  -- What is added to itself without a change is zero.
  idle_zero : (a : A) → add a a ≡ a → a ≡ of_int (pos 0)
  idle_zero a h =
      sym (add_zero a)
      ∙ ap (add a) (sym (negate a))
      ∙ sym (add_assoc a a (mul a (of_int (negsuc 0))))
      ∙ ap (λ x. add x (mul a (of_int (negsuc 0)))) h
      ∙ negate a

  pub mul_zero : (a : A) → mul a (of_int (pos 0)) ≡ of_int (pos 0)
  mul_zero a =
      idle_zero (mul a (of_int (pos 0)))
        (sym (mul_add a (of_int (pos 0)) (of_int (pos 0))) ∙ ap (mul a) (zero_add (of_int (pos 0))))

  pub zero_mul : (a : A) → mul (of_int (pos 0)) a ≡ of_int (pos 0)
  zero_mul a = mul_comm (of_int (pos 0)) a ∙ mul_zero a

  pub add_mul : (a b c : A) → mul (add a b) c ≡ add (mul a c) (mul b c)
  add_mul a b c = mul_comm (add a b) c ∙ mul_add c a b ∙ ap₂ add (mul_comm c a) (mul_comm c b)

  -- A difference is zero exactly of equals.
  pub negate_eq : (a b : A) → add a (mul b (of_int (negsuc 0))) ≡ of_int (pos 0) → a ≡ b
  negate_eq a b h =
      sym (add_zero a)
      ∙ ap (add a) (sym (negate b) ∙ add_comm b (mul b (of_int (negsuc 0))))
      ∙ sym (add_assoc a (mul b (of_int (negsuc 0))) b)
      ∙ ap (λ x. add x b) h
      ∙ zero_add b

  -- Factors other than zero cancel.
  mul_cancel : (b x y : A) → is_zero b ≡ false → mul b x ≡ mul b y → x ≡ y
  mul_cancel b x y h eq = sym (undone x) ∙ ap (mul (div (of_int (pos 1)) b)) eq ∙ undone y
    where
      undone : (z : A) → mul (div (of_int (pos 1)) b) (mul b z) ≡ z
      undone z =
          sym (mul_assoc (div (of_int (pos 1)) b) b z)
          ∙ ap (λ u. mul u z) (mul_comm (div (of_int (pos 1)) b) b ∙ mul_div (of_int (pos 1)) b h)
          ∙ one_mul z

  -- The quotients by one divisor are the products with one factor.
  pub div_as_mul : (a b : A) → is_zero b ≡ false → div a b ≡ mul (div (of_int (pos 1)) b) a
  div_as_mul a b h = mul_cancel b (div a b) (mul (div (of_int (pos 1)) b) a) h (
      mul_div a b h
      ∙ sym (one_mul a)
      ∙ ap (λ u. mul u a) (sym (mul_div (of_int (pos 1)) b h))
      ∙ mul_assoc b (div (of_int (pos 1)) b) a)

  pub exact-IsField : IsField e
  exact-IsField = record {
    div_self = λ a h.
        div_as_mul a a h ∙ mul_comm (div (of_int (pos 1)) a) a ∙ mul_div (of_int (pos 1)) a h;
    div_zero = λ a h. div_as_mul (of_int (pos 0)) a h ∙ mul_zero (div (of_int (pos 1)) a);
    mul_zero = zero_mul;
    add_zero = zero_add;
    cancels = λ a.
        ap (λ x. add x a) (one_mul (mul a (of_int (negsuc 0))))
        ∙ add_comm (mul a (of_int (negsuc 0))) a
        ∙ negate a;
  }

  -- Sums of equal terms, of multiples, of sums, and of one term
  pub sum_congr : (f g : ℕ → A) (n : ℕ) → ((t : ℕ) → t < n → f t ≡ g t) → sum e f n ≡ sum e g n
  sum_congr f g zero h = refl
  sum_congr f g (suc n) h = ap₂ add (sum_congr f g n (λ t p. h t (omega arith))) (h n (omega arith))

  pub sum-mul : (c : A) (f : ℕ → A) (n : ℕ) → sum e (λ t. mul c (f t)) n ≡ mul c (sum e f n)
  sum-mul c f zero = sym (mul_zero c)
  sum-mul c f (suc n) =
      ap (λ x. add x (mul c (f n))) (sum-mul c f n) ∙ sym (mul_add c (sum e f n) (f n))

  interchange : (a b c d : A) → add (add a b) (add c d) ≡ add (add a c) (add b d)
  interchange a b c d =
      add_assoc a b (add c d)
      ∙ ap (add a) (sym (add_assoc b c d) ∙ ap (λ x. add x d) (add_comm b c) ∙ add_assoc c b d)
      ∙ sym (add_assoc a c (add b d))

  pub sum-add : (f g : ℕ → A) (n : ℕ) → sum e (λ t. add (f t) (g t)) n ≡ add (sum e f n) (sum e g n)
  sum-add f g zero = sym (zero_add (of_int (pos 0)))
  sum-add f g (suc n) =
      ap (λ x. add x (add (f n) (g n))) (sum-add f g n)
      ∙ interchange (sum e f n) (sum e g n) (f n) (g n)
