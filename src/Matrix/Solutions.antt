-- ===== src/Matrix/Solutions.antt =====
-- The solutions of a system of linear equations whose matrix goes through reduced_row_echelon of
-- include/mars/matrix.h.
use taurus.Shared.{
  ℕ, zero, suc, ◌+◌, ◌-◌, ◌≤◌, ◌<◌, ◌≡◌, sym, subst, ◌∙◌, false, ◌==◌, if◌then◌else◌, Bool-cases,
  inl, inr, arith,
}
use taurus.Shared.Int.{pos}
use taurus.Matrix.{Element}
use taurus.Matrix.RowViews.{switched}
use taurus.Matrix.Entries.{==_refl}
use taurus.Matrix.Echelon.{searched, candidate, stepped, reduced}
use taurus.Matrix.Fields.{IsExact}
use taurus.Matrix.Systems.{Kills, row_value, switched_value, Kills-pivoted, pivoted-Kills}

module _ {ℓ} {A : Type ℓ} (e : Element A) (laws : IsExact e) (x : ℕ → A) (rows cols : ℕ) where
  open e use {add, mul, of_int, is_zero}

  -- The same vectors are sent to zero.
  abbrev SameKills : (ℕ → ℕ → A) → (ℕ → ℕ → A) → Type ℓ
  SameKills f g =
      (Kills e rows cols f x → Kills e rows cols g x)
      × (Kills e rows cols g x → Kills e rows cols f x)

  SameKills-trans : (f g h : ℕ → ℕ → A) → SameKills f g → SameKills g h → SameKills f h
  SameKills-trans f g h (a, b) (c, d) = (λ k. c (a k), λ k. b (d k))

  SameKills-switched :
      (r1 r2 : ℕ) (f : ℕ → ℕ → A) → r1 < rows → r2 < rows → SameKills f (switched r1 r2 f)
  SameKills-switched r1 r2 f p q = (to_, from_)
    where
      value :
          (i : ℕ)
          → row_value e cols (switched r1 r2 f) x i ≡ (
              if i == r2
              then row_value e cols f x r1
              else (if i == r1 then row_value e cols f x r2 else row_value e cols f x i))
      value i = switched_value e laws rows cols x r1 r2 f i

      to_ : Kills e rows cols f x → Kills e rows cols (switched r1 r2 f) x
      to_ k i i_in = value i ∙ elim (Bool-cases (i == r2)) [
        | inl second ↦ rw second (k r1 p)
        | inr other ↦ elim (Bool-cases (i == r1)) [
          | inl first ↦ rw (other, first) (k r2 q)
          | inr third ↦ rw (other, third) (k i i_in)
        ]
      ]

      from_ : Kills e rows cols (switched r1 r2 f) x → Kills e rows cols f x
      from_ k i i_in = elim (Bool-cases (i == r1)) [
        | inl first ↦
            subst (λ j. row_value e cols f x j ≡ of_int (pos 0)) {x = r1} (ground arith)
              (rw (==_refl r2) at (sym (value r2) ∙ k r2 q))
        | inr not_first ↦ elim (Bool-cases (i == r2)) [
          | inl second ↦
              let apart : (r1 == r2) ≡ false = ground arith in
              subst (λ j. row_value e cols f x j ≡ of_int (pos 0)) {x = r2} (ground arith)
                (rw (apart, ==_refl r1) at (sym (value r1) ∙ k r1 p))
          | inr third ↦ rw (third, not_first) at (sym (value i) ∙ k i i_in)
        ]
      ]

  SameKills-searched :
      (n r1 r : ℕ) (f : ℕ → ℕ → A) → r < rows → r1 + n ≤ rows → SameKills f (searched e n r1 r f)
  unfolding searched
  SameKills-searched zero r1 r f p q = (λ k. k, λ k. k)
  SameKills-searched (suc n) r1 r f p q = elim (Bool-cases (is_zero (f r1 r1))) [
    | inl zero_ ↦ rw zero_ (SameKills-searched n (suc r1) r f p (omega arith))
    | inr found ↦ rw found (SameKills-switched r r1 f p (omega arith))
  ]

  SameKills-candidate : (r : ℕ) (f : ℕ → ℕ → A) → r < rows → SameKills f (candidate e rows r f)
  SameKills-candidate r f p = elim (Bool-cases (is_zero (f r r))) [
    | inl zero_ ↦ rw zero_ (SameKills-searched (rows - (r + 1)) (r + 1) r f p (omega arith))
    | inr found ↦ rw found (λ k. k, λ k. k)
  ]

  SameKills-stepped : (r : ℕ) (f : ℕ → ℕ → A) → r < rows → SameKills f (stepped e rows r f)
  SameKills-stepped r f p =
      let before = SameKills-candidate r f p in
      elim (Bool-cases (is_zero (candidate e rows r f r r))) [
        | inl skipped ↦ rw skipped before
        | inr pivot ↦ rw pivot (
            SameKills-trans f (candidate e rows r f) _ before (
              λ k. Kills-pivoted e laws rows cols x r (candidate e rows r f) pivot k p,
              λ k. pivoted-Kills e laws rows cols x r (candidate e rows r f) pivot k p,
            ))
      ]

  -- The vectors that the rows send to zero are the same before and after any number of steps.
  pub SameKills-reduced : (n : ℕ) (f : ℕ → ℕ → A) → n ≤ rows → SameKills f (reduced e rows f n)
  SameKills-reduced zero f p = (λ k. k, λ k. k)
  SameKills-reduced (suc n) f p =
      SameKills-trans f (reduced e rows f n) (reduced e rows f (suc n))
        (SameKills-reduced n f (omega arith))
        (SameKills-stepped n (reduced e rows f n) (omega arith))
