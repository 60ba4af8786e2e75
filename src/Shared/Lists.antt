-- ===== src/Shared/Lists.antt =====
-- Lists measured and indexed by native numbers, under the library's names.
use Prim.Native.Nat.{ℕ, zero, suc, ◌+◌, ◌<◌, ◌≤◌}
use mathlib.Core.Path.{◌≡◌, refl, sym, ap, ◌∙◌}
use mathlib.Core.Logic.{◌⊎◌}
use mathlib.Core.List.{List, [], ◌∷◌, ◌++◌, reverse, reverse_aux}
use mathlib.Core.Option.{Option, none, some}
use native.Mathlib.Omega.{arith}

module _ {ℓ} {A : Type ℓ} where
  abbrev pub length : List A → ℕ
  length [] = 0
  length (x ∷ xs) = suc (length xs)

  abbrev pub get_elem? : List A → ℕ → Option A
  get_elem? [] i = none
  get_elem? (x ∷ xs) zero = some x
  get_elem? (x ∷ xs) (suc i) = get_elem? xs i

  abbrev pub get_or : List A → ℕ → A → A
  get_or [] i d = d
  get_or (x ∷ xs) zero d = x
  get_or (x ∷ xs) (suc i) d = get_or xs i d

  abbrev pub take : ℕ → List A → List A
  take zero xs = []
  take (suc n) [] = []
  take (suc n) (x ∷ xs) = x ∷ take n xs

  abbrev pub drop : ℕ → List A → List A
  drop zero xs = xs
  drop (suc n) [] = []
  drop (suc n) (x ∷ xs) = drop n xs

  -- The list `vs` written over `xs` from index `i` on; what goes beyond the end is lost.
  abbrev pub overwrite : List A → ℕ → List A → List A
  overwrite [] i vs = []
  overwrite (x ∷ xs) zero [] = x ∷ xs
  overwrite (x ∷ xs) zero (v ∷ vs) = v ∷ overwrite xs zero vs
  overwrite (x ∷ xs) (suc i) vs = x ∷ overwrite xs i vs

  pub length-append : (xs ys : List A) → length (xs ++ ys) ≡ length xs + length ys
  length-append [] ys = omega arith
  length-append (x ∷ xs) ys = omega (arith, length-append xs ys)

  pub length-overwrite :
      (xs : List A) (i : ℕ) (vs : List A) → length (overwrite xs i vs) ≡ length xs
  length-overwrite [] i vs = refl
  length-overwrite (x ∷ xs) zero [] = refl
  length-overwrite (x ∷ xs) zero (v ∷ vs) = ap suc (length-overwrite xs zero vs)
  length-overwrite (x ∷ xs) (suc i) vs = ap suc (length-overwrite xs i vs)

  pub overwrite-nil : (xs : List A) (i : ℕ) → overwrite xs i [] ≡ xs
  overwrite-nil [] i = refl
  overwrite-nil (x ∷ xs) zero = refl
  overwrite-nil (x ∷ xs) (suc i) = ap (◌∷◌ x) (overwrite-nil xs i)

  -- What was written is read back.
  pub take-drop-overwrite :
      (xs : List A) (i : ℕ) (vs : List A)
      → i + length vs ≤ length xs
      → take (length vs) (drop i (overwrite xs i vs)) ≡ vs
  take-drop-overwrite [] zero [] h = refl
  take-drop-overwrite [] (suc i) [] h = refl
  take-drop-overwrite [] i (v ∷ vs) h = absurd (omega arith)
  take-drop-overwrite (x ∷ xs) zero [] h = refl
  take-drop-overwrite (x ∷ xs) zero (v ∷ vs) h =
      ap (◌∷◌ v) (take-drop-overwrite xs zero vs (omega arith))
  take-drop-overwrite (x ∷ xs) (suc i) vs h = take-drop-overwrite xs i vs (omega arith)

  pub length-take-drop :
      (xs : List A) (i n : ℕ) → i + n ≤ length xs → length (take n (drop i xs)) ≡ n
  length-take-drop xs i zero h = refl
  length-take-drop [] i (suc n) h = absurd (omega arith)
  length-take-drop (x ∷ xs) zero (suc n) h = ap suc (length-take-drop xs zero n (omega arith))
  length-take-drop (x ∷ xs) (suc i) (suc n) h = length-take-drop xs i (suc n) (omega arith)

  length-reverse_aux : (xs ys : List A) → length (reverse_aux xs ys) ≡ length xs + length ys
  length-reverse_aux [] ys = omega arith
  length-reverse_aux (x ∷ xs) ys = omega (arith, length-reverse_aux xs (x ∷ ys))

  pub length-reverse : (xs : List A) → length (reverse xs) ≡ length xs
  length-reverse xs = omega (arith, length-reverse_aux xs [])

  pub overwrite-cons :
      (xs : List A) (i : ℕ) (v : A) (vs : List A)
      → overwrite (overwrite xs i (v ∷ [])) (suc i) vs ≡ overwrite xs i (v ∷ vs)
  overwrite-cons [] i v vs = refl
  overwrite-cons (x ∷ xs) zero v vs = ap (λ l. v ∷ overwrite l zero vs) (overwrite-nil xs zero)
  overwrite-cons (x ∷ xs) (suc i) v vs = ap (◌∷◌ x) (overwrite-cons xs i v vs)

  pub take-suc-drop :
      (xs : List A) (i n : ℕ) (d : A)
      → i < length xs
      → take (suc n) (drop i xs) ≡ get_or (take 1 (drop i xs)) 0 d ∷ take n (drop (suc i) xs)
  take-suc-drop [] i n d h = absurd (omega arith)
  take-suc-drop (x ∷ xs) zero n d h = refl
  take-suc-drop (x ∷ xs) (suc i) n d h = take-suc-drop xs i n d (omega arith)

  -- What lies outside the written part is as before.
  pub get_elem?-overwrite_out :
      (xs : List A) (i j : ℕ) (vs : List A)
      → (j < i) ⊎ (i + length vs ≤ j)
      → get_elem? (overwrite xs i vs) j ≡ get_elem? xs j
  get_elem?-overwrite_out [] i j vs h = refl
  get_elem?-overwrite_out (x ∷ xs) zero zero [] h = refl
  get_elem?-overwrite_out (x ∷ xs) zero (suc j) [] h = refl
  get_elem?-overwrite_out (x ∷ xs) zero zero (v ∷ vs) h = absurd (omega arith)
  get_elem?-overwrite_out (x ∷ xs) zero (suc j) (v ∷ vs) h =
      get_elem?-overwrite_out xs zero j vs (omega arith)
  get_elem?-overwrite_out (x ∷ xs) (suc i) zero vs h = refl
  get_elem?-overwrite_out (x ∷ xs) (suc i) (suc j) vs h =
      get_elem?-overwrite_out xs i j vs (omega arith)

  pub take_append : (xs ys : List A) → take (length xs) (xs ++ ys) ≡ xs
  take_append [] ys = refl
  take_append (x ∷ xs) ys = ap (◌∷◌ x) (take_append xs ys)

  pub take-all : (xs : List A) (n : ℕ) → length xs ≤ n → take n xs ≡ xs
  take-all [] zero h = refl
  take-all [] (suc n) h = refl
  take-all (x ∷ xs) zero h = absurd (omega arith)
  take-all (x ∷ xs) (suc n) h = ap (◌∷◌ x) (take-all xs n (omega arith))

  pub take-append-drop : (n : ℕ) (xs : List A) → take n xs ++ drop n xs ≡ xs
  take-append-drop zero xs = refl
  take-append-drop (suc n) [] = refl
  take-append-drop (suc n) (x ∷ xs) = ap (◌∷◌ x) (take-append-drop n xs)

  pub drop_append : (xs ys : List A) → drop (length xs) (xs ++ ys) ≡ ys
  drop_append [] ys = refl
  drop_append (x ∷ xs) ys = drop_append xs ys

  pub drop-nil : (n : ℕ) → drop n [] ≡ []
  drop-nil zero = refl
  drop-nil (suc n) = refl

  pub drop-add : (m n : ℕ) (xs : List A) → drop (m + n) xs ≡ drop n (drop m xs)
  drop-add zero n xs = ap (λ k. drop k xs) (omega arith)
  drop-add (suc m) n [] = drop-nil (suc m + n) ∙ sym (drop-nil n)
  drop-add (suc m) n (x ∷ xs) =
      ap (λ k. drop k (x ∷ xs)) {y = suc (m + n)} (omega arith) ∙ drop-add m n xs
