-- ===== src/Shared/Loops.antt =====
-- `for (i = k; i < k + n; ++i)` over a state, and what holds after it.
use Prim.Native.Nat.{ℕ, zero, suc, ◌+◌, ◌≤◌, ◌<◌}
use mathlib.Core.Path.{◌≡◌, refl, subst, ap, ◌∙◌}
use native.Mathlib.Omega.{arith}
use taurus.Shared.Ending.{Outcome, done, ◌>>=◌}

abbrev pub loop {ℓ} : {S : Type ℓ} → ℕ → ℕ → (ℕ → S → Outcome S) → S → Outcome S
loop zero k body s = done s
loop (suc n) k body s = body k s >>= loop n (suc k) body

-- A loop whose body always returns and keeps an invariant returns and keeps it.
pub loop_lem {ℓ κ} :
    {S : Type ℓ} (P : ℕ → S → Type κ) (n k : ℕ) (body : ℕ → S → Outcome S) (s : S)
    → ((i : ℕ) (x : S) → k ≤ i → i < k + n → P i x → (y : S) × (body i x ≡ done y) × P (suc i) y)
    → P k s
    → (y : S) × (loop n k body s ≡ done y) × P (k + n) y
loop_lem P zero k body s step p = (s, refl, subst (λ j. P j s) (omega arith) p)
loop_lem P (suc n) k body s step p =
    let (x, ran, q) = step k s (omega arith) (omega arith) p in
    let (y, rest, r) =
      loop_lem P n (suc k) body x (λ i z a b. step i z (omega arith) (omega arith)) q in
    (y, ap (λ o. o >>= loop n (suc k) body) ran ∙ rest, subst (λ j. P j y) (omega arith) r)

-- The same from zero
pub loop-from_zero {ℓ κ} :
    {S : Type ℓ} (P : ℕ → S → Type κ) (n : ℕ) (body : ℕ → S → Outcome S) (s : S)
    → ((i : ℕ) (x : S) → i < n → P i x → (y : S) × (body i x ≡ done y) × P (suc i) y)
    → P 0 s
    → (y : S) × (loop n 0 body s ≡ done y) × P n y
loop-from_zero P n body s step p =
    let (y, e, q) = loop_lem P n 0 body s (λ i x _ h. step i x (omega arith)) p in
    (y, e, subst (λ j. P j y) (omega arith) q)
