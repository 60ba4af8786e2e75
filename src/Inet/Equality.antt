-- ===== src/Inet/Equality.antt =====
-- Which addresses src/net/inet_address.cpp takes to be equal, and its loop that collects some.
use taurus.Shared.{
  ℕ, ◌+◌, ◌≡◌, refl, ◌↔◌, inl, inr, true, List, [], ◌∷◌, ◌++◌, append-nil, append_assoc, length,
  Option-cases, Option, none, some, arith,
}
use taurus.Shared.Int.{eq_ℤ_iff}
use taurus.Inet.{InetAddress, domain, same_bytes, base_eq, inet4_eq, inet6_eq, address_eq, collect}

same_bytes→eq : (a b : List ℕ) → same_bytes a b ≡ true → a ≡ b
unfolding same_bytes
same_bytes→eq [] [] h = refl
same_bytes→eq [] (y ∷ ys) h = cc
same_bytes→eq (x ∷ xs) [] h = cc
same_bytes→eq (x ∷ xs) (y ∷ ys) h = ground (arith, same_bytes→eq xs ys)

same_bytes_refl : (a : List ℕ) → same_bytes a a ≡ true
unfolding same_bytes
same_bytes_refl [] = refl
same_bytes_refl (x ∷ xs) = ground (arith, same_bytes_refl xs)

pub same_bytes_iff : (a b : List ℕ) → (same_bytes a b ≡ true) ↔ (a ≡ b)
same_bytes_iff a b = (same_bytes→eq a b, λ e. rw e (same_bytes_refl b))

-- operator== of Inet4Address and of Inet6Address hold exactly of equal addresses.
pub typed_eq_iff :
    (a b : List ℕ) → ((inet4_eq a b ≡ true) ↔ (a ≡ b)) × ((inet6_eq a b ≡ true) ↔ (a ≡ b))
unfolding inet4_eq inet6_eq base_eq
typed_eq_iff a b = (
  (λ h. (same_bytes_iff a b).0 (ground arith), λ e. ground (arith, (same_bytes_iff a b).1 e)),
  same_bytes_iff a b,
)

-- Through references to the base class two addresses are equal exactly if they are of one domain:
-- any two IPv4 addresses are, and any two IPv6 addresses.
pub address_eq_iff : (a b : InetAddress) → (address_eq a b ≡ true) ↔ (domain a ≡ domain b)
unfolding address_eq
address_eq_iff a b = (
  λ h. (eq_ℤ_iff (domain a) (domain b)).0 (ground arith),
  λ e. ground (arith, (eq_ℤ_iff (domain a) (domain b)).1 e),
)

-- The addresses that the loop keeps, in order.
unfoldable pub picked {ℓ} : {A : Type ℓ} → (A → Option InetAddress) → List A → List InetAddress
picked f [] = []
picked f (x ∷ xs) = elim (f x) [ none ↦ picked f xs | some a ↦ a ∷ picked f xs ]

pub picked-none {ℓ} :
    {A : Type ℓ} (f : A → Option InetAddress) (x : A) (xs : List A)
    → f x ≡ none
    → picked f (x ∷ xs) ≡ picked f xs
unfolding picked
picked-none f x xs e = rw (e, picked)

pub picked-some {ℓ} :
    {A : Type ℓ} (f : A → Option InetAddress) (x : A) (a : InetAddress) (xs : List A)
    → f x ≡ some a
    → picked f (x ∷ xs) ≡ a ∷ picked f xs
unfolding picked
picked-some f x a xs e = rw (e, picked)

pub collect-picked {ℓ} :
    {A : Type ℓ} (f : A → Option InetAddress) (xs : List A) (vec : List InetAddress) (n : ℕ)
    → collect f xs vec n ≡ (vec ++ picked f xs, n + length (picked f xs))
unfolding collect picked
collect-picked f [] vec n = ground (arith, append-nil vec)
collect-picked f (x ∷ xs) vec n = elim (Option-cases (f x)) [
  | inl e ↦ rw (e, collect, picked) (collect-picked f xs vec n)
  | inr (a, e) ↦
      rw (e, collect, picked)
        (ground (
          arith,
          collect-picked f xs (vec ++ a ∷ []) (n + 1),
          append_assoc vec (a ∷ []) (picked f xs),
        ))
]
