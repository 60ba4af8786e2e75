-- ===== src/Inet/Selection.antt =====
-- Which addresses src/net/inet_address.cpp collects, described by the entries alone.
use taurus.Shared.{
  ◌≡◌, ◌≢◌, refl, sym, subst, ap, ◌∙◌, ◌↔◌, inl, inr, List, [], ◌∷◌, ◌++◌, length, Option-cases,
  Option, none, some, arith,
}
use taurus.Shared.Int.{pos, eq_ℤ_iff}
use taurus.Kernel.{SockAddr, minus_one, af_inet, af_inet6, sock_stream}
use taurus.Inet.{
  InetAddress, inet4, inet6, any4, any6, loopback4, loopback6, is_anylocal, is_loopback,
  inet6_is_anylocal, inet6_is_loopback, Interface, local_address, AddrInfo, named_address,
  get_localhost, get_all_by_name,
}
use taurus.Inet.Equality.{same_bytes_iff, picked, picked-none, picked-some, collect-picked}

-- The list `as` of what the entries of a list offer, in their order, one for each entry that offers
-- something.
pub data Collects {A : Type 0} (R : A → InetAddress → Type 0)
    : List A → List InetAddress → Type 0 where
  ends : Collects R [] []
  takes :
      {x : A} {a : InetAddress} {xs : List A} {as_ : List InetAddress}
      → R x a
      → Collects R xs as_
      → Collects R (x ∷ xs) (a ∷ as_)
  passes :
      {x : A} {xs : List A} {as_ : List InetAddress}
      → ((a : InetAddress) → ¬ R x a)
      → Collects R xs as_
      → Collects R (x ∷ xs) as_

-- That the address is the one in a C structure, whose family is that of the address
abbrev pub Holds : SockAddr → InetAddress → Type 0
Holds s (inet4 a) = (s.family ≡ af_inet) × (a ≡ s.address)
Holds s (inet6 a) = (s.family ≡ af_inet6) × (a ≡ s.address)

-- An address other than 0.0.0.0, 127.0.0.1, :: and ::1
abbrev pub IsPublic : InetAddress → Type 0
IsPublic (inet4 a) = (a ≢ any4) × (a ≢ loopback4)
IsPublic (inet6 a) = (a ≢ any6) × (a ≢ loopback6)

-- What an interface offers, and what an entry of the name service does
abbrev pub OffersLocal : Interface → InetAddress → Type 0
OffersLocal i a = (s : SockAddr) × (i ≡ some s) × Holds s a × IsPublic a

abbrev pub OffersNamed : AddrInfo → InetAddress → Type 0
OffersNamed i a = (s : SockAddr) × (i.addr ≡ some s) × (i.socktype ≡ sock_stream) × Holds s a

picked-Collects :
    {A : Type 0} (R : A → InetAddress → Type 0) (f : A → Option InetAddress)
    → ((x : A) (a : InetAddress) → (f x ≡ some a) ↔ R x a)
    → (xs : List A) → Collects R xs (picked f xs)
unfolding picked
picked-Collects R f same [] = ends
picked-Collects R f same (x ∷ xs) = elim (Option-cases (f x)) [
  | inl e ↦
      subst (Collects R (x ∷ xs)) (sym (picked-none f x xs e))
        (passes (λ a r. absurd (differ e ((same x a).1 r))) (picked-Collects R f same xs))
  | inr (a, e) ↦
      subst (Collects R (x ∷ xs)) (sym (picked-some f x a xs e))
        (takes ((same x a).0 e) (picked-Collects R f same xs))
]
  where
    differ : {a : InetAddress} → f x ≡ none → f x ≡ some a → ⊥
    differ e1 e2 = cc

local_address-OffersLocal :
    (s : SockAddr) (a : InetAddress) → local_address (some s) ≡ some a → Holds s a × IsPublic a
unfolding local_address is_anylocal is_loopback inet6_is_anylocal inet6_is_loopback
local_address-OffersLocal s (inet4 b) h = ground (
  arith,
  eq_ℤ_iff s.family af_inet,
  same_bytes_iff s.address any4,
  same_bytes_iff s.address loopback4,
)
local_address-OffersLocal s (inet6 b) h = ground (
  arith,
  eq_ℤ_iff s.family af_inet6,
  same_bytes_iff s.address any6,
  same_bytes_iff s.address loopback6,
)

OffersLocal-local_address :
    (s : SockAddr) (a : InetAddress) → Holds s a → IsPublic a → local_address (some s) ≡ some a
unfolding local_address is_anylocal is_loopback inet6_is_anylocal inet6_is_loopback
OffersLocal-local_address s (inet4 b) (f, e) (x, y) = ground (
  arith,
  eq_ℤ_iff s.family af_inet,
  same_bytes_iff s.address any4,
  same_bytes_iff s.address loopback4,
)
OffersLocal-local_address s (inet6 b) (f, e) (x, y) = ground (
  arith,
  eq_ℤ_iff s.family af_inet,
  eq_ℤ_iff s.family af_inet6,
  same_bytes_iff s.address any6,
  same_bytes_iff s.address loopback6,
)

named_address-OffersNamed :
    (i : AddrInfo) (a : InetAddress) (s : SockAddr)
    → i.addr ≡ some s
    → named_address i ≡ some a
    → (i.socktype ≡ sock_stream) × Holds s a
unfolding named_address
named_address-OffersNamed i (inet4 b) s at h =
    ground (arith, eq_ℤ_iff s.family af_inet, eq_ℤ_iff i.socktype sock_stream)
named_address-OffersNamed i (inet6 b) s at h =
    ground (arith, eq_ℤ_iff s.family af_inet6, eq_ℤ_iff i.socktype sock_stream)

OffersNamed-named_address :
    (i : AddrInfo) (a : InetAddress) (s : SockAddr)
    → i.addr ≡ some s
    → i.socktype ≡ sock_stream
    → Holds s a
    → named_address i ≡ some a
unfolding named_address
OffersNamed-named_address i (inet4 b) s at t (f, e) =
    ground (arith, eq_ℤ_iff s.family af_inet, eq_ℤ_iff i.socktype sock_stream)
OffersNamed-named_address i (inet6 b) s at t (f, e) =
    ground (
      arith,
      eq_ℤ_iff s.family af_inet,
      eq_ℤ_iff s.family af_inet6,
      eq_ℤ_iff i.socktype sock_stream,
    )

local_address_iff : (i : Interface) (a : InetAddress) → (local_address i ≡ some a) ↔ OffersLocal i a
unfolding local_address
local_address_iff none a = (λ h. cc, λ (s, e, holds, public). cc)
local_address_iff (some s) a = (
  λ h. let (holds, public) = local_address-OffersLocal s a h in (s, refl, holds, public),
  λ (t, e, holds, public). ap local_address e ∙ OffersLocal-local_address t a holds public,
)

named_address-none : (i : AddrInfo) (a : InetAddress) → i.addr ≡ none → named_address i ≡ some a → ⊥
unfolding named_address
named_address-none i a e h = ground (arith, e)

named_address_iff : (i : AddrInfo) (a : InetAddress) → (named_address i ≡ some a) ↔ OffersNamed i a
named_address_iff i a = (
  λ h. elim (Option-cases i.addr) [
    | inl e ↦ absurd (named_address-none i a e h)
    | inr (s, e) ↦ let (t, holds) = named_address-OffersNamed i a s e h in (s, e, t, holds)
  ],
  λ (s, e, t, holds). OffersNamed-named_address i a s e t holds,
)

-- get_localhost() appends to the vector, in the order of the interfaces, the address of each that has
-- an IPv4 address other than 0.0.0.0 and 127.0.0.1 or an IPv6 address other than :: and ::1, and
-- of no other, and returns how many it appended. Where getifaddrs fails it returns -1 and appends
-- nothing.
pub get_localhost_lem :
    (ifs : List Interface) (vec : List InetAddress)
    → ((as_ : List InetAddress) × Collects OffersLocal ifs as_
        × (get_localhost (some ifs) vec ≡ (vec ++ as_, pos (length as_))))
      × (get_localhost none vec ≡ (vec, minus_one))
unfolding get_localhost
get_localhost_lem ifs vec = (
  (
    picked local_address ifs,
    picked-Collects OffersLocal local_address local_address_iff ifs,
    ground (arith, collect-picked local_address ifs vec 0),
  ),
  refl,
)

-- get_all_by_name() in the same way, for the entries of the name service.
pub get_all_by_name_lem :
    (l : List AddrInfo) (vec : List InetAddress)
    → ((as_ : List InetAddress) × Collects OffersNamed l as_
        × (get_all_by_name (some l) vec ≡ (vec ++ as_, pos (length as_))))
      × (get_all_by_name none vec ≡ (vec, minus_one))
unfolding get_all_by_name
get_all_by_name_lem l vec = (
  (
    picked named_address l,
    picked-Collects OffersNamed named_address named_address_iff l,
    ground (arith, collect-picked named_address l vec 0),
  ),
  refl,
)
