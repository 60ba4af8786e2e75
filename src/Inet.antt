-- ===== src/Inet.antt =====
-- `class InetAddress` and its two subclasses: include/mercury/net/network.h, src/net/inet_address.cpp.
-- An address is its bytes in network order, as `m_addr` holds them: four or sixteen.
pub mod Equality
pub mod Selection
pub mod Hostname
pub mod Naming
mod Tests
use taurus.Shared.{
  ℕ, zero, suc, ◌+◌, ◌≡◌, refl, Bool, true, false, not, ◌&&◌, List, [], ◌∷◌, ◌++◌, length, take,
  ltb, ◌==◌, if◌then◌else◌, Option, none, some, Text, codes, Outcome, done, abort,
}
use taurus.Shared.Int.{ℤ, pos, eq_ℤ}
use taurus.RuntimeError.{RuntimeError, is_error, set}
use taurus.Kernel.{
  minus_one, af_inet, af_inet6, sock_stream, Pton, parsed, malformed, unsupported, Platform,
  SockAddr,
}

pub data InetAddress : Type 0 where
  inet4 : List ℕ → InetAddress
  inet6 : List ℕ → InetAddress

-- m_domain, as the constructors set it
unfoldable pub domain : InetAddress → ℤ
domain (inet4 a) = af_inet
domain (inet6 a) = af_inet6

-- m_paddr
abbrev pub bytes_of : InetAddress → List ℕ
bytes_of (inet4 a) = a
bytes_of (inet6 a) = a

-- m_addrlen: sizeof(m_addr)
unfoldable pub addrlen : InetAddress → ℕ
addrlen (inet4 a) = 4
addrlen (inet6 a) = 16

abbrev pub any4 : List ℕ
any4 = 0 ∷ 0 ∷ 0 ∷ 0 ∷ []

abbrev pub loopback4 : List ℕ
loopback4 = 127 ∷ 0 ∷ 0 ∷ 1 ∷ []

abbrev pub any6 : List ℕ
any6 = 0 ∷ 0 ∷ 0 ∷ 0 ∷ 0 ∷ 0 ∷ 0 ∷ 0 ∷ 0 ∷ 0 ∷ 0 ∷ 0 ∷ 0 ∷ 0 ∷ 0 ∷ 0 ∷ []

abbrev pub loopback6 : List ℕ
loopback6 = 0 ∷ 0 ∷ 0 ∷ 0 ∷ 0 ∷ 0 ∷ 0 ∷ 0 ∷ 0 ∷ 0 ∷ 0 ∷ 0 ∷ 0 ∷ 0 ∷ 0 ∷ 1 ∷ []

-- Comparison of two integers or arrays of one length.
unfoldable pub same_bytes : List ℕ → List ℕ → Bool
same_bytes [] [] = true
same_bytes (x ∷ xs) (y ∷ ys) = x == y && same_bytes xs ys
same_bytes [] (y ∷ ys) = false
same_bytes (x ∷ xs) [] = false

-- Inet4Address::Inet4Address()
unfoldable pub inet4_any : InetAddress
inet4_any = inet4 any4

-- Inet4Address(uint32_t), and the copy constructors of the two subclasses, which set the domain and the
-- size anew and copy m_addr
unfoldable pub inet4_of : List ℕ → InetAddress
inet4_of addr = inet4 addr

unfoldable pub inet4_copy : InetAddress → InetAddress
unfolding inet4_of
inet4_copy other = inet4_of (bytes_of other)

unfoldable pub inet6_copy : InetAddress → InetAddress
inet6_copy other = inet6 (bytes_of other)

unfoldable pub malformed4_error : Text → RuntimeError → RuntimeError
unfolding set
malformed4_error text e =
    set minus_one (codes "NOT_A_VALID_INET4_ADDR" ++ codes ": " ++ text)
      (some (codes "Inet4Address::Inet4Address")) e

pub malformed4_error-is_error :
    (text : Text) (e : RuntimeError) → is_error (malformed4_error text e) ≡ true
unfolding malformed4_error is_error
malformed4_error-is_error text e = refl

-- Inet4Address(const char *, RuntimeError &): a text that is no address leaves the initial 0
unfoldable pub inet4_parse :
    {K : Type 0} → Platform K → Text → RuntimeError → Outcome (InetAddress × RuntimeError)
inet4_parse p text e = elim (p.pton af_inet text) [
  | parsed a ↦ done (inet4 a, e)
  | malformed ↦ done (inet4 any4, malformed4_error text e)
  | unsupported ↦ abort
]

-- Inet6Address(const unsigned char[16], size_t): assert(n == 16)
unfoldable pub inet6_of : List ℕ → ℕ → Outcome InetAddress
inet6_of a n = if n == 16 then done (inet6 a) else abort

-- Inet6Address(const char *, RuntimeError &): a text that is no address leaves `m_addr` unset
unfoldable pub inet6_parse :
    {K : Type 0} → Platform K → Text → RuntimeError → Outcome (InetAddress × RuntimeError)
inet6_parse p text e = elim (p.pton af_inet6 text) [
  | parsed a ↦ done (inet6 a, e)
  | malformed ↦ done (
    inet6 p.uninitialised,
    set minus_one (codes "NOT_A_VALID_INET6_ADDR" ++ codes ": " ++ text)
        (some (codes "Inet6Address::Inet6Address")) e,
  )
  | unsupported ↦ abort
]

-- InetAddress::operator==: the domains only
unfoldable pub base_eq : InetAddress → InetAddress → Bool
unfolding domain
base_eq a b = if eq_ℤ (domain a) (domain b) then true else false

-- Inet4Address::operator==(const Inet4Address &) on two IPv4 addresses
unfoldable pub inet4_eq : List ℕ → List ℕ → Bool
unfolding same_bytes base_eq
inet4_eq a b = if not (same_bytes a b) then false else base_eq (inet4 a) (inet4 b)

-- Inet6Address::operator==(const Inet6Address &) on two IPv6 addresses
unfoldable pub inet6_eq : List ℕ → List ℕ → Bool
unfolding same_bytes
inet6_eq a b = same_bytes a b

-- `a == b` through two `InetAddress` references. The operators of the subclasses take another
-- parameter type, so they hide the virtual one and do not override it.
unfoldable pub address_eq : InetAddress → InetAddress → Bool
unfolding base_eq
address_eq a b = base_eq a b

-- IN6_IS_ADDR_UNSPECIFIED and IN6_IS_ADDR_LOOPBACK
unfoldable pub inet6_is_anylocal : List ℕ → Bool
unfolding same_bytes
inet6_is_anylocal a = same_bytes a any6

unfoldable pub inet6_is_loopback : List ℕ → Bool
unfolding same_bytes
inet6_is_loopback a = same_bytes a loopback6

-- The virtual is_anylocal() and is_loopback()
unfoldable pub is_anylocal : InetAddress → Bool
unfolding same_bytes inet6_is_anylocal
is_anylocal (inet4 a) = same_bytes a any4
is_anylocal (inet6 a) = inet6_is_anylocal a

unfoldable pub is_loopback : InetAddress → Bool
unfolding same_bytes inet6_is_loopback
is_loopback (inet4 a) = same_bytes a loopback4
is_loopback (inet6 a) = inet6_is_loopback a

-- hostaddr(): inet_ntop, or the empty string
unfoldable pub hostaddr : {K : Type 0} → Platform K → InetAddress → Text
unfolding domain
hostaddr p a = elim (p.ntop (domain a) (bytes_of a)) [ none ↦ [] | some t ↦ t ]

unfoldable pub inet6_str : {K : Type 0} → Platform K → List ℕ → Text
unfolding hostaddr
inet6_str p a = codes "inet6://[" ++ hostaddr p (inet6 a) ++ codes "]"

-- The virtual str()
unfoldable pub str : {K : Type 0} → Platform K → InetAddress → Text
unfolding hostaddr inet6_str
str p (inet4 a) = codes "inet4://" ++ hostaddr p (inet4 a)
str p (inet6 a) = inet6_str p a

-- address(buffer, n): the bytes copied, and the size that is returned
unfoldable pub address : InetAddress → ℕ → List ℕ × ℕ
unfolding addrlen
address a n = let m = if ltb n (addrlen a) then n else addrlen a in (take m (bytes_of a), addrlen a)

-- An entry of getifaddrs: `none` for one without an address.
abbrev pub Interface : Type 0
Interface = Option SockAddr

-- The switch in the loop of get_localhost: the address that an entry contributes.
unfoldable pub local_address : Interface → Option InetAddress
unfolding is_anylocal is_loopback
local_address none = none
local_address (some s) =
    if eq_ℤ s.family af_inet
    then (if not (is_anylocal (inet4 s.address)) && not (is_loopback (inet4 s.address))
        then some (inet4 s.address)
        else none)
    else (if eq_ℤ s.family af_inet6
        then (if not (is_anylocal (inet6 s.address)) && not (is_loopback (inet6 s.address))
            then some (inet6 s.address)
            else none)
        else none)

-- The loop: what is pushed on the vector, and the count.
unfoldable pub collect {ℓ} :
    {A : Type ℓ} → (A → Option InetAddress) → List A → List InetAddress → ℕ → List InetAddress × ℕ
collect f [] vec count = (vec, count)
collect f (x ∷ xs) vec count = elim (f x) [
  | none ↦ collect f xs vec count
  | some a ↦ collect f xs (vec ++ a ∷ []) (count + 1)
]

-- get_localhost(vecAddr); `none` is a failed getifaddrs
unfoldable pub get_localhost : Option (List Interface) → List InetAddress → List InetAddress × ℤ
unfolding local_address collect
get_localhost none vec = (vec, minus_one)
get_localhost (some ifs) vec = let (v, n) = collect local_address ifs vec 0 in (v, pos n)

-- An entry of getaddrinfo: its socket type and its address.
pub record AddrInfo : Type 0 where
  pub socktype : ℤ
  pub addr : Option SockAddr

unfoldable pub named_address : AddrInfo → Option InetAddress
named_address i = elim i.addr [
  | none ↦ none
  | some s ↦
      if not (eq_ℤ i.socktype sock_stream)
      then none
      else (if eq_ℤ s.family af_inet
          then some (inet4 s.address)
          else (if eq_ℤ s.family af_inet6 then some (inet6 s.address) else none))
]

-- get_all_by_name(vecAddr, hostname); `none` is a getaddrinfo that did not return 0
unfoldable pub get_all_by_name : Option (List AddrInfo) → List InetAddress → List InetAddress × ℤ
unfolding named_address collect
get_all_by_name none vec = (vec, minus_one)
get_all_by_name (some l) vec = let (v, n) = collect named_address l vec 0 in (v, pos n)
