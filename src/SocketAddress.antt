-- ===== src/SocketAddress.antt =====
-- `class InetSocketAddress` and its implementation: src/net/inet_address.cpp. The functions of the
-- outer class that forget their `return` go through `Platform.fall_off`.
pub mod Codec
mod Tests
use taurus.Shared.{
  ℕ, suc, ◌+◌, ◌-◌, ◌*◌, ◌/◌, ◌%◌, ◌^◌, Bool, true, false, List, [], ◌∷◌, ◌++◌, get_or,
  if◌then◌else◌, Option, none, some, Text, codes, Outcome, done, abort, ◌>>=◌,
}
use taurus.Shared.Int.{ℤ, pos, negsuc, eq_ℤ, show_int}
use taurus.Kernel.{af_inet, af_inet6, SockAddr, Platform, without_return}
use taurus.Inet
use taurus.Inet.{InetAddress, inet4, inet6, any4}

-- InetSocketAddressImpl: `m_ptrAddress` is null or owns a copy.
pub record Impl : Type 0 where
  pub address : Option InetAddress
  pub port : ℤ

-- InetSocketAddress: `m_pImpl` is null or owned.
abbrev pub InetSocketAddress : Type 0
InetSocketAddress = Option Impl

-- The low sixteen bits of an `int`, which is what htons takes of it.
abbrev pub low16 : ℤ → ℕ
low16 (pos n) = n % 2 ^ 16
low16 (negsuc n) = 2 ^ 16 - 1 - n % 2 ^ 16

-- htons, as the bytes that it puts in memory, and ntohs of such bytes
abbrev pub htons : ℤ → List ℕ
htons port = (low16 port / 256) ∷ (low16 port % 256) ∷ []

abbrev pub ntohs : List ℕ → ℤ
ntohs b = pos (get_or b 0 0 * 256 + get_or b 1 0)

-- InetSocketAddressImpl(const struct sockaddr *, socklen_t)
unfoldable pub of_sockaddr : SockAddr → Outcome Impl
of_sockaddr s =
    if eq_ℤ s.family af_inet
    then done (record { address = some (inet4 s.address); port = ntohs s.port })
    else (if eq_ℤ s.family af_inet6
        then done (record { address = some (inet6 s.address); port = ntohs s.port })
        else abort)

-- InetSocketAddressImpl(const InetAddress &, int)
unfoldable pub of_address : InetAddress → ℤ → Outcome Impl
of_address (inet4 a) port = done (record { address = some (inet4 a); port = port })
of_address (inet6 a) port = done (record { address = some (inet6 a); port = port })

-- InetSocketAddressImpl(const InetSocketAddressImpl &)
unfoldable pub copy_impl : Impl → Outcome Impl
copy_impl i = elim i.address [
  | none ↦ done (record { address = none; port = i.port })
  | some (inet4 a) ↦ done (record { address = some (inet4 a); port = i.port })
  | some (inet6 a) ↦ done (record { address = some (inet6 a); port = i.port })
]

-- Domain()
unfoldable pub impl_domain : Impl → ℤ
unfolding Inet.domain
impl_domain i = elim i.address [ none ↦ pos 0 | some a ↦ Inet.domain a ]

-- GetCAddress()
unfoldable pub impl_caddr : Impl → SockAddr
unfolding Inet.address
impl_caddr i = elim i.address [
  | none ↦ record { family = af_inet; port = htons i.port; address = any4 }
  | some (inet4 a) ↦ record {
    family = af_inet;
    port = htons i.port;
    address = (Inet.address (inet4 a) 4).0;
  }
  | some (inet6 a) ↦ record {
    family = af_inet6;
    port = htons i.port;
    address = (Inet.address (inet6 a) 16).0;
  }
]

-- GetCAddressSize(): the sizes of the two structures
unfoldable pub impl_caddr_size : Impl → ℕ
impl_caddr_size i = elim i.address [ none ↦ 16 | some (inet4 a) ↦ 16 | some (inet6 a) ↦ 28 ]

-- str(): the text of a null address ends in a colon of its own
unfoldable pub impl_str : {K : Type 0} → Platform K → Impl → Text
impl_str p i =
    let head : Text = elim i.address [ none ↦ codes "inet4://0.0.0.0:" | some a ↦ Inet.str p a ] in
    head ++ codes ":" ++ show_int i.port

-- InetSocketAddress(const InetAddress &, int), and of a sockaddr
unfoldable pub socket_address : InetAddress → ℤ → Outcome InetSocketAddress
unfolding of_address
socket_address a port = do i ← of_address a port; done (some i)

unfoldable pub socket_address_of : SockAddr → Outcome InetSocketAddress
unfolding of_sockaddr
socket_address_of s = do i ← of_sockaddr s; done (some i)

-- The copy constructor dereferences `other.m_pImpl` whatever it is.
unfoldable pub copy : InetSocketAddress → Outcome InetSocketAddress
unfolding copy_impl
copy none = Outcome.fault
copy (some i) = do c ← copy_impl i; done (some c)

-- The move constructor: the new object and the old one.
unfoldable pub move : InetSocketAddress → InetSocketAddress × InetSocketAddress
move other = (other, none)

-- operator=(const InetSocketAddress &); the implementation is assigned member by member
unfoldable pub assign : Bool → InetSocketAddress → InetSocketAddress → Outcome InetSocketAddress
assign true self other = done self
assign false none other = Outcome.fault
assign false (some i) none = Outcome.fault
assign false (some i) (some j) = done (some j)

-- operator=(InetSocketAddress &&): moving an object to itself deletes what it then keeps
unfoldable pub move_assign :
    Bool → InetSocketAddress → InetSocketAddress → Outcome (InetSocketAddress × InetSocketAddress)
move_assign true self other = done (none, none)
move_assign false self other = done (other, none)

unfoldable pub port : InetSocketAddress → ℤ
port none = pos 0
port (some i) = i.port

unfoldable pub address : InetSocketAddress → Option InetAddress
address none = none
address (some i) = i.address

unfoldable pub str : {K : Type 0} → Platform K → InetSocketAddress → Text
unfolding impl_str
str p none = []
str p (some i) = impl_str p i

unfoldable pub domain : {K : Type 0} → Platform K → InetSocketAddress → Outcome ℤ
unfolding impl_domain
domain p none = done af_inet
domain p (some i) = without_return p.fall_off (impl_domain i)

-- caddr(); `none` is the null pointer
unfoldable pub caddr : {K : Type 0} → Platform K → InetSocketAddress → Outcome (Option SockAddr)
unfolding impl_caddr
caddr p none = done none
caddr p (some i) = without_return p.fall_off (some (impl_caddr i))

unfoldable pub caddr_size : {K : Type 0} → Platform K → InetSocketAddress → Outcome ℕ
unfolding impl_caddr_size
caddr_size p none = done 0
caddr_size p (some i) = without_return p.fall_off (impl_caddr_size i)
