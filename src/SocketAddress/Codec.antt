-- ===== src/SocketAddress/Codec.antt =====
-- Socket addresses to and from the C structure (src/net/inet_address.cpp).
use taurus.Shared.{◌≡◌, refl, ap, length, some, done, fault, arith, ◌>>=◌, take-all}
use taurus.Shared.Int.{ℤ, pos}
use taurus.Kernel.{Platform, undefined, keeps_last}
use taurus.Inet
use taurus.Inet.{InetAddress, inet4, inet6, addrlen, bytes_of, any4}
use taurus.SocketAddress.{
  Impl, low16, htons, ntohs, of_sockaddr, of_address, impl_caddr, impl_caddr_size, impl_domain,
  domain, caddr, caddr_size,
}

-- Four bytes or sixteen.
abbrev pub IsSized : InetAddress → Type 0
IsSized a = length (bytes_of a) ≡ addrlen a

ntohs-htons : (port : ℤ) → ntohs (htons port) ≡ pos (low16 port)
ntohs-htons port = ap pos (omega arith)

-- An address and a port, written to the C structure and read back, give the address and the port
-- mod 2^16: the port itself if it is one.
pub of_sockaddr-impl_caddr :
    (a : InetAddress) (port : ℤ)
    → IsSized a
    → (of_address a port >>= λ i. of_sockaddr (impl_caddr i))
      ≡ done (record { address = some a; port = pos (low16 port) })
unfolding of_sockaddr of_address impl_caddr Inet.address addrlen
of_sockaddr-impl_caddr (inet4 a) port h = rw (take-all a 4 (omega arith), ntohs-htons port)
of_sockaddr-impl_caddr (inet6 a) port h = rw (take-all a 16 (omega arith), ntohs-htons port)

-- By the language the three functions that forget their `return` are undefined on every address
-- that holds anything; where the compiler leaves the last result they return what was meant.
pub forgotten_returns :
    {K : Type 0} (p : Platform K) (i : Impl)
    → (p.fall_off ≡ undefined
        → (domain p (some i) ≡ fault)
          × (caddr p (some i) ≡ fault)
          × (caddr_size p (some i) ≡ fault))
      × (p.fall_off ≡ keeps_last
          → (domain p (some i) ≡ done (impl_domain i))
            × (caddr p (some i) ≡ done (some (impl_caddr i)))
            × (caddr_size p (some i) ≡ done (impl_caddr_size i)))
unfolding domain caddr caddr_size
forgotten_returns p i = (λ h. rw h (refl, refl, refl), λ h. rw h (refl, refl, refl))
