-- ===== src/SocketAddress/Tests.antt =====
-- Socket addresses of src/net/inet_address.cpp on a concrete address and port.
use taurus.Shared.{◌≡◌, refl, some, done, ◌>>=◌}
use taurus.Shared.Int.{pos}
use taurus.Inet.{inet4, loopback4, addrlen}
use taurus.SocketAddress.{of_sockaddr, of_address, impl_caddr}
use taurus.SocketAddress.Codec.{IsSized, of_sockaddr-impl_caddr}

loopback-IsSized : IsSized (inet4 loopback4)
unfolding addrlen
loopback-IsSized = refl

-- A port of more than sixteen bits loses the rest.
of_sockaddr-impl_caddr_example :
    (of_address (inet4 loopback4) (pos 65616) >>= λ i. of_sockaddr (impl_caddr i))
    ≡ done (record { address = some (inet4 loopback4); port = pos 80 })
of_sockaddr-impl_caddr_example =
    of_sockaddr-impl_caddr (inet4 loopback4) (pos 65616) loopback-IsSized
