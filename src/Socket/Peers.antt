-- ===== src/Socket/Peers.antt =====
-- Bind and Connect of src/net/socket_impl.h between peers: a host given as the text that hostaddr() of
-- src/net/inet_address.cpp prints, a port that fits in sixteen bits.
use native.Mathlib.Decide.{ℕ_discrete}
use taurus.Shared.{
  ℕ, ◌≡◌, refl, ◌≢◌, ◌<◌, ◌/◌, ◌%◌, ◌^◌, ◌∷◌, [], ap, ap₂, sym, true, false, some, arith, Text,
  done, take-all,
}
use taurus.Shared.Int.{ℤ, pos}
use taurus.RuntimeError.{RuntimeError, is_error}
use taurus.Kernel.{
  minus_one, af_inet, af_inet6, keeps_last, SockAddr, sys_bind, sys_connect, Reply, Platform,
  parsed, einprogress,
}
use taurus.Inet
use taurus.Inet.{InetAddress, inet4, inet6, addrlen, bytes_of, hostaddr, inet4_parse, inet6_parse}
use taurus.Messages.{new_inet_address}
use taurus.SocketAddress
use taurus.SocketAddress.{impl_caddr, impl_caddr_size, of_sockaddr}
use taurus.SocketAddress.Codec.{IsSized}
use taurus.Socket.{Sock, bind, connect, created, opened, opening, bind_error, connect_error}
use taurus.Socket.Binding.{
  impl, Resolves, bind_reply, connect_reply, bind_resolved, connect_resolved,
}

-- The C structure of an address and a port, in network order, and its size.
abbrev pub structure : InetAddress → ℕ → SockAddr
structure (inet4 b) q = record { family = af_inet; port = q / 256 ∷ q % 256 ∷ []; address = b }
structure (inet6 b) q = record { family = af_inet6; port = q / 256 ∷ q % 256 ∷ []; address = b }

abbrev pub structure_size : InetAddress → ℕ
structure_size (inet4 b) = 16
structure_size (inet6 b) = 28

port_fits : (q : ℕ) → q < 2 ^ 16 → q % 2 ^ 16 ≡ q
port_fits q h = omega arith

impl_caddr-structure :
    (a : InetAddress) (q : ℕ) → IsSized a → q < 2 ^ 16 → impl_caddr (impl a (pos q)) ≡ structure a q
unfolding impl_caddr Inet.address addrlen
impl_caddr-structure (inet4 b) q s h = rw (take-all b 4 (omega arith), port_fits q h) refl
impl_caddr-structure (inet6 b) q s h = rw (take-all b 16 (omega arith), port_fits q h) refl

impl_caddr_size-structure_size :
    (a : InetAddress) (z : ℤ) → impl_caddr_size (impl a z) ≡ structure_size a
unfolding impl_caddr_size
impl_caddr_size-structure_size (inet4 b) z = refl
impl_caddr_size-structure_size (inet6 b) z = refl

of_sockaddr-structure :
    (a : InetAddress) (q : ℕ) → of_sockaddr (structure a q) ≡ done (impl a (pos q))
unfolding of_sockaddr
of_sockaddr-structure (inet4 b) q = ap (λ (n : ℕ). done (impl (inet4 b) (pos n))) (omega arith)
of_sockaddr-structure (inet6 b) q = ap (λ (n : ℕ). done (impl (inet6 b) (pos n))) (omega arith)

module _ {K : Type 0} (p : Platform K) where
  -- inet_pton reads what inet_ntop prints of the address, which it does print.
  pub record Prints (a : InetAddress) (t : Text) : Type 0 where
    pub printed : p.ntop (Inet.domain a) (bytes_of a) ≡ some t
    pub read_back : p.pton (Inet.domain a) t ≡ parsed (bytes_of a)

  hostaddr-text : (a : InetAddress) (t : Text) → Prints a t → hostaddr p a ≡ t
  unfolding hostaddr
  hostaddr-text a t h = rw (hostaddr, h.printed) refl

  -- NewInetAddress() makes the address itself of the text that hostaddr() prints.
  Resolves-hostaddr :
      (a : InetAddress) (t : Text) (e : RuntimeError)
      → Prints a t
      → Resolves p (Inet.domain a) (hostaddr p a) e a e
  unfolding new_inet_address inet4_parse inet6_parse Inet.domain
  Resolves-hostaddr (inet4 b) t e h =
      rw (hostaddr-text (inet4 b) t h) (rw (h.read_back, inet4_parse) refl)
  Resolves-hostaddr (inet6 b) t e h =
      rw (hostaddr-text (inet6 b) t h) (rw (h.read_back, inet6_parse) refl)

  -- The system's answer to a bind and to a connect with the structure of an address and a port.
  unfoldable pub bind_answer : InetAddress → ℕ → Sock → K → Reply × K
  bind_answer a q s k = p.syscall (sys_bind s.fd (structure a q) (structure_size a)) k

  unfoldable pub connect_answer : InetAddress → ℕ → Sock → K → Reply × K
  connect_answer a q s k = p.syscall (sys_connect s.fd (structure a q) (structure_size a)) k

  bind_answer-structure :
      (a : InetAddress) (q : ℕ) (s : Sock) (k : K)
      → IsSized a
      → q < 2 ^ 16
      → bind_answer a q s k ≡ bind_reply p a (pos q) s k
  unfolding bind_answer
  bind_answer-structure a q s k sized fits =
      ap₂ (λ (c : SockAddr) (n : ℕ). p.syscall (sys_bind s.fd c n) k)
        (sym (impl_caddr-structure a q sized fits)) (sym (impl_caddr_size-structure_size a (pos q)))

  connect_answer-structure :
      (a : InetAddress) (q : ℕ) (s : Sock) (k : K)
      → IsSized a
      → q < 2 ^ 16
      → connect_answer a q s k ≡ connect_reply p a (pos q) s k
  unfolding connect_answer
  connect_answer-structure a q s k sized fits =
      ap₂ (λ (c : SockAddr) (n : ℕ). p.syscall (sys_connect s.fd c n) k)
        (sym (impl_caddr-structure a q sized fits)) (sym (impl_caddr_size-structure_size a (pos q)))

  binds :
      (a : InetAddress) (t : Text) (q : ℕ) (s : Sock) (e : RuntimeError) (k : K)
      → p.fall_off ≡ keeps_last
      → Prints a t
      → IsSized a
      → q < 2 ^ 16
      → s.domain ≡ Inet.domain a
      → let (r, k') = bind_answer a q s k in
        (r.ret ≢ minus_one → bind p (hostaddr p a) (pos q) s e k ≡ done (true, s, e, k'))
        × (r.ret ≡ minus_one
            → (e1 : RuntimeError) × (bind p (hostaddr p a) (pos q) s e k ≡ done (false, s, e1, k'))
              × (is_error e1 ≡ true))
  binds a t q s e k keeps prints sized fits d =
      let bound =
        bind_resolved p (hostaddr p a) (pos q) s e e k a keeps
          (rw d (Resolves-hostaddr a t e prints)) in
      rw (bind_answer-structure a q s k sized fits) (
        bound.0,
        λ r. (
          bind_error s (SocketAddress.str p (some (impl a (pos q)))) e,
          (bound.1 r).0,
          (bound.1 r).1,
        ),
      )

  connects :
      (a : InetAddress) (t : Text) (q : ℕ) (s : Sock) (e : RuntimeError) (k : K)
      → p.fall_off ≡ keeps_last
      → Prints a t
      → IsSized a
      → q < 2 ^ 16
      → s.domain ≡ Inet.domain a
      → let (r, k') = connect_answer a q s k in
        (r.ret ≢ minus_one
          → connect p (hostaddr p a) (pos q) s e k
            ≡ done (true, record s { state = opened }, e, k'))
        × (r.ret ≡ minus_one
            → (u : Sock) × (e1 : RuntimeError) × (connect p (hostaddr p a) (pos q) s e k
                ≡ done (false, u, e1, k'))
              × (is_error e1 ≡ true))
  connects a t q s e k keeps prints sized fits d =
      let all =
        connect_resolved p (hostaddr p a) (pos q) s e e k a keeps
          (rw d (Resolves-hostaddr a t e prints)) in
      let err : RuntimeError = connect_error s (SocketAddress.str p (some (impl a (pos q)))) e in
      rw (connect_answer-structure a q s k sized fits) (
        all.0,
        λ r. elim (ℕ_discrete (connect_reply p a (pos q) s k).0.errno einprogress) [
          | yes n ↦ (record s { state = opening }, err, all.1 r n, all.3)
          | no n ↦ (record s { state = created }, err, all.2 r n, all.3)
        ],
      )

  -- In a build where a missing return gives the last result: a server binds, and a client connects,
  -- to the text that hostaddr() prints of an address, provided that inet_pton reads that text back,
  -- and to a port below 2^16, each on a socket of the address's domain. Both ask the system with one
  -- structure, that of the address and port, and the library reads the address and the port back
  -- from it. Where the system agrees the operation succeeds, with the client open; where it refuses,
  -- the operation fails with an error.
  pub bind-connect_meet :
      (a : InetAddress) (t : Text) (q : ℕ) (server client : Sock) (e : RuntimeError) (k l : K)
      → p.fall_off ≡ keeps_last
      → Prints a t
      → IsSized a
      → q < 2 ^ 16
      → server.domain ≡ Inet.domain a
      → client.domain ≡ Inet.domain a
      → let (b, k') = bind_answer a q server k in
        let (c, l') = connect_answer a q client l in
        (of_sockaddr (structure a q) ≡ done (impl a (pos q)))
        × ((b.ret ≢ minus_one
              → bind p (hostaddr p a) (pos q) server e k ≡ done (true, server, e, k'))
            × (b.ret ≡ minus_one
                → (e1 : RuntimeError) × (bind p (hostaddr p a) (pos q) server e k
                    ≡ done (false, server, e1, k'))
                  × (is_error e1 ≡ true)))
        × (c.ret ≢ minus_one
            → connect p (hostaddr p a) (pos q) client e l
              ≡ done (true, record client { state = opened }, e, l'))
        × (c.ret ≡ minus_one
            → (u : Sock) × (e1 : RuntimeError) × (connect p (hostaddr p a) (pos q) client e l
                ≡ done (false, u, e1, l'))
              × (is_error e1 ≡ true))
  bind-connect_meet a t q server client e k l keeps prints sized fits ds dc =
      let dialled = connects a t q client e l keeps prints sized fits dc in
      (
        of_sockaddr-structure a q,
        binds a t q server e k keeps prints sized fits ds,
        dialled.0,
        dialled.1,
      )
