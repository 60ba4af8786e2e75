-- ===== src/Socket/Binding.antt =====
-- Bind and Connect of src/net/socket_impl.h: what the system is asked, and what a host that is no
-- address does. All of it is under a compiler that leaves the last result where a `return` is
-- missing; without that, both are undefined.
use taurus.Shared.{◌≡◌, refl, ◌≢◌, true, false, some, arith, Text, done, fault}
use taurus.Shared.Int.{ℤ, eq_ℤ-true, eq_ℤ-false}
use taurus.RuntimeError.{RuntimeError, is_error}
use taurus.Kernel.{
  minus_one, af_inet, einprogress, malformed, keeps_last, undefined, sys_bind, sys_connect, Reply,
  Platform,
}
use taurus.Inet.{
  InetAddress, inet4, inet6, any4, inet4_parse, malformed4_error, malformed4_error-is_error,
}
use taurus.Messages.{new_inet_address}
use taurus.SocketAddress
use taurus.SocketAddress.{
  Impl, htons, impl_caddr, impl_caddr_size, socket_address, caddr, caddr_size,
}
use taurus.Socket.{
  Sock, created, opened, opening, invalid_socket, bind, connect, target, bind_error, connect_error,
  bind_error-is_error,
}

abbrev pub impl : InetAddress → ℤ → Impl
impl a port = record { address = some a; port = port }

module _ {K : Type 0} (p : Platform K) where
  -- What NewInetAddress() makes of a text, with the error object after it.
  abbrev pub Resolves : ℤ → Text → RuntimeError → InetAddress → RuntimeError → Type 0
  Resolves dom host e a e' = new_inet_address p dom host e ≡ done (some a, e')

  resolves_malformed :
      (host : Text) (e : RuntimeError)
      → p.pton af_inet host ≡ malformed
      → new_inet_address p af_inet host e ≡ done (some (inet4 any4), malformed4_error host e)
  unfolding new_inet_address inet4_parse
  resolves_malformed host e bad = rw (bad, new_inet_address, inet4_parse)

  target_lem :
      (i : Impl)
      → p.fall_off ≡ keeps_last
      → target p (some i) ≡ done (impl_caddr i, impl_caddr_size i)
  unfolding target caddr caddr_size
  target_lem i h = rw h

  socket_address_lem :
      (a : InetAddress) (port : ℤ) → socket_address a port ≡ done (some (impl a port))
  unfolding socket_address
  socket_address_lem (inet4 a) port = refl
  socket_address_lem (inet6 a) port = refl

  -- The bind call that Bind() makes for an address, and the connect call of Connect().
  abbrev pub bind_reply : InetAddress → ℤ → Sock → K → Reply × K
  bind_reply a port s k =
      p.syscall (sys_bind s.fd (impl_caddr (impl a port)) (impl_caddr_size (impl a port))) k

  abbrev pub connect_reply : InetAddress → ℤ → Sock → K → Reply × K
  connect_reply a port s k =
      p.syscall (sys_connect s.fd (impl_caddr (impl a port)) (impl_caddr_size (impl a port))) k

  -- In a build where a missing return gives the last result: Bind() for a text that
  -- NewInetAddress() makes an address of: the system is asked once, to bind the descriptor to the
  -- structure of that address and port; the socket is unchanged, the result is whether the call
  -- succeeded, and a failure is reported in the error object.
  pub bind_resolved :
      (host : Text) (port : ℤ) (s : Sock) (e e1 : RuntimeError) (k : K) (a : InetAddress)
      → p.fall_off ≡ keeps_last
      → Resolves s.domain host e a e1
      → let err = bind_error s (SocketAddress.str p (some (impl a port))) e1 in
        ((bind_reply a port s k).0.ret ≢ minus_one
          → bind p host port s e k ≡ done (true, s, e1, (bind_reply a port s k).1))
        × ((bind_reply a port s k).0.ret ≡ minus_one
            → (bind p host port s e k ≡ done (false, s, err, (bind_reply a port s k).1))
              × (is_error err ≡ true))
  unfolding bind
  bind_resolved host port s e e1 k a keeps res = (
    λ r. rw (res, socket_address_lem a port, target_lem (impl a port) keeps, eq_ℤ-false _ _ r),
    λ r. (
      rw (res, socket_address_lem a port, target_lem (impl a port) keeps, eq_ℤ-true _ _ r),
      (bind_error-is_error s (SocketAddress.str p (some (impl a port))) e1).0,
    ),
  )

  -- In a build where a missing return gives the last result: Connect() for a text that
  -- NewInetAddress() makes an address of: the system is asked once, to connect the descriptor to
  -- the structure of that address and port. The state is OPEN if it does, OPENING if it fails with
  -- EINPROGRESS and CREATED if it fails otherwise; nothing else of the socket changes, and a
  -- failure, also one in progress, is reported in the error object.
  pub connect_resolved :
      (ip : Text) (port : ℤ) (s : Sock) (e e1 : RuntimeError) (k : K) (a : InetAddress)
      → p.fall_off ≡ keeps_last
      → Resolves s.domain ip e a e1
      → let (r, k') = connect_reply a port s k in
        let err = connect_error s (SocketAddress.str p (some (impl a port))) e1 in
        (r.ret ≢ minus_one
          → connect p ip port s e k ≡ done (true, record s { state = opened }, e1, k'))
        × (r.ret ≡ minus_one
            → r.errno ≡ einprogress
            → connect p ip port s e k ≡ done (false, record s { state = opening }, err, k'))
        × (r.ret ≡ minus_one
            → r.errno ≢ einprogress
            → connect p ip port s e k ≡ done (false, record s { state = created }, err, k'))
        × (is_error err ≡ true)
  unfolding connect
  connect_resolved ip port s e e1 k a keeps res = (
    λ r. rw (res, socket_address_lem a port, target_lem (impl a port) keeps, eq_ℤ-false _ _ r),
    λ r n.
        rw (res, socket_address_lem a port, target_lem (impl a port) keeps, eq_ℤ-true _ _ r)
          (ground arith),
    λ r n.
        rw (res, socket_address_lem a port, target_lem (impl a port) keeps, eq_ℤ-true _ _ r)
          (ground arith),
    (bind_error-is_error s (SocketAddress.str p (some (impl a port))) e1).1,
  )

  -- Connecting a socket that was closed, while it keeps the domain that it had, ends in state CREATED
  -- with no descriptor if the system refuses: is_closed() no longer holds of it.
  pub connect_after_close :
      (ip : Text) (port : ℤ) (s : Sock) (e e1 : RuntimeError) (k : K) (a : InetAddress)
      → p.fall_off ≡ keeps_last
      → Resolves s.domain ip e a e1
      → s.fd ≡ invalid_socket
      → (connect_reply a port s k).0.ret ≡ minus_one
      → (connect_reply a port s k).0.errno ≢ einprogress
      → (t : Sock) × (e2 : RuntimeError) × (connect p ip port s e k
          ≡ done (false, t, e2, (connect_reply a port s k).1))
        × (t.state ≡ created)
        × (t.fd ≡ invalid_socket)
  connect_after_close ip port s e e1 k a keeps res h r n = (
    record s { state = created },
    connect_error s (SocketAddress.str p (some (impl a port))) e1,
    (connect_resolved ip port s e e1 k a keeps res).2 r n,
    refl,
    h,
  )

  -- A host text that is no address, on an IPv4 socket: it is reported in the error object, and yet the
  -- system is asked to bind the address of all interfaces, and Bind() returns true if it does.
  pub bind_malformed :
      (host : Text) (port : ℤ) (s : Sock) (e : RuntimeError) (k : K)
      → p.fall_off ≡ keeps_last
      → s.domain ≡ af_inet
      → p.pton af_inet host ≡ malformed
      → (bind_reply (inet4 any4) port s k).0.ret ≢ minus_one
      → (e1 : RuntimeError) × (bind p host port s e k
          ≡ done (true, s, e1, (bind_reply (inet4 any4) port s k).1))
        × (is_error e1 ≡ true)
  bind_malformed host port s e k keeps dom bad r =
      (e1, (bind_resolved host port s e e1 k (inet4 any4) keeps res).0 r, is_err)
    where
      e1 : RuntimeError
      e1 = malformed4_error host e

      is_err : is_error e1 ≡ true
      is_err = malformed4_error-is_error host e

      res : Resolves s.domain host e (inet4 any4) e1
      res = rw dom (resolves_malformed host e bad)

  -- With a compiler that takes the missing `return` for what the language says, every Bind() and every
  -- Connect() for a text that NewInetAddress() makes an address of is undefined.
  pub bind_undefined :
      (host : Text) (port : ℤ) (s : Sock) (e e1 : RuntimeError) (k : K) (a : InetAddress)
      → p.fall_off ≡ undefined
      → Resolves s.domain host e a e1
      → (bind p host port s e k ≡ fault) × (connect p host port s e k ≡ fault)
  unfolding bind connect target caddr
  bind_undefined host port s e e1 k a u res =
      (rw (res, socket_address_lem a port, u), rw (res, socket_address_lem a port, u))
