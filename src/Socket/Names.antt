-- ===== src/Socket/Names.antt =====
-- The operations of src/net/socket_impl.h that ask for a socket's own or its peer's name, and those
-- that quote a name in their error message.
use taurus.Shared.{Bool, true, false, ◌++◌, [], if◌then◌else◌, Text, codes, Outcome, done, ◌>>=◌}
use taurus.Shared.Int.{ℤ, pos, eq_ℤ, show_int}
use taurus.RuntimeError.{RuntimeError, fresh}
use taurus.Kernel.{
  minus_one, af_inet, af_inet6, Call, sys_getsockname, sys_getpeername, sys_listen, sys_accept,
  Platform,
}
use taurus.Messages.{manipulator, make_socket_runtime_error}
use taurus.Inet
use taurus.Inet.{inet4, inet6_of}
use taurus.SocketAddress
use taurus.SocketAddress.{ntohs, socket_address_of}
use taurus.Socket.{Sock, opened, failed}

module _ {K : Type 0} (p : Platform K) where
  -- GetLocalEndpoint and GetRemoteEndpoint, by the call and the names in their messages
  unfoldable pub endpoint :
      Call → Text → Text → Sock → RuntimeError → K → Outcome (Text × RuntimeError × K)
  unfolding socket_address_of
  endpoint call name hint s e k =
      let (r, k') = p.syscall call k in
      if eq_ℤ r.ret (pos 0)
      then (do a ← socket_address_of r.name; done (SocketAddress.str p a, e, k'))
      else done (
        [],
        failed e (name ++ codes "() error, " ++ manipulator ++ codes " fd:" ++ show_int s.fd) hint,
        k',
      )

  unfoldable pub get_local_endpoint : Sock → RuntimeError → K → Outcome (Text × RuntimeError × K)
  unfolding endpoint
  get_local_endpoint s =
      endpoint (sys_getsockname s.fd) (codes "getsockname") (codes "SocketImpl::GetLocalEndpoint") s

  unfoldable pub get_remote_endpoint : Sock → RuntimeError → K → Outcome (Text × RuntimeError × K)
  unfolding endpoint
  get_remote_endpoint s =
      endpoint (sys_getpeername s.fd) (codes "getpeername") (codes "SocketImpl::GetRemoteEndpoint")
        s

  -- GetLocalAddress and GetRemoteAddress: both speak of getsockname() in their message
  unfoldable pub own_address :
      Call → Text → Sock → RuntimeError → K → Outcome (Text × RuntimeError × K)
  unfolding make_socket_runtime_error inet6_of
  own_address call hint s e k =
      let (r, k') = p.syscall call k in
      if eq_ℤ r.ret minus_one
      then done (
        [],
        failed e
            (make_socket_runtime_error p r.errno
              (codes "getsockname() error, fd: " ++ show_int s.fd))
            hint,
        k',
      )
      else (if eq_ℤ s.domain af_inet
          then done (Inet.str p (inet4 r.name.address), e, k')
          else (if eq_ℤ s.domain af_inet6
              then (do a ← inet6_of r.name.address 16; done (Inet.str p a, e, k'))
              else done (
                [],
                failed e
                    (make_socket_runtime_error p r.errno (
                      codes "bad domain, fd: "
                      ++ show_int s.fd
                      ++ codes ", domain: "
                      ++ show_int s.domain))
                    hint,
                k',
              )))

  unfoldable pub get_local_address : Sock → RuntimeError → K → Outcome (Text × RuntimeError × K)
  unfolding own_address
  get_local_address s = own_address (sys_getsockname s.fd) (codes "SocketImpl::GetLocalAddress") s

  unfoldable pub get_remote_address : Sock → RuntimeError → K → Outcome (Text × RuntimeError × K)
  unfolding own_address
  get_remote_address s = own_address (sys_getpeername s.fd) (codes "SocketImpl::GetRemoteAddress") s

  -- GetLocalPort and GetRemotePort
  unfoldable pub own_port : Call → Text → Text → Sock → RuntimeError → K → ℤ × RuntimeError × K
  own_port call name hint s e k =
      let (r, k') = p.syscall call k in
      if eq_ℤ r.ret minus_one
      then (
        minus_one,
        failed e (name ++ codes "() error, fd: " ++ show_int s.fd ++ codes ". " ++ manipulator)
            hint,
        k',
      )
      else (if eq_ℤ s.domain af_inet
          then (ntohs r.name.port, e, k')
          else (if eq_ℤ s.domain af_inet6 then (ntohs r.name.port, e, k') else (
            minus_one,
            failed e
                (codes "bad domain, fd: "
                  ++ show_int s.fd
                  ++ codes ", domain: "
                  ++ show_int s.domain)
                hint,
            k',
          )))

  unfoldable pub get_local_port : Sock → RuntimeError → K → ℤ × RuntimeError × K
  unfolding own_port
  get_local_port s =
      own_port (sys_getsockname s.fd) (codes "getsockname") (codes "SocketImpl::GetLocalPort") s

  unfoldable pub get_remote_port : Sock → RuntimeError → K → ℤ × RuntimeError × K
  unfolding own_port
  get_remote_port s =
      own_port (sys_getpeername s.fd) (codes "getpeername") (codes "SocketImpl::GetRemotePort") s

  -- Listen: a failure asks for the local address, with an error object that is thrown away
  unfoldable pub listen : ℤ → Sock → RuntimeError → K → Outcome (Bool × Sock × RuntimeError × K)
  unfolding get_local_address
  listen backlog s e k =
      let (r, k') = p.syscall (sys_listen s.fd backlog) k in
      if eq_ℤ r.ret minus_one
      then (do
        (addr, e2, k2) ← get_local_address s fresh k'
        done (
          false,
          s,
          failed e
              (codes "bind() error, fd: "
                ++ show_int s.fd
                ++ codes ", addr: "
                ++ addr
                ++ codes ", "
                ++ manipulator)
              (codes "SocketImpl::Listen"),
          k2,
        ))
      else done (true, record s { state = opened }, e, k')

  -- accept: `t` is the socket that takes the connection
  unfoldable pub accept : Sock → Sock → RuntimeError → K → Outcome (Bool × Sock × RuntimeError × K)
  unfolding get_local_endpoint
  accept s t e k =
      let (r, k') = p.syscall (sys_accept s.fd) k in
      elim r.ret [
        | pos n ↦ done (
          true,
          record t { domain = s.domain; socktype = s.socktype; state = opened; fd = pos n },
          e,
          k',
        )
        | ℤ.negsuc n ↦ do
          (local, e2, k2) ← get_local_endpoint s fresh k'
          done (
            false,
            t,
            failed e
                (codes "accept() error, "
                  ++ manipulator
                  ++ codes " fd: "
                  ++ show_int s.fd
                  ++ codes ", local: "
                  ++ local)
                (codes "SocketImpl::accept"),
            k2,
          )
      ]
