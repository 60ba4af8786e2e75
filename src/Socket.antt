-- ===== src/Socket.antt =====
-- `class SocketImpl` of src/net/socket_impl.h: the state of a socket and its operations. Each takes
-- the socket, the error object and the state of the system, and returns them anew.
pub mod Names
pub mod Lifecycle
pub mod States
pub mod Binding
pub mod Descriptors
pub mod Ownership
pub mod Peers
mod OwnershipTests
mod Tests
use taurus.Shared.{
  ℕ, ◌≡◌, refl, Bool, true, false, not, List, [], ◌∷◌, ◌++◌, if◌then◌else◌, ◌==◌, Option, none,
  some, Text, codes, Outcome, done, abort, fault, ◌>>=◌,
}
use taurus.Shared.Int.{ℤ, pos, eq_ℤ, show_int}
use taurus.RuntimeError.{RuntimeError, fresh, is_error, set, push}
use taurus.Kernel.{
  minus_one, einprogress, shut_rd, shut_wr, SockAddr, Call, sys_socket, sys_close, sys_bind,
  sys_connect, sys_shutdown, Reply, Platform,
}
use taurus.Messages.{manipulator, new_inet_address, sock_proto_str}
use taurus.SocketAddress
use taurus.SocketAddress.{InetSocketAddress, socket_address, caddr, caddr_size}

-- EnumSocketState
pub data SockState : Type 0 where
  closed created opened opening : SockState

-- `m_shutdown` is a set of two bits, SOCK_SHUT_READ and SOCK_SHUT_WRITE.
pub record Sock : Type 0 where
  pub fd : ℤ
  pub state : SockState
  pub shut_read : Bool
  pub shut_write : Bool
  pub domain : ℤ
  pub socktype : ℤ

abbrev pub invalid_socket : ℤ
invalid_socket = minus_one

abbrev pub is_open : Sock → Bool
is_open s = not (eq_ℤ s.fd invalid_socket)

-- SocketImpl()
abbrev pub new_sock : Sock
new_sock = record {
  fd = invalid_socket;
  state = closed;
  shut_read = false;
  shut_write = false;
  domain = pos 0;
  socktype = pos 0;
}

-- SocketImpl(SocketImpl &&): the new socket and the old one. `m_shutdown` of the new one is not set
-- by the constructor: `bits` is what it held.
unfoldable pub move : Bool × Bool → Sock → Sock × Sock
move bits other = (
  record {
    fd = other.fd;
    state = other.state;
    shut_read = bits.0;
    shut_write = bits.1;
    domain = other.domain;
    socktype = other.socktype;
  },
  record other { fd = invalid_socket; state = closed },
)

-- operator=(SocketImpl &&): throws if this socket has a descriptor
unfoldable pub move_assign : Sock → Sock → Outcome (Sock × Sock)
move_assign s other =
    if is_open s
    then abort
    else done (
      record s {
        fd = other.fd;
        state = other.state;
        domain = other.domain;
        socktype = other.socktype;
      },
      record other { fd = invalid_socket; state = closed },
    )

-- The error that every failure sets: code -1, a message, the function as the hint.
unfoldable pub failed : RuntimeError → Text → Text → RuntimeError
failed e msg where_ = set minus_one msg (some where_) e

pub failed-is_error : (e : RuntimeError) (msg hint : Text) → is_error (failed e msg hint) ≡ true
unfolding failed is_error set
failed-is_error e msg hint = refl

unfoldable pub close_error : Sock → RuntimeError → RuntimeError
unfolding failed
close_error s e =
    failed e (codes "close() socket error, fd: " ++ show_int s.fd ++ manipulator)
      (codes "SocketImpl::Close")

pub close_error-is_error : (s : Sock) (e : RuntimeError) → is_error (close_error s e) ≡ true
unfolding close_error is_error set
close_error-is_error s e = refl

unfoldable pub create_error : ℤ → ℤ → RuntimeError → RuntimeError
unfolding failed
create_error af type e =
    failed e
      (codes "socket() error, " ++ manipulator ++ codes " protocol: " ++ sock_proto_str af type)
      (codes "SocketImpl::Create")

pub create_error-is_error :
    (af type : ℤ) (e : RuntimeError) → is_error (create_error af type e) ≡ true
unfolding create_error is_error set
create_error-is_error af type e = refl

unfoldable pub bind_error : Sock → Text → RuntimeError → RuntimeError
unfolding failed
bind_error s local e =
    failed e
      (codes "bind() error, fd: "
        ++ show_int s.fd
        ++ codes ". "
        ++ codes "local address: "
        ++ local
        ++ codes ", "
        ++ manipulator)
      (codes "SocketImpl::Bind")

unfoldable pub connect_error : Sock → Text → RuntimeError → RuntimeError
unfolding failed
connect_error s remote e =
    failed e
      (codes "connect() error, "
        ++ manipulator
        ++ codes " fd: "
        ++ show_int s.fd
        ++ codes ", remote: "
        ++ remote)
      (codes "SocketImpl::Connect")

pub bind_error-is_error :
    (s : Sock) (local : Text) (e : RuntimeError)
    → (is_error (bind_error s local e) ≡ true) × (is_error (connect_error s local e) ≡ true)
unfolding bind_error connect_error is_error set
bind_error-is_error s local e = (refl, refl)

module _ {K : Type 0} (p : Platform K) where
  -- Close
  unfoldable pub close : Sock → RuntimeError → K → Bool × Sock × RuntimeError × K
  close s e k =
      if is_open s
      then (let (r, k') = p.syscall (sys_close s.fd) k in
          if eq_ℤ r.ret minus_one
          then (false, record s { state = closed }, close_error s e, k')
          else (true, record s { state = closed; fd = invalid_socket }, e, k'))
      else (true, s, e, k)

  -- ~SocketImpl(): what is left of the system
  unfoldable pub destroy : Sock → K → K
  unfolding close
  destroy s k = (close s fresh k).3

  -- Create: throws if there is a descriptor
  unfoldable pub create : ℤ → ℤ → Sock → RuntimeError → K → Outcome (Bool × Sock × RuntimeError × K)
  create af type s e k =
      if is_open s
      then abort
      else (let (r, k') = p.syscall (sys_socket af type) k in
          if eq_ℤ r.ret invalid_socket
          then done (false, s, create_error af type e, k')
          else done
              (true, record s { fd = r.ret; state = created; domain = af; socktype = type }, e, k'))

  -- The address and its size as the system calls take them. A null address, which caddr() returns
  -- for an object that holds nothing, does not occur here.
  unfoldable pub target : InetSocketAddress → Outcome (SockAddr × ℕ)
  unfolding caddr caddr_size
  target a = do c ← caddr p a; n ← caddr_size p a; elim c [ none ↦ fault | some x ↦ done (x, n) ]

  -- Bind
  unfoldable pub bind :
      Text → ℤ → Sock → RuntimeError → K → Outcome (Bool × Sock × RuntimeError × K)
  bind host port s e k = do
    (found, e1) ← new_inet_address p s.domain host e
    elim found [
      | none ↦ done (
        false,
        s,
        push (codes "SocketImpl::Bind() failed, fd: " ++ show_int s.fd ++ codes ". ") e1,
        k,
      )
      | some a ↦ do
        sa ← socket_address a port
        (x, n) ← target sa
        let (r, k') = p.syscall (sys_bind s.fd x n) k
        if eq_ℤ r.ret minus_one
            then done (false, s, bind_error s (SocketAddress.str p sa) e1, k')
            else done (true, s, e1, k')
    ]

  -- Connect
  unfoldable pub connect :
      Text → ℤ → Sock → RuntimeError → K → Outcome (Bool × Sock × RuntimeError × K)
  connect ip port s e k = do
    (found, e1) ← new_inet_address p s.domain ip e
    elim found [
      | none ↦ done (
        false,
        s,
        push (codes "SocketImpl::Connect() failed, fd: " ++ show_int s.fd ++ codes ". ") e1,
        k,
      )
      | some a ↦ do
        sa ← socket_address a port
        (x, n) ← target sa
        let (r, k') = p.syscall (sys_connect s.fd x n) k
        if eq_ℤ r.ret minus_one
            then done (
              false,
              record s { state = if r.errno == einprogress then opening else created },
              connect_error s (SocketAddress.str p sa) e1,
              k',
            )
            else done (true, record s { state = opened }, e1, k')
    ]

  -- ShutdownInput
  unfoldable pub shutdown_input : Sock → RuntimeError → K → Bool × Sock × RuntimeError × K
  shutdown_input s e k =
      if is_open s
      then (let (r, k') = p.syscall (sys_shutdown s.fd shut_rd) k in
          if eq_ℤ r.ret minus_one
          then (
            false,
            record s { shut_read = true },
            failed e
                (codes "shutdown(RD) error, fd: " ++ show_int s.fd ++ codes ", " ++ manipulator)
                (codes "SocketImpl::ShutdownInput"),
            k',
          )
          else (true, record s { shut_read = true }, e, k'))
      else (true, s, e, k)

  -- ShutdownOutput
  unfoldable pub shutdown_output : Sock → RuntimeError → K → Bool × Sock × RuntimeError × K
  shutdown_output s e k =
      if is_open s
      then (let (r, k') = p.syscall (sys_shutdown s.fd shut_wr) k in
          if eq_ℤ r.ret minus_one
          then (
            false,
            record s { shut_write = true },
            failed e
                (codes "shutdown(WR) error, fd: " ++ show_int s.fd ++ codes ", " ++ manipulator)
                (codes "SocketImpl::ShutdownOutput"),
            k',
          )
          else (true, record s { shut_write = true }, e, k'))
      else (true, s, e, k)
