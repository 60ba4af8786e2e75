-- ===== src/Facade.antt =====
-- `class SocketBase`, `class ServerSocket` and `class StreamSocket` of src/net/socket_base.cpp: what they
-- pass on to the implementation object, the options and the reader and writer. The type name, a text
-- that nothing reads, is left out. Quiet has the
-- methods that make their own error object.
pub mod Quiet
pub mod Streams
mod Tests
use taurus.Shared.{
  ℕ, Bool, true, false, List, if◌then◌else◌, Option, none, some, Text, Outcome, done, abort, ◌>>=◌,
}
use taurus.Shared.Int.{ℤ, pos, negsuc, eq_ℤ}
use taurus.RuntimeError.{RuntimeError, fresh, is_error}
use taurus.Kernel.{minus_one, sock_stream, Platform, sys_getfl, without_return}
use taurus.Socket
use taurus.Socket.{Sock, SockState, new_sock, closed, opened, opening, created}
use taurus.Socket.Names
use taurus.SocketIo.{Io, open_on, read_all, write_all}
use taurus.SocketOpt.{
  IntOption, reuse_addr, keep_alive, tcp_nodelay, recv_timeout, set_int, get_int, set_time,
  get_time, non_block,
}

-- State() == SOCK_STATE_CLOSED, ..._OPEN and ..._OPENING
unfoldable pub is_closed : Sock → Bool
is_closed s = elim s.state [ closed ↦ true | created ↦ false | opened ↦ false | opening ↦ false ]

unfoldable pub is_connected : Sock → Bool
is_connected s = elim s.state [ closed ↦ false | created ↦ false | opened ↦ true | opening ↦ false ]

unfoldable pub is_connecting : Sock → Bool
is_connecting s = elim s.state [
  | closed ↦ false
  | created ↦ false
  | opened ↦ false
  | opening ↦ true
]

-- is_input_shutdown and is_output_shutdown
unfoldable pub is_input_shutdown : Sock → Bool
is_input_shutdown s = s.shut_read

unfoldable pub is_output_shutdown : Sock → Bool
is_output_shutdown s = s.shut_write

-- value?1:0, or -1 without a value
unfoldable pub flag : Option ℤ → ℤ
flag none = minus_one
flag (some v) = if eq_ℤ v (pos 0) then pos 0 else pos 1

-- The value, or -1 without one
unfoldable pub value_or_minus : Option ℤ → ℤ
value_or_minus none = minus_one
value_or_minus (some v) = v

module _ {K : Type 0} (p : Platform K) where
  -- SocketBase: ~SocketBase, close, bind
  unfoldable pub destroy_base : Sock → K → K
  destroy_base s k = Socket.destroy p s k

  unfoldable pub close_base : Sock → RuntimeError → K → Bool × Sock × RuntimeError × K
  close_base s e k = Socket.close p s e k

  unfoldable pub bind_base :
      Text → ℤ → Sock → RuntimeError → K → Outcome (Bool × Sock × RuntimeError × K)
  bind_base host port s e k = Socket.bind p host port s e k

  -- local_addr, local_port and local
  unfoldable pub local_addr : Sock → RuntimeError → K → Outcome (Text × RuntimeError × K)
  local_addr s e k = Names.get_local_address p s e k

  unfoldable pub local_port : Sock → RuntimeError → K → ℤ × RuntimeError × K
  local_port s e k = Names.get_local_port p s e k

  unfoldable pub local_name : Sock → RuntimeError → K → Outcome (Text × RuntimeError × K)
  local_name s e k = Names.get_local_endpoint p s e k

  -- set_reuse_addr and get_reuse_addr; `at` is the address of the value
  unfoldable pub set_reuse_addr : ℤ → Text → Sock → RuntimeError → K → Bool × RuntimeError × K
  set_reuse_addr on at s e k = set_int p reuse_addr s.fd on at e k

  unfoldable pub get_reuse_addr : Sock → RuntimeError → K → ℤ × RuntimeError × K
  get_reuse_addr s e k = let (v, e', k') = get_int p reuse_addr s.fd e k in (flag v, e', k')

  -- ServerSocket and StreamSocket: create
  unfoldable pub create_stream :
      ℤ → Sock → RuntimeError → K → Outcome (Bool × Sock × RuntimeError × K)
  create_stream domain s e k = Socket.create p domain sock_stream s e k

  -- ServerSocket: listen, and accept into a new socket and into a given one
  unfoldable pub listen : ℤ → Sock → RuntimeError → K → Outcome (Bool × Sock × RuntimeError × K)
  listen backlog s e k = Names.listen p backlog s e k

  unfoldable pub accept_new : Sock → RuntimeError → K → Outcome (Option Sock × RuntimeError × K)
  accept_new s e k = do
    (isok, t, e', k') ← Names.accept p s new_sock e k
    if isok then done (some t, e', k') else done (none, e', Socket.destroy p t k')

  unfoldable pub accept_into :
      Sock → Sock → RuntimeError → K → Outcome (Bool × Sock × RuntimeError × K)
  accept_into s t e k = Names.accept p s t e k

  -- set_so_timeout and get_so_timeout: of receiving
  unfoldable pub set_so_timeout : ℤ → Text → Sock → RuntimeError → K → Bool × RuntimeError × K
  set_so_timeout timeout at s e k = set_time p recv_timeout s.fd timeout at e k

  unfoldable pub get_so_timeout : Sock → RuntimeError → K → ℤ × RuntimeError × K
  get_so_timeout s e k =
      let (v, e', k') = get_time p recv_timeout s.fd e k in (value_or_minus v, e', k')

  -- StreamSocket: connect, send, receive, the two shutdowns
  unfoldable pub connect_stream :
      Text → ℤ → Sock → RuntimeError → K → Outcome (Bool × Sock × RuntimeError × K)
  connect_stream ip port s e k = Socket.connect p ip port s e k

  unfoldable pub send : List ℕ → ℕ → Sock → RuntimeError → K → Outcome (ℤ × RuntimeError × K)
  send buf len s e k = do (r, io, e', k') ← write_all p (open_on s.fd buf len) e k; done (r, e', k')

  -- The result has the buffer as it is afterwards.
  unfoldable pub receive :
      List ℕ → ℕ → Sock → RuntimeError → K → Outcome (ℤ × List ℕ × RuntimeError × K)
  receive buf len s e k = do
    (r, io, e', k') ← read_all p (open_on s.fd buf len) e k
    done (r, io.mem, e', k')

  unfoldable pub shutdown_input : Sock → RuntimeError → K → Bool × Sock × RuntimeError × K
  shutdown_input s e k = Socket.shutdown_input p s e k

  unfoldable pub shutdown_output : Sock → RuntimeError → K → Bool × Sock × RuntimeError × K
  shutdown_output s e k = Socket.shutdown_output p s e k

  -- remote, remote_addr and remote_port
  unfoldable pub remote_name : Sock → RuntimeError → K → Outcome (Text × RuntimeError × K)
  remote_name s e k = Names.get_remote_endpoint p s e k

  unfoldable pub remote_addr : Sock → RuntimeError → K → Outcome (Text × RuntimeError × K)
  remote_addr s e k = Names.get_remote_address p s e k

  unfoldable pub remote_port : Sock → RuntimeError → K → ℤ × RuntimeError × K
  remote_port s e k = Names.get_remote_port p s e k

  -- SO_KEEPALIVE and TCP_NODELAY
  unfoldable pub set_so_keepalive : ℤ → Text → Sock → RuntimeError → K → Bool × RuntimeError × K
  set_so_keepalive enable at s e k = set_int p keep_alive s.fd enable at e k

  unfoldable pub get_so_keepalive : Sock → RuntimeError → K → ℤ × RuntimeError × K
  get_so_keepalive s e k = let (v, e', k') = get_int p keep_alive s.fd e k in (flag v, e', k')

  unfoldable pub set_tcp_nodelay : ℤ → Text → Sock → RuntimeError → K → Bool × RuntimeError × K
  set_tcp_nodelay nodelay at s e k = set_int p tcp_nodelay s.fd nodelay at e k

  unfoldable pub get_tcp_nodelay : Sock → RuntimeError → K → ℤ × RuntimeError × K
  get_tcp_nodelay s e k =
      let (v, e', k') = get_int p tcp_nodelay s.fd e k in (value_or_minus v, e', k')
