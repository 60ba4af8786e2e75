-- ===== src/Facade/Quiet.antt =====
-- The methods of src/net/socket_base.cpp that take no error object: they make one, and throw it or forget
-- it.
use taurus.Shared.{Bool, if◌then◌else◌, Text, Outcome, done, abort, ◌>>=◌}
use taurus.Shared.Int.{ℤ, pos, negsuc}
use taurus.RuntimeError.{fresh, is_error}
use taurus.Kernel.{minus_one, Platform, sys_getfl, without_return}
use taurus.Socket
use taurus.Socket.{Sock}
use taurus.Socket.Names
use taurus.SocketOpt.{
  reuse_addr, keep_alive, tcp_nodelay, recv_timeout, get_int, get_time, non_block,
}
use taurus.Facade.{flag, value_or_minus}

module _ {K : Type 0} (p : Platform K) where
  unfoldable pub local_addr_or_throw : Sock → K → Outcome (Text × K)
  local_addr_or_throw s k = do
    (text, e, k') ← Names.get_local_address p s fresh k
    if is_error e then abort else done (text, k')

  -- It ends without a return: `left` is what the result register holds then.
  unfoldable pub local_port_or_throw : ℤ → Sock → K → Outcome (ℤ × K)
  local_port_or_throw left s k =
      let (port, e, k') = Names.get_local_port p s fresh k in
      if is_error e then abort else without_return p.fall_off (left, k')

  unfoldable pub local_name_or_throw : Sock → K → Outcome (Text × K)
  local_name_or_throw s k = do
    (text, e, k') ← Names.get_local_endpoint p s fresh k
    if is_error e then abort else done (text, k')

  -- get_block_mode()
  unfoldable pub get_block_mode_quiet : Sock → K → ℤ × K
  get_block_mode_quiet s k =
      let (r, k') = p.syscall (sys_getfl s.fd) k in
      elim r.ret [
        | negsuc _ ↦ (minus_one, k')
        | pos flags ↦ ((if non_block flags then pos 0 else pos 1), k')
      ]

  unfoldable pub shutdown_input_quiet : Sock → K → Bool × Sock × K
  shutdown_input_quiet s k =
      let (isok, s', e, k') = Socket.shutdown_input p s fresh k in (isok, s', k')

  unfoldable pub shutdown_output_quiet : Sock → K → Bool × Sock × K
  shutdown_output_quiet s k =
      let (isok, s', e, k') = Socket.shutdown_output p s fresh k in (isok, s', k')

  -- get_reuse_addr(), get_so_timeout(), get_so_keepalive() and get_tcp_nodelay()
  unfoldable pub get_reuse_addr_quiet : Sock → K → ℤ × K
  get_reuse_addr_quiet s k = let (v, e, k') = get_int p reuse_addr s.fd fresh k in (flag v, k')

  unfoldable pub get_so_timeout_quiet : Sock → K → ℤ × K
  get_so_timeout_quiet s k =
      let (v, e, k') = get_time p recv_timeout s.fd fresh k in (value_or_minus v, k')

  unfoldable pub get_so_keepalive_quiet : Sock → K → ℤ × K
  get_so_keepalive_quiet s k = let (v, e, k') = get_int p keep_alive s.fd fresh k in (flag v, k')

  unfoldable pub get_tcp_nodelay_quiet : Sock → K → ℤ × K
  get_tcp_nodelay_quiet s k =
      let (v, e, k') = get_int p tcp_nodelay s.fd fresh k in (value_or_minus v, k')

  -- remote(), remote_addr() and remote_port()
  unfoldable pub remote_name_quiet : Sock → K → Outcome (Text × K)
  remote_name_quiet s k = do (text, e, k') ← Names.get_remote_endpoint p s fresh k; done (text, k')

  unfoldable pub remote_addr_quiet : Sock → K → Outcome (Text × K)
  remote_addr_quiet s k = do (text, e, k') ← Names.get_remote_address p s fresh k; done (text, k')

  unfoldable pub remote_port_quiet : Sock → K → ℤ × K
  remote_port_quiet s k = let (port, e, k') = Names.get_remote_port p s fresh k in (port, k')
