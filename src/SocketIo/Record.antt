-- ===== src/SocketIo/Record.antt =====
-- A system that writes down what it is given through src/net/socket_io_impl.h and accepts.
use taurus.Shared.{ℕ, List, ◌++◌, take}
use taurus.Shared.Int.{ℤ, pos}
use taurus.Kernel.{Platform, Call, sys_send, sys_sendto}

-- Of the bytes that a send or a sendto hands over, as many as the result says.
abbrev pub note : Call → ℤ → List ℕ → List ℕ
note (sys_send fd bytes) (pos n) log = log ++ take n bytes
note (sys_sendto fd bytes addr) (pos n) log = log ++ take n bytes
note c ret log = log

-- The system `p` with all that it has accepted beside its state
abbrev pub recorded : {K : Type 0} → Platform K → Platform (K × List ℕ)
recorded p = record {
  syscall = λ c u. let (r, k') = p.syscall c (u.0) in (r, (k', note c r.ret (u.1)));
  pton = p.pton;
  ntop = p.ntop;
  strerror = p.strerror;
  uninitialised = p.uninitialised;
  fall_off = p.fall_off;
}
