-- ===== src/Kernel.antt =====
-- What the network code asks of the operating system, of libc and of the compiler. None of it is in
-- the repository: it is the record `Platform`, an argument of every definition that uses it. The
-- numeric constants are those of the Linux headers that src/net includes.
use taurus.Shared.{ℕ, List, Option, Outcome, done, fault, Text}
use taurus.Shared.Int.{ℤ, pos, negsuc}

abbrev pub minus_one : ℤ
minus_one = negsuc 0

abbrev pub af_inet : ℤ
af_inet = pos 2

abbrev pub af_inet6 : ℤ
af_inet6 = pos 10

abbrev pub sock_stream : ℤ
sock_stream = pos 1

abbrev pub sock_dgram : ℤ
sock_dgram = pos 2

abbrev pub einprogress : ℕ
einprogress = 115

-- EWOULDBLOCK is the same number.
abbrev pub eagain : ℕ
eagain = 11

abbrev pub shut_rd : ℤ
shut_rd = pos 0

abbrev pub shut_wr : ℤ
shut_wr = pos 1

-- A `struct sockaddr_in` or `sockaddr_in6`: the family, the port in network order, the address
-- bytes. Padding, flow and scope fields are left out: the code neither sets nor reads them.
pub record SockAddr : Type 0 where
  pub family : ℤ
  pub port : List ℕ
  pub address : List ℕ

pub data Call : Type 0 where
  sys_socket : ℤ → ℤ → Call
  sys_close : ℤ → Call
  sys_bind : ℤ → SockAddr → ℕ → Call
  sys_connect : ℤ → SockAddr → ℕ → Call
  sys_listen : ℤ → ℤ → Call
  sys_accept : ℤ → Call
  sys_getsockname : ℤ → Call
  sys_getpeername : ℤ → Call
  sys_shutdown : ℤ → ℤ → Call
  sys_recv : ℤ → ℕ → Call
  sys_send : ℤ → List ℕ → Call
  sys_recvfrom : ℤ → ℕ → Call
  sys_sendto : ℤ → List ℕ → Option SockAddr → Call
  sys_setsockopt : ℤ → ℤ → ℤ → List ℤ → Call
  sys_getsockopt : ℤ → ℤ → ℤ → Call
  sys_getfl : ℤ → Call
  sys_setfl : ℤ → ℕ → Call

-- The result, `errno` after it, and what the call wrote through its pointers: bytes received, the
-- fields of an option, an address. A null address of sendto is `none`.
pub record Reply : Type 0 where
  pub ret : ℤ
  pub errno : ℕ
  pub bytes : List ℕ
  pub fields : List ℤ
  pub name : SockAddr

-- inet_pton: 1, 0 or -1
pub data Pton : Type 0 where
  parsed : List ℕ → Pton
  malformed unsupported : Pton

-- A function with a result that ends without a `return`. The language leaves it undefined; an
-- unoptimised build returns what the last call left in the result register.
pub data FallOff : Type 0 where
  undefined keeps_last : FallOff

-- `K` is the state of the system.
pub record Platform (K : Type 0) : Type 0 where
  pub syscall : Call → K → Reply × K
  pub pton : ℤ → Text → Pton
  pub ntop : ℤ → List ℕ → Option Text
  pub strerror : ℕ → Text
  -- what an array of the object holds that no constructor has set
  pub uninitialised : List ℕ
  pub fall_off : FallOff

abbrev pub without_return {ℓ} : {A : Type ℓ} → FallOff → A → Outcome A
without_return undefined a = fault
without_return keeps_last a = done a
