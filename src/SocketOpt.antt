-- ===== src/SocketOpt.antt =====
-- The option classes of src/net/socket_opt_impl.h, and the block mode of src/net/socket_base.cpp. What
-- an option's structure holds is a list of its fields. The error text of Set has the address of the
-- value in it: the argument `at`. The constants are those of the Linux headers.
pub mod Values
mod Tests
use taurus.Shared.{
  ℕ, suc, ◌+◌, ◌-◌, ◌*◌, ◌/◌, ◌%◌, ◌^◌, Bool, true, false, ◌&&◌, not, List, [], ◌∷◌, ◌++◌, get_or,
  ltb, ◌==◌, if◌then◌else◌, Option, none, some, Text, codes, digits, zero,
}
use taurus.Shared.Int.{ℤ, pos, negsuc, eq_ℤ, show_int, ◌*ℤ◌, ◌+ℤ◌}
use taurus.RuntimeError.{RuntimeError, set}
use taurus.Kernel.{minus_one, Platform, Reply, sys_setsockopt, sys_getsockopt, sys_getfl, sys_setfl}
use taurus.Messages.{manipulator}

-- SOL_SOCKET: the level of every option here
abbrev pub sol_socket : ℤ
sol_socket = pos 1

-- The five classes whose value is an int, and the two whose value is a time
pub data IntOption : Type 0 where
  reuse_addr recv_buffer send_buffer keep_alive tcp_nodelay : IntOption

pub data TimeOption : Type 0 where
  send_timeout recv_timeout : TimeOption

-- SO_REUSEADDR, SO_RCVBUF, SO_SNDBUF, SO_KEEPALIVE and TCP_NODELAY
unfoldable pub int_name : IntOption → ℤ
int_name reuse_addr = pos 2
int_name recv_buffer = pos 8
int_name send_buffer = pos 7
int_name keep_alive = pos 9
int_name tcp_nodelay = pos 1

-- SO_SNDTIMEO and SO_RCVTIMEO
unfoldable pub time_name : TimeOption → ℤ
time_name send_timeout = pos 21
time_name recv_timeout = pos 20

-- SO_LINGER
abbrev pub so_linger : ℤ
so_linger = pos 13

-- Division of C, towards zero, and its remainder
abbrev pub minus : ℕ → ℤ
minus zero = pos 0
minus (suc n) = negsuc n

abbrev pub quot : ℤ → ℕ → ℤ
quot (pos n) m = pos (n / m)
quot (negsuc n) m = minus (suc n / m)

abbrev pub rem : ℤ → ℕ → ℤ
rem (pos n) m = pos (n % m)
rem (negsuc n) m = minus (suc n % m)

-- (int) of a wider integer: the low 32 bits, signed
abbrev pub low32 : ℤ → ℕ
low32 (pos n) = n % 2 ^ 32
low32 (negsuc n) = 2 ^ 32 - 1 - n % 2 ^ 32

abbrev pub to_int : ℤ → ℤ
to_int z = if ltb (low32 z) (2 ^ 31) then pos (low32 z) else negsuc (2 ^ 32 - 1 - low32 z)

-- tv_sec and tv_usec of a number of milliseconds, and back
unfoldable pub timeval : ℤ → List ℤ
unfolding ◌*ℤ◌
timeval ms = quot ms 1000 ∷ (rem ms 1000 *ℤ pos 1000) ∷ []

unfoldable pub milliseconds : List ℤ → ℤ
unfolding ◌*ℤ◌ ◌+ℤ◌
milliseconds t = to_int (get_or t 0 (pos 0) *ℤ pos 1000 +ℤ quot (get_or t 1 (pos 0)) 1000)

-- l_onoff and l_linger of a number of seconds, and back
unfoldable pub linger : ℤ → List ℤ
linger secs = (if eq_ℤ secs (pos 0) then pos 0 else pos 1) ∷ secs ∷ []

unfoldable pub linger_seconds : List ℤ → ℤ
linger_seconds t = if eq_ℤ (get_or t 0 (pos 0)) (pos 0) then pos 0 else get_or t 1 (pos 0)

-- sizeof of the value: int, timeval, linger
abbrev pub int_size : ℕ
int_size = 4

abbrev pub timeval_size : ℕ
timeval_size = 16

abbrev pub linger_size : ℕ
linger_size = 8

unfoldable pub set_error : ℤ → ℤ → ℤ → Text → ℕ → RuntimeError → RuntimeError
unfolding set
set_error fd level name at len e =
    set minus_one
      (codes "setsockopt failed, "
        ++ manipulator
        ++ codes " fd: "
        ++ show_int fd
        ++ codes ", level: "
        ++ show_int level
        ++ codes ", optname: "
        ++ show_int name
        ++ codes ", valueptr: "
        ++ at
        ++ codes ", value_len: "
        ++ digits len
        ++ codes ". ")
      (some (codes "SocketOptImpl::Set")) e

unfoldable pub get_error : ℤ → ℤ → ℤ → RuntimeError → RuntimeError
unfolding set
get_error fd level name e =
    set minus_one
      (codes "getsockopt failed, "
        ++ manipulator
        ++ codes " fd: "
        ++ show_int fd
        ++ codes ", level: "
        ++ show_int level
        ++ codes ", optname: "
        ++ show_int name
        ++ codes ". ")
      (some (codes "SocketOptImpl::Get")) e

-- The error of SocketBase::set_block_mode and get_block_mode. O_NONBLOCK is the bit 2^11; the flags that
-- fcntl returns are no negative number unless it fails.
unfoldable pub fcntl_error : Text → ℤ → Text → RuntimeError → RuntimeError
unfolding set
fcntl_error call fd hint e =
    set minus_one
      (codes "fcntl(" ++ call ++ codes ") error, " ++ manipulator ++ codes ", fd: " ++ show_int fd)
      (some hint) e

abbrev pub non_block : ℕ → Bool
non_block flags = (flags / 2 ^ 11) % 2 == 1

module _ {K : Type 0} (p : Platform K) where
  -- SocketOptImpl::Set
  unfoldable pub set_option :
      ℤ → ℤ → ℤ → List ℤ → Text → ℕ → RuntimeError → K → Bool × RuntimeError × K
  set_option fd level name value at len e k =
      let (r, k') = p.syscall (sys_setsockopt fd level name value) k in
      if eq_ℤ r.ret minus_one then (false, set_error fd level name at len e, k') else (true, e, k')

  -- SocketOptImpl::Get: the fields that the system filled in, or `none` if it did not
  unfoldable pub get_option : ℤ → ℤ → ℤ → RuntimeError → K → Option (List ℤ) × RuntimeError × K
  get_option fd level name e k =
      let (r, k') = p.syscall (sys_getsockopt fd level name) k in
      if eq_ℤ r.ret minus_one then (none, get_error fd level name e, k') else (some r.fields, e, k')

  -- Set(int) and Get(int *) of the five classes
  unfoldable pub set_int : IntOption → ℤ → ℤ → Text → RuntimeError → K → Bool × RuntimeError × K
  set_int o fd value at e k = set_option fd sol_socket (int_name o) (value ∷ []) at int_size e k

  unfoldable pub get_int : IntOption → ℤ → RuntimeError → K → Option ℤ × RuntimeError × K
  get_int o fd e k =
      let (v, e', k') = get_option fd sol_socket (int_name o) e k in
      (elim v [ none ↦ none | some t ↦ some (get_or t 0 (pos 0)) ], e', k')

  -- Set(int ms) and Get(int *ms) of the two timeouts
  unfoldable pub set_time : TimeOption → ℤ → ℤ → Text → RuntimeError → K → Bool × RuntimeError × K
  unfolding timeval
  set_time o fd ms at e k = set_option fd sol_socket (time_name o) (timeval ms) at timeval_size e k

  unfoldable pub get_time : TimeOption → ℤ → RuntimeError → K → Option ℤ × RuntimeError × K
  get_time o fd e k =
      let (v, e', k') = get_option fd sol_socket (time_name o) e k in
      (elim v [ none ↦ none | some t ↦ some (milliseconds t) ], e', k')

  -- SocketOptLinger
  unfoldable pub set_linger : ℤ → ℤ → Text → RuntimeError → K → Bool × RuntimeError × K
  set_linger fd secs at e k = set_option fd sol_socket so_linger (linger secs) at linger_size e k

  unfoldable pub get_linger : ℤ → RuntimeError → K → Option ℤ × RuntimeError × K
  get_linger fd e k =
      let (v, e', k') = get_option fd sol_socket so_linger e k in
      (elim v [ none ↦ none | some t ↦ some (linger_seconds t) ], e', k')

  -- SocketBase::set_block_mode
  unfoldable pub set_block_mode : Bool → ℤ → RuntimeError → K → Bool × RuntimeError × K
  set_block_mode blocked fd e k =
      let (r, k1) = p.syscall (sys_getfl fd) k in
      elim r.ret [
        | negsuc _ ↦
            (false, fcntl_error (codes "F_GETFL") fd (codes "SocketBase::set_block_mode") e, k1)
        | pos flags ↦
            let clear = p.syscall (sys_setfl fd (flags - 2 ^ 11)) k1 in
            let raise = p.syscall (sys_setfl fd (flags + 2 ^ 11)) k1 in
            let (r2, k2) : Reply × K =
              if non_block flags && blocked
              then clear
              else (if not (non_block flags) && not blocked then raise else (r, k1)) in
            elim r2.ret [
              | negsuc _ ↦ (
                false,
                fcntl_error (codes "F_SETFL") fd (codes "SocketBase::set_block_mode") e,
                k2,
              )
              | pos _ ↦ (true, e, k2)
            ]
      ]

  -- get_block_mode(e): 0 for non-blocking, 1 for blocking, -1 for a failure
  unfoldable pub get_block_mode : ℤ → RuntimeError → K → ℤ × RuntimeError × K
  get_block_mode fd e k =
      let (r, k1) = p.syscall (sys_getfl fd) k in
      elim r.ret [
        | negsuc _ ↦
            (minus_one, fcntl_error (codes "F_GETFL") fd (codes "SocketBase::get_block_mode") e, k1)
        | pos flags ↦ ((if non_block flags then pos 0 else pos 1), e, k1)
      ]
