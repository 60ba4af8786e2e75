-- ===== src/SocketOpt/Values.antt =====
-- What the option classes of src/net/socket_opt_impl.h and the block mode of src/net/socket_base.cpp
-- put into the system and get back.
use taurus.Shared.{
  ℕ, ◌+◌, ◌-◌, ◌/◌, ◌%◌, ◌^◌, ◌<◌, ◌≡◌, ◌≢◌, refl, Bool, true, false, not, some, Text, codes, arith,
}
use taurus.Shared.Int.{ℤ, pos, negsuc, eq_ℤ-false, ◌*ℤ◌, ◌+ℤ◌}
use taurus.RuntimeError.{RuntimeError, is_error}
use taurus.Kernel.{minus_one, Platform, sys_setsockopt, sys_getsockopt, sys_getfl, sys_setfl}
use taurus.SocketOpt.{
  fcntl_error, TimeOption, time_name, sol_socket, so_linger, timeval, milliseconds, linger,
  linger_seconds, set_option, get_option, set_time, get_time, set_linger, get_linger,
  set_block_mode, non_block,
}

-- The range of an int
abbrev pub IsInt : ℤ → Type 0
IsInt (pos n) = n < 2 ^ 31
IsInt (negsuc n) = n < 2 ^ 31

milliseconds-timeval : (ms : ℤ) → IsInt ms → milliseconds (timeval ms) ≡ ms
unfolding milliseconds timeval ◌*ℤ◌ ◌+ℤ◌
milliseconds-timeval (pos n) h = ground arith
milliseconds-timeval (negsuc n) h = ground arith

linger_seconds-linger : (secs : ℤ) → linger_seconds (linger secs) ≡ secs
unfolding linger_seconds linger
linger_seconds-linger secs = ground arith

-- The errors of set_block_mode
abbrev unread : ℤ → RuntimeError → RuntimeError
unread fd e = fcntl_error (codes "F_GETFL") fd (codes "SocketBase::set_block_mode") e

abbrev unset : ℤ → RuntimeError → RuntimeError
unset fd e = fcntl_error (codes "F_SETFL") fd (codes "SocketBase::set_block_mode") e

fcntl_error-is_error :
    (call : Text) (fd : ℤ) (hint : Text) (e : RuntimeError)
    → is_error (fcntl_error call fd hint e) ≡ true
unfolding fcntl_error is_error
fcntl_error-is_error call fd hint e = refl

module _ {K : Type 0} (p : Platform K) where
  -- Setting a timeout of any int of milliseconds and reading it back: if the system takes the time and
  -- gives the same structure back, both calls succeed, the error object stays, and the number
  -- read is the number set.
  pub get_time-set_time :
      (o : TimeOption) (fd ms : ℤ) (at : Text) (e : RuntimeError) (k : K)
      → IsInt ms
      → let (r1, k1) = p.syscall (sys_setsockopt fd sol_socket (time_name o) (timeval ms)) k in
        let (r2, k2) = p.syscall (sys_getsockopt fd sol_socket (time_name o)) k1 in
        r1.ret ≢ minus_one
        → r2.ret ≢ minus_one
        → r2.fields ≡ timeval ms
        → (set_time p o fd ms at e k ≡ (true, e, k1)) × (get_time p o fd e k1 ≡ (some ms, e, k2))
  unfolding set_time get_time set_option get_option
  get_time-set_time o fd ms at e k small h1 h2 same = (
    rw (eq_ℤ-false _ _ h1) refl,
    rw (eq_ℤ-false _ _ h2, same, milliseconds-timeval ms small) refl,
  )

  -- The same of the linger time, for every number of seconds, 0 (which turns it off) among them
  pub get_linger-set_linger :
      (fd secs : ℤ) (at : Text) (e : RuntimeError) (k : K)
      → let (r1, k1) = p.syscall (sys_setsockopt fd sol_socket so_linger (linger secs)) k in
        let (r2, k2) = p.syscall (sys_getsockopt fd sol_socket so_linger) k1 in
        r1.ret ≢ minus_one
        → r2.ret ≢ minus_one
        → r2.fields ≡ linger secs
        → (set_linger p fd secs at e k ≡ (true, e, k1))
          × (get_linger p fd e k1 ≡ (some secs, e, k2))
  unfolding set_linger get_linger set_option get_option
  get_linger-set_linger fd secs at e k h1 h2 same =
      (rw (eq_ℤ-false _ _ h1) refl, rw (eq_ℤ-false _ _ h2, same, linger_seconds-linger secs) refl)

  -- set_block_mode on flags that the system gives: with the wanted mode already there it makes no other
  -- call and succeeds; otherwise it stores the flags with only the bit of O_NONBLOCK changed,
  -- and succeeds exactly if the system takes them. A failure of either call is reported.
  pub set_block_mode_lem :
      (blocked : Bool) (fd : ℤ) (flags : ℕ) (e : RuntimeError) (k : K)
      → let (r, k1) = p.syscall (sys_getfl fd) k in
        ((n : ℕ)
          → r.ret ≡ negsuc n
          → (e' : RuntimeError) × (set_block_mode p blocked fd e k ≡ (false, e', k1))
            × (is_error e' ≡ true))
        × (r.ret ≡ pos flags
            → non_block flags ≡ not blocked
            → set_block_mode p blocked fd e k ≡ (true, e, k1))
        × (r.ret ≡ pos flags
            → non_block flags ≡ blocked
            → (wanted : ℕ) × (non_block wanted ≡ not blocked)
              × (wanted % 2 ^ 11 ≡ flags % 2 ^ 11)
              × (wanted / 2 ^ 12 ≡ flags / 2 ^ 12)
              × let (r2, k2) = p.syscall (sys_setfl fd wanted) k1 in
                ((n : ℕ) → r2.ret ≡ pos n → set_block_mode p blocked fd e k ≡ (true, e, k2))
                × ((n : ℕ)
                    → r2.ret ≡ negsuc n
                    → (e' : RuntimeError) × (set_block_mode p blocked fd e k ≡ (false, e', k2))
                      × (is_error e' ≡ true)))
  unfolding set_block_mode
  set_block_mode_lem true fd flags e k = (
    λ n q. (unread fd e, rw (q, set_block_mode) refl, fcntl_error-is_error _ fd _ e),
    λ q m. rw (q, set_block_mode, m, q, m) refl,
    λ q m. (
      flags - 2 ^ 11,
      ground arith,
      ground arith,
      ground arith,
      (
        λ n q2. rw (q, set_block_mode, m, q2, m) refl,
        λ n q2. (unset fd e, rw (q, set_block_mode, m, q2, m) refl, fcntl_error-is_error _ fd _ e),
      ),
    ),
  )
  set_block_mode_lem false fd flags e k = (
    λ n q. (unread fd e, rw (q, set_block_mode) refl, fcntl_error-is_error _ fd _ e),
    λ q m. rw (q, set_block_mode, m, q, m) refl,
    λ q m. (
      flags + 2 ^ 11,
      ground arith,
      ground arith,
      ground arith,
      (
        λ n q2. rw (q, set_block_mode, m, q2, m) refl,
        λ n q2. (unset fd e, rw (q, set_block_mode, m, q2, m) refl, fcntl_error-is_error _ fd _ e),
      ),
    ),
  )
