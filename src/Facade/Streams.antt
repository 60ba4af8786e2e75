-- ===== src/Facade/Streams.antt =====
-- What the stream and server sockets of src/net/socket_base.cpp do.
use taurus.Shared.{
  ℕ, ◌+◌, ◌≤◌, ◌<◌, ◌≡◌, ◌≢◌, refl, true, false, List, [], ◌∷◌, ◌++◌, codes, length, none, some,
  Text, done, abort, arith,
}
use taurus.Shared.Int.{ℤ, pos, negsuc, show_int, eq_ℤ-true, eq_ℤ-false}
use taurus.RuntimeError.{RuntimeError, fresh, is_error}
use taurus.Kernel.{minus_one, Platform, sys_accept, sys_setsockopt, sys_getsockopt}
use taurus.Socket.{Sock, new_sock, opened, destroy, close, failed, failed-is_error}
use taurus.Messages.{manipulator}
use taurus.SocketIo.{size_mod, open_on}
use taurus.SocketIo.Sends
use taurus.SocketIo.Sends.{write_never_returns}
use taurus.SocketIo.Receives.{read_stops}
use taurus.SocketOpt.{
  sol_socket, get_error, int_name, keep_alive, set_option, get_option, set_int, get_int,
}
use taurus.Socket.Names.{accept, get_local_endpoint}
use taurus.Facade.{
  is_connected, is_input_shutdown, is_output_shutdown, send, receive, accept_new, flag,
  set_so_keepalive, get_so_keepalive,
}

opened-IsValid :
    (fd : ℤ) (buf : List ℕ) → length buf < size_mod → Sends.IsValid (open_on fd buf (length buf))
unfolding open_on
opened-IsValid fd buf h = record { pos_le = omega arith; size_is = refl; size_lt = h }

-- Nothing asked for at the start of a buffer
nowhere :
    (fd : ℤ) (buf : List ℕ)
    → length buf < size_mod
    → (open_on fd buf (length buf)).pos + 0 < size_mod
unfolding open_on
nowhere fd buf h = omega arith

nothing :
    (fd : ℤ) (buf : List ℕ)
    → (open_on fd buf (length buf)).pos + 0 ≤ (open_on fd buf (length buf)).size
unfolding open_on
nothing fd buf = omega arith

-- The error of an accept that fails
abbrev refused : Sock → Text → RuntimeError → RuntimeError
refused s local e =
    failed e
      (codes "accept() error, "
        ++ manipulator
        ++ codes " fd: "
        ++ show_int s.fd
        ++ codes ", local: "
        ++ local)
      (codes "SocketImpl::accept")

module _ {K : Type 0} (p : Platform K) where
  -- send(buf, len, e) and receive(buf, len, e) of a stream socket, for a buffer of any size, in any state
  -- of the socket and of the system: both end at an assert and never return, whatever
  -- the system answers.
  pub transfer_never_returns :
      (buf : List ℕ) (s : Sock) (e : RuntimeError) (k : K)
      → length buf < size_mod
      → (send p buf (length buf) s e k ≡ abort) × (receive p buf (length buf) s e k ≡ abort)
  unfolding send receive
  transfer_never_returns buf s e k h =
      let v = opened-IsValid s.fd buf h in
      let io = open_on s.fd buf (length buf) in
      let (fits, behind, sending) = write_never_returns p 0 io e k v (nowhere s.fd buf h) in
      let (reading_some, reading) = read_stops p 0 io e k v (nothing s.fd buf) in
      (rw (send, sending) refl, rw (receive, reading) refl)

  -- accept(e) of a server socket. When the system gives a descriptor, the new socket has it, is open,
  -- has no direction shut, and has the domain and type of the server; the error object stays. When
  -- it does not (and the name of the server can be told), the result is null, there is an error, and
  -- no call was made but the two for the connection and for the name.
  pub accept_new_lem :
      (s : Sock) (e : RuntimeError) (k : K)
      → let (r, k') = p.syscall (sys_accept s.fd) k in
        ((n : ℕ)
          → r.ret ≡ pos n
          → (t : Sock) × (accept_new p s e k ≡ done (some t, e, k'))
            × (t.fd ≡ pos n)
            × (is_connected t ≡ true)
            × (is_input_shutdown t ≡ false)
            × (is_output_shutdown t ≡ false)
            × (t.domain ≡ s.domain)
            × (t.socktype ≡ s.socktype))
        × ((n : ℕ) (local : Text) (e2 : RuntimeError) (k2 : K)
            → r.ret ≡ negsuc n
            → get_local_endpoint p s fresh k' ≡ done (local, e2, k2)
            → (e' : RuntimeError) × (accept_new p s e k ≡ done (none, e', k2))
              × (is_error e' ≡ true))
  unfolding accept_new accept destroy close is_connected is_input_shutdown is_output_shutdown
  accept_new_lem s e k = (
    λ n q. (
      record new_sock { domain = s.domain; socktype = s.socktype; state = opened; fd = pos n },
      rw (accept_new, accept, q) refl,
      refl,
      refl,
      refl,
      refl,
      refl,
      refl,
    ),
    λ n local e2 k2 q named.
        (refused s local e, rw (accept_new, accept, q, named) refl, failed-is_error e _ _),
  )

  -- SO_KEEPALIVE set to a number and read back: if the system takes the number and gives it back, both
  -- calls succeed and what is read is 0 for 0 and 1 for every other number. A failure to read gives -1
  -- and an error.
  pub get_so_keepalive-set_so_keepalive :
      (enable : ℤ) (at : Text) (s : Sock) (e : RuntimeError) (k : K)
      → let (r1, k1) =
          p.syscall (sys_setsockopt s.fd sol_socket (int_name keep_alive) (enable ∷ [])) k in
        let (r2, k2) = p.syscall (sys_getsockopt s.fd sol_socket (int_name keep_alive)) k1 in
        r1.ret ≢ minus_one
        → (set_so_keepalive p enable at s e k ≡ (true, e, k1))
          × (r2.ret ≢ minus_one
              → r2.fields ≡ enable ∷ []
              → (enable ≡ pos 0 → get_so_keepalive p s e k1 ≡ (pos 0, e, k2))
                × (enable ≢ pos 0 → get_so_keepalive p s e k1 ≡ (pos 1, e, k2)))
          × (r2.ret ≡ minus_one
              → (e' : RuntimeError) × (get_so_keepalive p s e k1 ≡ (minus_one, e', k2))
                × (is_error e' ≡ true))
  unfolding set_so_keepalive get_so_keepalive set_int get_int set_option get_option flag get_error
      is_error
  get_so_keepalive-set_so_keepalive enable at s e k h1 = (
    rw (eq_ℤ-false _ _ h1) refl,
    λ h2 same. (
      λ off. rw (eq_ℤ-false _ _ h2, get_int, same, eq_ℤ-true _ _ off) refl,
      λ on. rw (eq_ℤ-false _ _ h2, get_int, same, eq_ℤ-false _ _ on) refl,
    ),
    λ h2. (
      get_error s.fd sol_socket (int_name keep_alive) e,
      rw (eq_ℤ-true _ _ h2, get_int) refl,
      refl,
    ),
  )
