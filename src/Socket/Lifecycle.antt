-- ===== src/Socket/Lifecycle.antt =====
-- Create, Close and the shutdown flags over the life of a socket (src/net/socket_impl.h).
use taurus.Shared.{◌≡◌, ◌≢◌, Bool, true, false, arith, done, abort}
use taurus.Shared.Int.{ℤ, eq_ℤ-true, eq_ℤ-false}
use taurus.RuntimeError.{RuntimeError, is_error}
use taurus.Kernel.{minus_one, sys_close, sys_socket, Platform}
use taurus.Socket.{
  Sock, closed, created, invalid_socket, close, create, shutdown_input, close_error,
  close_error-is_error, create_error, create_error-is_error,
}

module _ {K : Type 0} (p : Platform K) where
  -- Close() on each branch. Without a descriptor it does nothing and asks the system nothing. With one
  -- it makes one close call for that descriptor and the state is closed; if the call succeeds the
  -- descriptor is given up and the error object is untouched, so that a second Close() makes no call;
  -- if it fails the descriptor is kept, so that a second Close() closes that descriptor again, and
  -- the error object reports.
  pub close_lem :
      (s : Sock) (e : RuntimeError) (k : K)
      → let (r, k') = p.syscall (sys_close s.fd) k in
        (s.fd ≡ invalid_socket → close p s e k ≡ (true, s, e, k))
        × (s.fd ≢ invalid_socket
            → r.ret ≢ minus_one
            → close p s e k ≡ (true, record s { state = closed; fd = invalid_socket }, e, k'))
        × (s.fd ≢ invalid_socket
            → r.ret ≡ minus_one
            → (close p s e k ≡ (false, record s { state = closed }, close_error s e, k'))
              × (is_error (close_error s e) ≡ true))
  unfolding close
  close_lem s e k = (
    λ h. rw (eq_ℤ-true _ _ h, close),
    λ h r. rw (eq_ℤ-false _ _ h, close) (rw (eq_ℤ-false _ _ r)),
    λ h r. (rw (eq_ℤ-false _ _ h, close) (rw (eq_ℤ-true _ _ r)), close_error-is_error s e),
  )

  -- Create() on each branch. With a descriptor it throws and asks the system nothing. Without one it
  -- makes one socket call: if that gives a descriptor the socket holds it, in state CREATED and with
  -- the domain and type asked for; if not, the socket is as before and the error object reports.
  pub create_lem :
      (af type : ℤ) (s : Sock) (e : RuntimeError) (k : K)
      → let (r, k') = p.syscall (sys_socket af type) k in
        (s.fd ≢ invalid_socket → create p af type s e k ≡ abort)
        × (s.fd ≡ invalid_socket
            → r.ret ≢ invalid_socket
            → create p af type s e k
              ≡ done (
                true,
                record s { fd = r.ret; state = created; domain = af; socktype = type },
                e,
                k',
              ))
        × (s.fd ≡ invalid_socket
            → r.ret ≡ invalid_socket
            → (e' : RuntimeError) × (create p af type s e k ≡ done (false, s, e', k'))
              × (is_error e' ≡ true))
  unfolding create
  create_lem af type s e k = (
    λ h. rw (eq_ℤ-false _ _ h, create),
    λ h r. rw (eq_ℤ-true s.fd invalid_socket h, create) (rw (eq_ℤ-false _ _ r)),
    λ h r. (
      create_error af type e,
      rw (eq_ℤ-true s.fd invalid_socket h, create) (rw (eq_ℤ-true _ _ r)),
      create_error-is_error af type e,
    ),
  )

  -- The flags of a shutdown survive the life of the connection: after ShutdownInput(), a Close() that
  -- succeeds and a Create() that succeeds, the new socket is fresh from the system and still says
  -- that its input is shut down.
  pub shutdown_flag_survives :
      (af type : ℤ) (s : Sock) (e e1 e2 e3 : RuntimeError) (k k1 k2 k3 : K) (t u v : Sock)
      (b : Bool)
      → s.fd ≢ invalid_socket
      → shutdown_input p s e k ≡ (b, t, e1, k1)
      → close p t e1 k1 ≡ (true, u, e2, k2)
      → create p af type u e2 k2 ≡ done (true, v, e3, k3)
      → (v.shut_read ≡ true) × (v.state ≡ created)
  unfolding shutdown_input close create
  shutdown_flag_survives af type s e e1 e2 e3 k k1 k2 k3 t u v b h hs hc hn =
      ground (arith, eq_ℤ-false s.fd invalid_socket h)
