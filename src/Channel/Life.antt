-- ===== src/Channel/Life.antt =====
-- Closing a channel of src/nio/server_socket_channel.cpp and making its socket again.
use taurus.Shared.{◌≡◌, ◌≢◌, refl, true, false, some, done, abort}
use taurus.Shared.Int.{ℤ, eq_ℤ-true, eq_ℤ-false}
use taurus.RuntimeError.{RuntimeError, is_error}
use taurus.Kernel.{minus_one, sock_stream, Platform, sys_socket, sys_close}
use taurus.Socket
use taurus.Socket.{Sock, SockState, closed, created, is_open, close_error, close_error-is_error}
use taurus.Facade.{is_closed, close_base, create_stream}
use taurus.Channel.{Channel, made, create, close}

abbrev pub channel : Sock → Channel
channel s = record { sock_impl = some s }

-- What is left of a socket that close() worked on
abbrev pub gone : Sock → Sock
gone s = record s { state = closed; fd = minus_one }

-- A new descriptor in it
abbrev pub remade : ℤ → ℤ → Sock → Sock
remade fd domain s = record s { fd = fd; state = created; domain = domain; socktype = sock_stream }

module _ {K : Type 0} (p : Platform K) where
  -- A channel whose socket has a descriptor and is not closed. create() stops at its assert. If the
  -- system closes the descriptor, close() succeeds and create() with any domain then works: it gives a
  -- socket with the new descriptor if the system has one. If the system does not, close() fails with
  -- an error; a second close() succeeds without asking the system, although the descriptor is still
  -- there, and create() throws.
  pub close-create :
      (s : Sock) (domain : ℤ) (e : RuntimeError) (k : K)
      → is_open s ≡ true
      → is_closed s ≡ false
      → let (r1, k1) = p.syscall (sys_close s.fd) k in
        let (r2, k2) = p.syscall (sys_socket domain sock_stream) k1 in
        (create p domain (channel s) e k ≡ abort)
        × (r1.ret ≢ minus_one
            → (close p (channel s) e k ≡ (true, channel (gone s), e, k1))
              × (r2.ret ≢ minus_one
                  → create p domain (channel (gone s)) e k1
                    ≡ done (true, channel (remade r2.ret domain s), e, k2)))
        × (r1.ret ≡ minus_one
            → (e' : RuntimeError) × (s' : Sock) × (close p (channel s) e k
                ≡ (false, channel s', e', k1))
              × (is_error e' ≡ true)
              × (s'.fd ≡ s.fd)
              × (close p (channel s') e' k1 ≡ (true, channel s', e', k1))
              × (create p domain (channel s') e' k1 ≡ abort))
  unfolding create close close_base create_stream Socket.close Socket.create made is_closed
  close-create s domain e k has_fd here = (
    rw (create, is_closed, here) refl,
    λ h1. (
      rw (close, close_base, Socket.close, has_fd, eq_ℤ-false _ _ h1, here) refl,
      λ h2. rw (create, create_stream, Socket.create, eq_ℤ-false _ _ h2) refl,
    ),
    λ h1. (
      close_error s e,
      record s { state = closed },
      rw (close, close_base, Socket.close, has_fd, eq_ℤ-true _ _ h1, here) refl,
      close_error-is_error s e,
      refl,
      refl,
      rw (create, create_stream, Socket.create, has_fd) refl,
    ),
  )
