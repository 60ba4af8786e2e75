-- ===== src/Socket/States.antt =====
-- The states of a socket (src/net/socket_impl.h) as a step relation, with the invariant that a
-- socket without a descriptor is closed.
use taurus.Shared.{◌≡◌, refl, subst, ◌∙◌, ◌≢◌, Bool, true, arith, Text, done}
use taurus.Shared.Int.{ℤ, eq_ℤ, eq_ℤ_iff, eq_ℤ-true}
use taurus.RuntimeError.{RuntimeError}
use taurus.Kernel.{minus_one, sys_listen, sys_socket, Platform}
use taurus.Socket.{
  Sock, closed, invalid_socket, new_sock, close, create, bind, connect, move, move_assign,
  shutdown_input, shutdown_output,
}
use taurus.Socket.Names.{listen, accept}

abbrev pub IsCoherent : Sock → Type 0
IsCoherent s = s.fd ≡ invalid_socket → s.state ≡ closed

-- What the manual of listen(2) says of a descriptor that is none.
abbrev pub RejectsInvalid : {K : Type 0} → Platform K → Type 0
RejectsInvalid {K} p =
    (backlog : ℤ) (k : K) → (p.syscall (sys_listen invalid_socket backlog) k).0.ret ≡ minus_one

-- The operations on the socket itself that returned, the acceptance of a connection into it, and the
-- two ways of moving out of it, by the constructor and by operator=.
-- connect() is a step only from a socket that has a descriptor.
pub data Step {K : Type 0} (p : Platform K) (s t : Sock) : Type 0 where
  creating :
      (af type : ℤ) (e e' : RuntimeError) (k k' : K) (b : Bool)
      → create p af type s e k ≡ done (b, t, e', k')
      → Step p s t
  closing :
      (e e' : RuntimeError) (k k' : K) (b : Bool) → close p s e k ≡ (b, t, e', k') → Step p s t
  binding :
      (host : Text) (port : ℤ) (e e' : RuntimeError) (k k' : K) (b : Bool)
      → bind p host port s e k ≡ done (b, t, e', k')
      → Step p s t
  connecting :
      (ip : Text) (port : ℤ) (e e' : RuntimeError) (k k' : K) (b : Bool)
      → s.fd ≢ invalid_socket
      → connect p ip port s e k ≡ done (b, t, e', k')
      → Step p s t
  listening :
      (backlog : ℤ) (e e' : RuntimeError) (k k' : K) (b : Bool)
      → listen p backlog s e k ≡ done (b, t, e', k')
      → Step p s t
  accepting :
      (server : Sock) (e e' : RuntimeError) (k k' : K) (b : Bool)
      → accept p server s e k ≡ done (b, t, e', k')
      → Step p s t
  shutting_input :
      (e e' : RuntimeError) (k k' : K) (b : Bool)
      → shutdown_input p s e k ≡ (b, t, e', k')
      → Step p s t
  shutting_output :
      (e e' : RuntimeError) (k k' : K) (b : Bool)
      → shutdown_output p s e k ≡ (b, t, e', k')
      → Step p s t
  moving_away : (bits : Bool × Bool) → (move bits s).1 ≡ t → Step p s t
  assigning_away : (target target' : Sock) → move_assign target s ≡ done (target', t) → Step p s t

-- Steps of one socket, and its assignment, by operator=(SocketImpl &&), from another that has come as
-- far from the same start.
pub data Reach {K : Type 0} (p : Platform K) (s : Sock) : Sock → Type 0 where
  here : Reach p s s
  next : {t u : Sock} → Reach p s t → Step p t u → Reach p s u
  assigned :
      {t u other : Sock} (other' : Sock)
      → Reach p s t
      → Reach p s other
      → move_assign t other ≡ done (u, other')
      → Reach p s u

module _ {K : Type 0} (p : Platform K) where
  create-IsCoherent :
      (af type : ℤ) (s t : Sock) (e e' : RuntimeError) (k k' : K) (b : Bool)
      → create p af type s e k ≡ done (b, t, e', k')
      → IsCoherent s
      → IsCoherent t
  unfolding create
  create-IsCoherent af type s t e e' k k' b h c n =
      ground (arith, eq_ℤ_iff (p.syscall (sys_socket af type) k).0.ret invalid_socket)

  close-IsCoherent :
      (s t : Sock) (e e' : RuntimeError) (k k' : K) (b : Bool)
      → close p s e k ≡ (b, t, e', k')
      → IsCoherent s
      → IsCoherent t
  unfolding close
  close-IsCoherent s t e e' k k' b h c n = ground arith

  bind-keeps :
      (host : Text) (port : ℤ) (s t : Sock) (e e' : RuntimeError) (k k' : K) (b : Bool)
      → bind p host port s e k ≡ done (b, t, e', k')
      → s ≡ t
  unfolding bind
  bind-keeps host port s t e e' k k' b h = ground arith

  connect-keeps_fd :
      (ip : Text) (port : ℤ) (s t : Sock) (e e' : RuntimeError) (k k' : K) (b : Bool)
      → connect p ip port s e k ≡ done (b, t, e', k')
      → s.fd ≡ t.fd
  unfolding connect
  connect-keeps_fd ip port s t e e' k k' b h = ground arith

  listen-IsCoherent :
      (backlog : ℤ) (s t : Sock) (e e' : RuntimeError) (k k' : K) (b : Bool)
      → RejectsInvalid p
      → listen p backlog s e k ≡ done (b, t, e', k')
      → IsCoherent s
      → IsCoherent t
  unfolding listen
  listen-IsCoherent backlog s t e e' k k' b r h c n = ground (arith, fails)
    where
      same : s.fd ≡ invalid_socket
      same = ground (arith, n)

      fails : eq_ℤ (p.syscall (sys_listen s.fd backlog) k).0.ret minus_one ≡ true
      fails =
          eq_ℤ-true (p.syscall (sys_listen s.fd backlog) k).0.ret minus_one (rw same (r backlog k))

  accept-IsCoherent :
      (server s t : Sock) (e e' : RuntimeError) (k k' : K) (b : Bool)
      → accept p server s e k ≡ done (b, t, e', k')
      → IsCoherent s
      → IsCoherent t
  unfolding accept
  accept-IsCoherent server s t e e' k k' b h c n = ground arith

  shutdown_input-IsCoherent :
      (s t : Sock) (e e' : RuntimeError) (k k' : K) (b : Bool)
      → shutdown_input p s e k ≡ (b, t, e', k')
      → IsCoherent s
      → IsCoherent t
  unfolding shutdown_input
  shutdown_input-IsCoherent s t e e' k k' b h c n = ground arith

  shutdown_output-IsCoherent :
      (s t : Sock) (e e' : RuntimeError) (k k' : K) (b : Bool)
      → shutdown_output p s e k ≡ (b, t, e', k')
      → IsCoherent s
      → IsCoherent t
  unfolding shutdown_output
  shutdown_output-IsCoherent s t e e' k k' b h c n = ground arith

  move-IsCoherent : (bits : Bool × Bool) (s t : Sock) → (move bits s).1 ≡ t → IsCoherent t
  unfolding move
  move-IsCoherent bits s t h n = ground arith

  move_assign-IsCoherent :
      (s other t other' : Sock)
      → move_assign s other ≡ done (t, other')
      → IsCoherent other
      → IsCoherent t
  unfolding move_assign
  move_assign-IsCoherent s other t other' h c = λ n. ground (arith, c)

  assigned_away-IsCoherent :
      (s other t other' : Sock) → move_assign s other ≡ done (t, other') → IsCoherent other'
  unfolding move_assign
  assigned_away-IsCoherent s other t other' h n = ground arith

  -- Every operation that returns, whether it succeeds or fails, leaves a socket coherent: if it has no
  -- descriptor it is in state CLOSED. The system is assumed to refuse listen() on descriptor -1.
  pub Step-IsCoherent : (s t : Sock) → RejectsInvalid p → Step p s t → IsCoherent s → IsCoherent t
  Step-IsCoherent s t r (creating af type e e' k k' b h) c =
      create-IsCoherent af type s t e e' k k' b h c
  Step-IsCoherent s t r (closing e e' k k' b h) c = close-IsCoherent s t e e' k k' b h c
  Step-IsCoherent s t r (binding host port e e' k k' b h) c =
      subst IsCoherent (bind-keeps host port s t e e' k k' b h) c
  Step-IsCoherent s t r (connecting ip port e e' k k' b n h) c =
      λ m. absurd (n (connect-keeps_fd ip port s t e e' k k' b h ∙ m))
  Step-IsCoherent s t r (listening backlog e e' k k' b h) c =
      listen-IsCoherent backlog s t e e' k k' b r h c
  Step-IsCoherent s t r (accepting server e e' k k' b h) c =
      accept-IsCoherent server s t e e' k k' b h c
  Step-IsCoherent s t r (shutting_input e e' k k' b h) c =
      shutdown_input-IsCoherent s t e e' k k' b h c
  Step-IsCoherent s t r (shutting_output e e' k k' b h) c =
      shutdown_output-IsCoherent s t e e' k k' b h c
  Step-IsCoherent s t r (moving_away bits h) c = move-IsCoherent bits s t h
  Step-IsCoherent s t r (assigning_away target target' h) c =
      assigned_away-IsCoherent target s target' t h

  Reach-IsCoherent_from :
      (s t : Sock) → RejectsInvalid p → Reach p s t → IsCoherent s → IsCoherent t
  Reach-IsCoherent_from s t r here c = c
  Reach-IsCoherent_from s t r (next {t = m} q st) c =
      Step-IsCoherent m t r st (Reach-IsCoherent_from s m r q c)
  Reach-IsCoherent_from s t r (assigned {t = m} {other = other} other' q q2 h) c =
      move_assign-IsCoherent m other t other' h (Reach-IsCoherent_from s other r q2 c)

  -- Whatever sequence of Create, Close, Bind, Connect, Listen, accept into it, ShutdownInput,
  -- ShutdownOutput, moves out of it and assignments to it from a socket that has gone through such
  -- a sequence a socket made by SocketImpl() goes through, on a system that refuses listen() on
  -- descriptor -1, with Connect called only while the socket has a descriptor: if it has none it
  -- is in state CLOSED.
  pub Reach-IsCoherent : (t : Sock) → RejectsInvalid p → Reach p new_sock t → IsCoherent t
  Reach-IsCoherent t r q = Reach-IsCoherent_from new_sock t r q (λ h. refl)
