-- ===== src/Channel.antt =====
-- `class ServerSocketChannel` of src/nio/server_socket_channel.cpp: its implementation object, which is
-- made when it is first needed, holds a server socket.
pub mod Life
mod Tests
use taurus.Shared.{
  ℕ, Bool, true, false, ◌&&◌, not, Option, none, some, Outcome, done, ◌>>=◌, ◌>>◌, check,
  if◌then◌else◌,
}
use taurus.Shared.Int.{ℤ}
use taurus.RuntimeError.{RuntimeError}
use taurus.Kernel.{Platform}
use taurus.Socket.{Sock, new_sock}
use taurus.Facade.{is_closed, close_base, create_stream, destroy_base}

pub record Channel : Type 0 where
  pub sock_impl : Option Sock

-- ServerSocketChannel()
unfoldable pub new_channel : Channel
new_channel = record { sock_impl = none }

-- The socket that create() works on: a new one if there is none
unfoldable pub made : Option Sock → Sock
made none = new_sock
made (some s) = s

-- SelectionKey::OpAccept
unfoldable pub valid_ops : ℕ
valid_ops = 1

module _ {K : Type 0} (p : Platform K) where
  -- ~ServerSocketChannel()
  unfoldable pub destroy : Channel → K → K
  destroy c k = elim c.sock_impl [ none ↦ k | some s ↦ destroy_base p s k ]

  unfoldable pub create :
      ℤ → Channel → RuntimeError → K → Outcome (Bool × Channel × RuntimeError × K)
  create domain c e k = do
    check (is_closed (made c.sock_impl))
    (isok, s, e', k') ← create_stream p domain (made c.sock_impl) e k
    done (isok, record { sock_impl = some s }, e', k')

  unfoldable pub close : Channel → RuntimeError → K → Bool × Channel × RuntimeError × K
  close c e k = elim c.sock_impl [
    | none ↦ (true, c, e, k)
    | some s ↦
        let (isok, s', e', k') = close_base p s e k in
        if not (is_closed s)
        then (isok, record { sock_impl = some s' }, e', k')
        else (true, c, e, k)
  ]
