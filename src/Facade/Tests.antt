-- ===== src/Facade/Tests.antt =====
-- Stream and server sockets of src/net/socket_base.cpp on systems that run through.
use taurus.Shared.{◌≡◌, [], ◌∷◌, abort, arith}
use taurus.Shared.Int.{pos}
use taurus.RuntimeError.{fresh}
use taurus.Socket.{Sock, new_sock, opened}
use taurus.Script.{slow}
use taurus.Facade.{send, receive}
use taurus.Facade.Streams.{transfer_never_returns}

abbrev server : Sock
server = record new_sock { fd = pos 3; state = opened; domain = pos 2; socktype = pos 1 }

transfer_never_returns_example :
    (send slow (1 ∷ 2 ∷ 3 ∷ []) 3 server fresh tt ≡ abort)
    × (receive slow (1 ∷ 2 ∷ 3 ∷ []) 3 server fresh tt ≡ abort)
transfer_never_returns_example =
    transfer_never_returns slow (1 ∷ 2 ∷ 3 ∷ []) server fresh tt (omega arith)
