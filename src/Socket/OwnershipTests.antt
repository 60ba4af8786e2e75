-- ===== src/Socket/OwnershipTests.antt =====
-- The descriptors of sockets of src/net/socket_impl.h on a system that hands out the same one each time.
use taurus.Shared.{◌≡◌, ◌≢◌, refl, true, false, List, [], ◌∷◌, ◌++◌, done}
use taurus.Shared.Int.{pos}
use taurus.RuntimeError.{fresh}
use taurus.Kernel.{af_inet, sock_stream, minus_one, sys_accept, sys_close}
use taurus.Script.{keeper}
use taurus.Socket.{Sock, created, opened, new_sock, is_open, create, close, destroy}
use taurus.Socket.Names.{accept}
use taurus.Socket.Descriptors.{Op, creating, closing, with_table, perform, perform_all, held}
use taurus.Socket.Ownership.{perform_all-destroy, accept_keeps_open}

abbrev twice : List Op
twice = creating af_inet sock_stream ∷ closing ∷ creating af_inet sock_stream ∷ []

abbrev made_twice : Sock
made_twice = record new_sock {
  fd = pos 5;
  state = created;
  domain = af_inet;
  socktype = sock_stream;
}

runs_twice :
    perform_all (with_table keeper) twice new_sock fresh ([], pos 7 ∷ [])
    ≡ done (made_twice, fresh, ([], pos 5 ∷ pos 7 ∷ []))
unfolding perform_all perform create close
runs_twice = refl

perform_all-destroy_example :
    (pos 5 ∷ pos 7 ∷ [] ≡ held made_twice ++ pos 7 ∷ [])
    × ((keeper.syscall (sys_close (pos 5)) []).0.ret ≢ minus_one
        → (destroy (with_table keeper) made_twice ([], pos 5 ∷ pos 7 ∷ [])).1 ≡ pos 7 ∷ [])
perform_all-destroy_example =
    perform_all-destroy keeper (pos 7 ∷ []) twice made_twice fresh fresh [] ([], pos 5 ∷ pos 7 ∷ [])
      runs_twice

-- A connection accepted into a socket that has a descriptor
abbrev accepted : Sock
accepted = record made_twice { fd = pos 4; state = opened }

abbrev holder : Sock
holder = record new_sock { fd = pos 9; state = opened }

accepts_over :
    accept (with_table keeper) made_twice holder fresh ([], pos 9 ∷ pos 5 ∷ [])
    ≡ done (true, accepted, fresh, ([], pos 4 ∷ pos 9 ∷ pos 5 ∷ []))
unfolding accept
accepts_over = refl

other_descriptor : is_open holder ≡ true → (keeper.syscall (sys_accept (pos 5)) []).0.ret ≢ pos 9
other_descriptor was = λ same. cc

accept_keeps_open_example :
    (true ≡ true
      → (is_open accepted ≡ true)
        × (is_open holder ≡ true → pos 4 ≢ pos 9)
        × (pos 4 ∷ pos 9 ∷ pos 5 ∷ [] ≡ held accepted ++ (held holder ++ pos 5 ∷ []))
        × ((keeper.syscall (sys_close (pos 4)) []).0.ret ≢ minus_one
            → (destroy (with_table keeper) accepted ([], pos 4 ∷ pos 9 ∷ pos 5 ∷ [])).1
              ≡ held holder ++ pos 5 ∷ []))
    × (true ≡ false
        → (pos 4 ∷ pos 9 ∷ pos 5 ∷ [] ≡ held holder ++ pos 5 ∷ []) × (accepted ≡ holder))
accept_keeps_open_example =
    accept_keeps_open keeper (pos 5 ∷ []) made_twice holder accepted fresh fresh
      ([], pos 9 ∷ pos 5 ∷ []) ([], pos 4 ∷ pos 9 ∷ pos 5 ∷ []) true accepts_over refl
      other_descriptor
