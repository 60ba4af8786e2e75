-- ===== src/Socket/Tests.antt =====
-- Sockets of src/net/socket_impl.h on a system that answers from a script.
use taurus.Shared.{ℕ, ◌≡◌, ◌≢◌, refl, true, false, List, [], ◌∷◌, some, Text, codes, done, arith}
use taurus.Shared.Int.{ℤ, pos, negsuc}
use taurus.RuntimeError.{RuntimeError, fresh, is_error}
use taurus.Kernel.{
  Platform, Call, Reply, SockAddr, parsed, malformed, keeps_last, undefined, af_inet, sock_stream,
  minus_one, einprogress, sys_close, sys_socket, sys_listen,
}
use taurus.Inet
use taurus.Inet.{hostaddr, inet4, loopback4, any4, inet4_parse}
use taurus.Messages.{new_inet_address}
use taurus.SocketAddress
use taurus.SocketAddress.{of_sockaddr}
use taurus.Socket.{
  Sock, closed, created, opened, opening, new_sock, invalid_socket, close, create, bind, connect,
  move_assign, shutdown_input, bind_error, connect_error,
}
use taurus.Socket.States.{
  Reach, here, next, assigned, creating, closing, assigning_away, IsCoherent, RejectsInvalid,
  Reach-IsCoherent,
}
use taurus.Socket.Peers.{Prints, structure, bind_answer, connect_answer, bind-connect_meet}
use taurus.Socket.Binding.{impl, connect_reply, connect_resolved}

abbrev no_name : SockAddr
no_name = record { family = pos 0; port = []; address = [] }

abbrev answer : ℤ → ℕ → Reply
answer ret errno = record { ret = ret; errno = errno; bytes = []; fields = []; name = no_name }

-- Every call takes the next answer, and fails when there is none left or the descriptor is none.
abbrev play : Call → List Reply → Reply × List Reply
play (sys_listen (negsuc n) backlog) rs = (answer minus_one 9, rs)
play c [] = (answer minus_one 9, [])
play c (r ∷ rs) = (r, rs)

abbrev read_name : ℤ → Text → taurus.Kernel.Pton
read_name d [] = malformed
read_name d (x ∷ t) = parsed loopback4

abbrev script : Platform (List Reply)
script = record {
  syscall = play;
  pton = read_name;
  ntop = λ d a. some (codes "127.0.0.1");
  strerror = λ n. codes "error";
  uninitialised = any4;
  fall_off = keeps_last;
}

-- The same system under a compiler that uses the freedom which a missing `return` gives it
abbrev strict : Platform (List Reply)
strict = record script { fall_off = undefined }

abbrev ok : Reply
ok = answer (pos 0) 0

abbrev tcp : Sock
tcp = record {
  fd = pos 3;
  state = created;
  shut_read = false;
  shut_write = false;
  domain = af_inet;
  socktype = sock_stream;
}

-- What is left of it after a close that succeeded
abbrev gone : Sock
gone = record tcp { state = closed; fd = invalid_socket }

script-RejectsInvalid : RejectsInvalid script
script-RejectsInvalid backlog k = refl

abbrev made_tcp : Sock
made_tcp = record new_sock { fd = pos 3; state = created; domain = af_inet; socktype = sock_stream }

abbrev closed_tcp : Sock
closed_tcp = record made_tcp { fd = invalid_socket; state = closed }

tcp_made :
    create script af_inet sock_stream new_sock fresh (answer (pos 3) 0 ∷ [])
    ≡ done (true, made_tcp, fresh, [])
unfolding create
tcp_made = refl

tcp_closed : close script made_tcp fresh (ok ∷ []) ≡ (true, closed_tcp, fresh, [])
unfolding close
tcp_closed = refl

closed_reached : Reach script new_sock closed_tcp
closed_reached =
    next
      (next here
        (creating af_inet sock_stream fresh fresh (answer (pos 3) 0 ∷ []) [] true tcp_made))
      (closing fresh fresh (ok ∷ []) [] true tcp_closed)

-- The open socket is assigned to the one that was closed, and then moved out of by another assignment.
tcp_assigned :
    move_assign closed_tcp made_tcp
    ≡ done (made_tcp, record made_tcp { fd = invalid_socket; state = closed })
unfolding move_assign
tcp_assigned = refl

tcp_given_away : move_assign new_sock made_tcp ≡ done (made_tcp, closed_tcp)
unfolding move_assign
tcp_given_away = refl

given_away_reached : Reach script new_sock closed_tcp
given_away_reached =
    next
      (assigned closed_tcp closed_reached
        (next here
          (creating af_inet sock_stream fresh fresh (answer (pos 3) 0 ∷ []) [] true tcp_made))
        tcp_assigned)
      (assigning_away new_sock made_tcp tcp_given_away)

Reach-IsCoherent_example : IsCoherent closed_tcp
Reach-IsCoherent_example =
    Reach-IsCoherent script closed_tcp script-RejectsInvalid given_away_reached

address_read :
    new_inet_address script af_inet (codes "127.0.0.1") fresh ≡ done (some (inet4 loopback4), fresh)
unfolding new_inet_address inet4_parse
address_read = refl

abbrev bind_report : RuntimeError
bind_report =
    bind_error tcp (SocketAddress.str script (some (impl (inet4 loopback4) (pos 80)))) fresh

abbrev connect_report : RuntimeError
connect_report =
    connect_error tcp (SocketAddress.str script (some (impl (inet4 loopback4) (pos 80)))) fresh

-- The answers of a system on which the connection is on its way
abbrev under_way : List Reply
under_way = answer minus_one 115 ∷ []

connect_resolved_example :
    let (r, k') = connect_reply script (inet4 loopback4) (pos 80) tcp under_way in
    (r.ret ≢ minus_one
      → connect script (codes "127.0.0.1") (pos 80) tcp fresh under_way
        ≡ done (true, record tcp { state = opened }, fresh, k'))
    × (r.ret ≡ minus_one
        → r.errno ≡ einprogress
        → connect script (codes "127.0.0.1") (pos 80) tcp fresh under_way
          ≡ done (false, record tcp { state = opening }, connect_report, k'))
    × (r.ret ≡ minus_one
        → r.errno ≢ einprogress
        → connect script (codes "127.0.0.1") (pos 80) tcp fresh under_way
          ≡ done (false, record tcp { state = created }, connect_report, k'))
    × (is_error connect_report ≡ true)
connect_resolved_example =
    connect_resolved script (codes "127.0.0.1") (pos 80) tcp fresh fresh under_way (inet4 loopback4)
      refl address_read

strict_read :
    new_inet_address strict af_inet (codes "127.0.0.1") fresh ≡ done (some (inet4 loopback4), fresh)
unfolding new_inet_address inet4_parse
strict_read = refl

abbrev half_shut : Sock
half_shut = record tcp { shut_read = true }

input_shut :
    shutdown_input script tcp fresh (ok ∷ ok ∷ ok ∷ []) ≡ (true, half_shut, fresh, ok ∷ ok ∷ [])
unfolding shutdown_input
input_shut = refl

half_closed :
    close script half_shut fresh (ok ∷ ok ∷ [])
    ≡ (true, record half_shut { state = closed; fd = invalid_socket }, fresh, ok ∷ [])
unfolding close
half_closed = refl

made_again :
    create script af_inet sock_stream
      (record half_shut { state = closed; fd = invalid_socket })
      fresh
      (ok ∷ [])
    ≡ done (true, record half_shut { fd = pos 0 }, fresh, [])
unfolding create
made_again = refl

loopback-Prints : Prints script (inet4 loopback4) (codes "127.0.0.1")
unfolding Inet.domain
loopback-Prints = record { printed = refl; read_back = refl }

abbrev caller : Sock
caller = record tcp { fd = pos 4 }

bind-connect_meet_example :
    let (b, k') = bind_answer script (inet4 loopback4) 8080 tcp (ok ∷ []) in
    let (c, l') = connect_answer script (inet4 loopback4) 8080 caller under_way in
    (of_sockaddr (structure (inet4 loopback4) 8080) ≡ done (impl (inet4 loopback4) (pos 8080)))
    × ((b.ret ≢ minus_one
          → bind script (hostaddr script (inet4 loopback4)) (pos 8080) tcp fresh (ok ∷ [])
            ≡ done (true, tcp, fresh, k'))
        × (b.ret ≡ minus_one
            → (e1 : RuntimeError) × (bind script
                  (hostaddr script (inet4 loopback4))
                  (pos 8080)
                  tcp
                  fresh
                  (ok ∷ [])
                ≡ done (false, tcp, e1, k'))
              × (is_error e1 ≡ true)))
    × (c.ret ≢ minus_one
        → connect script (hostaddr script (inet4 loopback4)) (pos 8080) caller fresh under_way
          ≡ done (true, record caller { state = opened }, fresh, l'))
    × (c.ret ≡ minus_one
        → (u : Sock) × (e1 : RuntimeError) × (connect script
              (hostaddr script (inet4 loopback4))
              (pos 8080)
              caller
              fresh
              under_way
            ≡ done (false, u, e1, l'))
          × (is_error e1 ≡ true))
unfolding Inet.addrlen Inet.domain
bind-connect_meet_example =
    bind-connect_meet script (inet4 loopback4) (codes "127.0.0.1") 8080 tcp caller fresh (ok ∷ [])
      under_way refl loopback-Prints refl (omega arith) refl refl
