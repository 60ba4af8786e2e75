-- ===== src/SocketIo/StreamTests.antt =====
-- Three bytes through a queue that moves two at a time (src/net/socket_io_impl.h).
use taurus.Shared.{ℕ, ◌≤◌, ◌≡◌, List, [], ◌∷◌, ◌++◌, take, done, arith}
use taurus.Script.{peer}
use taurus.SocketIo.Pipe.{Link, Turn, writing, reading, times, take_turns, connected}
use taurus.SocketIo.Delivery.{take_turns_in_order, take_turns_deliver}

abbrev message : List ℕ
message = 7 ∷ 8 ∷ 9 ∷ []

abbrev room_for_four : List ℕ
room_for_four = 0 ∷ 0 ∷ 0 ∷ 0 ∷ []

-- The reader comes too early, and again in between.
abbrev mixed : List Turn
mixed = reading ∷ writing ∷ reading ∷ writing ∷ []

take_turns_in_order_example :
    (l : Link) × (take_turns 2 peer mixed (connected message room_for_four) ≡ done l)
    × (take l.reader.pos l.reader.mem ++ l.queue ≡ take l.writer.pos message)
    × (l.reader.pos ≤ 4)
    × (l.writer.pos ≤ 3)
take_turns_in_order_example =
    take_turns_in_order 2 peer message room_for_four mixed (omega arith) (omega arith)

take_turns_deliver_example :
    (l : Link) × (take_turns 2 peer
        (mixed ++ (times 3 writing ++ times 3 reading))
        (connected message room_for_four)
      ≡ done l)
    × (take 3 l.reader.mem ≡ message)
take_turns_deliver_example =
    take_turns_deliver 2 peer message room_for_four mixed (omega arith) (omega arith) (omega arith)
