-- ===== src/Datagram/Tests.antt =====
-- Datagram packets of src/net/socket_base.cpp on a system that takes and gives two bytes at a time.
use taurus.Shared.{
  ℕ, ◌+◌, ◌-◌, ◌≤◌, ◌<◌, ◌≡◌, refl, List, [], ◌∷◌, take, drop, some, done, abort, arith,
}
use taurus.Shared.Int.{pos}
use taurus.RuntimeError.{fresh}
use taurus.Script.{slow, peer}
use taurus.Datagram.{Packet, receive}
use taurus.Datagram.Mailbox.{send_all, receive_all}
use taurus.Datagram.Exchange.{receive_all-send_all}
use taurus.Datagram.Transfer.{IsValid, receive_lem}

-- `n` bytes in a buffer of five
abbrev holding : ℕ → Packet
holding n = record { buf = 1 ∷ 2 ∷ 3 ∷ 4 ∷ 5 ∷ []; len = n; cap = 5; endp = some (some peer) }

holding-IsValid : (n : ℕ) → n ≤ 5 → IsValid (holding n)
holding-IsValid n h = record { len_le = h; cap_is = refl; cap_lt = omega arith }

-- Two bytes received behind three make the length four, and not five; behind one they are refused.
receive_lem_example :
    (3 < 2 → receive slow (holding 3) (pos 3) fresh tt ≡ abort)
    × (2 ≤ 3
        → (d' : Packet) × (receive slow (holding 3) (pos 3) fresh tt ≡ done (pos 2, d', fresh, tt))
          × (take 2 (drop 3 d'.buf) ≡ 7 ∷ 8 ∷ [])
          × (d'.len ≡ 5 - 3 + 2))
receive_lem_example =
    receive_lem slow (holding 3) peer (pos 3) fresh tt 1 refl (holding-IsValid 3 (omega arith)) refl
      refl (omega arith)

-- Two messages, of two bytes and of one, received into a packet that holds two and has room for three
receive_all-send_all_example :
    (q : List (List ℕ)) × (send_all peer (pos 3) (holding 2 ∷ holding 1 ∷ []) fresh []
      ≡ done (fresh, q))
    × (receive_all peer (pos 3) 2 (holding 2) fresh q
        ≡ done ((1 ∷ 2 ∷ []) ∷ (1 ∷ []) ∷ [], fresh, []))
receive_all-send_all_example =
    receive_all-send_all peer (pos 3) (holding 2) (holding 2 ∷ holding 1 ∷ []) fresh
      (holding-IsValid 2 (omega arith))
      (
        holding-IsValid 2 (omega arith),
        omega arith,
        omega arith,
        omega arith,
        (holding-IsValid 1 (omega arith), omega arith, omega arith, omega arith, tt),
      )
