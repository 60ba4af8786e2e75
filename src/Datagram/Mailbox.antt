-- ===== src/Datagram/Mailbox.antt =====
-- Two datagram sockets of src/net/socket_base.cpp at the ends of a queue of messages.
use taurus.Shared.{
  ℕ, zero, suc, List, [], ◌∷◌, ◌++◌, length, take, drop, min, none, codes, Outcome, done, ◌>>=◌,
}
use taurus.Shared.Int.{ℤ, pos, negsuc}
use taurus.RuntimeError.{RuntimeError}
use taurus.Kernel.{Platform, Call, sys_sendto, sys_recvfrom, malformed, keeps_last, minus_one}
use taurus.SocketAddress.{Impl}
use taurus.SocketIo.Pipe.{reply}
use taurus.Datagram.{Packet, send, receive}
use taurus.Datagram.Transfer.{addressed}

-- sendto queues the bytes as one message; recvfrom takes the oldest message and gives as much of
-- it as there is room for, and answers EAGAIN when there is none.
abbrev pub mail_call : Call → List (List ℕ) → taurus.Kernel.Reply × List (List ℕ)
mail_call (sys_sendto fd bytes addr) q = (reply (pos (length bytes)) [], q ++ bytes ∷ [])
mail_call (sys_recvfrom fd n) [] = (reply minus_one [], [])
mail_call (sys_recvfrom fd n) (m ∷ q) = (reply (pos (min n (length m))) (take n m), q)
mail_call c q = (reply minus_one [], q)

abbrev pub mailbox : Platform (List (List ℕ))
mailbox = record {
  syscall = mail_call;
  pton = λ d t. malformed;
  ntop = λ d a. none;
  strerror = λ n. codes "error";
  uninitialised = [];
  fall_off = keeps_last;
}

-- How many bytes a result stands for
abbrev pub count : ℤ → ℕ
count (pos n) = n
count (negsuc n) = 0

module _ (i : Impl) (fd : ℤ) where
  -- The packets sent one after the other
  unfoldable pub send_all :
      List Packet → RuntimeError → List (List ℕ) → Outcome (RuntimeError × List (List ℕ))
  send_all [] e q = done (e, q)
  send_all (d ∷ ds) e q = do
    (r, e', q') ← send mailbox (addressed mailbox i d) fd e q
    send_all ds e' q'

  -- `n` messages received, each into a packet like `into`, with the bytes that came
  unfoldable pub receive_all :
      ℕ
      → Packet
      → RuntimeError
      → List (List ℕ)
      → Outcome (List (List ℕ) × RuntimeError × List (List ℕ))
  receive_all zero into e q = done ([], e, q)
  receive_all (suc n) into e q = do
    (r, d, e', q') ← receive mailbox (addressed mailbox i into) fd e q
    (rest, e2, q2) ← receive_all n into e' q'
    done (take (count r) (drop into.len d.buf) ∷ rest, e2, q2)
