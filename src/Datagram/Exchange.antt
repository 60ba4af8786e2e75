-- ===== src/Datagram/Exchange.antt =====
-- That datagram sockets of src/net/socket_base.cpp carry messages whole and in order.
use taurus.Shared.{
  ℕ, suc, inl, inr, ℕ-cases, ◌-◌, ◌≤◌, ◌<◌, ◌≡◌, refl, sym, ap, ◌∙◌, List, [], ◌∷◌, ◌++◌,
  append-nil, append_assoc, length, length-take-drop, take, take-all, drop, min, done, arith,
}
use taurus.Shared.Int.{ℤ, pos}
use taurus.RuntimeError.{RuntimeError}
use taurus.SocketAddress.{Impl}
use taurus.SocketIo.{room}
use taurus.Datagram.{Packet, send, receive}
use taurus.Datagram.Transfer.{IsValid, addressed, behind, send_lem, receive_lem}
use taurus.Datagram.Mailbox.{mailbox, send_all, receive_all}

-- What a packet holds
abbrev pub payload : Packet → List ℕ
payload d = take d.len d.buf

abbrev pub payloads : List Packet → List (List ℕ)
payloads [] = []
payloads (d ∷ ds) = payload d ∷ payloads ds

-- The packets are valid and not empty, and their messages are no longer than what `into` holds nor than
-- the room behind that.
abbrev pub Fit : Packet → List Packet → Type 0
Fit into [] = Unit
Fit into (d ∷ ds) =
    IsValid d × (0 < d.len) × (d.len ≤ into.len) × (d.len ≤ into.cap - into.len) × Fit into ds

payload-length : (d : Packet) → IsValid d → length (payload d) ≡ d.len
payload-length d v = length-take-drop d.buf 0 d.len (omega (arith, v.len_le, v.cap_is))

module _ (i : Impl) (fd : ℤ) (into : Packet) (into_valid : IsValid into) where
  sent :
      (d : Packet) (e : RuntimeError) (q : List (List ℕ))
      → IsValid d
      → send mailbox (addressed mailbox i d) fd e q
        ≡ done (pos (length (payload d)), e, q ++ payload d ∷ [])
  sent d e q v = (send_lem mailbox d i fd e q refl v).0 (length (payload d)) refl

  send_all_lem :
      (ds : List Packet) (e : RuntimeError) (q : List (List ℕ))
      → Fit into ds
      → send_all i fd ds e q ≡ done (e, q ++ payloads ds)
  unfolding send_all
  send_all_lem [] e q fit = ap (λ x. done (e, x)) (sym (append-nil q))
  send_all_lem (d ∷ ds) e q (v, some_, held_, room_, fit) = rw (sent d e q v) (
      send_all_lem ds e (q ++ payload d ∷ []) fit
      ∙ ap (λ x. done (e, x)) (append_assoc q (payload d ∷ []) (payloads ds)))

  arrived_suc :
      (d : Packet) (e : RuntimeError) (q : List (List ℕ)) (n : ℕ)
      → IsValid d
      → d.len ≡ suc n
      → d.len ≤ into.len
      → d.len ≤ into.cap - into.len
      → (d' : Packet) × (receive mailbox (addressed mailbox i into) fd e (payload d ∷ q)
          ≡ done (pos (suc n), d', e, q))
        × (take (suc n) (drop into.len d'.buf) ≡ payload d)
  arrived_suc d e q n v is held_ room_ =
      let here : room (behind mailbox fd into) ≡ into.cap - into.len =
        omega (arith, into_valid.len_le, into_valid.cap_lt) in
      let whole : take (room (behind mailbox fd into)) (payload d) ≡ payload d =
        take-all (payload d) (room (behind mailbox fd into)) (omega (arith, payload-length d v)) in
      let size : min (room (behind mailbox fd into)) (length (payload d)) ≡ suc n =
        omega (arith, payload-length d v) in
      let (d', ran, stored, len) =
        (receive_lem mailbox into i fd e (payload d ∷ q) n refl into_valid (ap pos size)
            (ap length whole ∙ payload-length d v ∙ is) (omega arith)).1
          (omega arith) in
      (d', ran, stored ∙ whole)

  arrived :
      (d : Packet) (e : RuntimeError) (q : List (List ℕ))
      → IsValid d
      → 0 < d.len
      → d.len ≤ into.len
      → d.len ≤ into.cap - into.len
      → (d' : Packet) × (receive mailbox (addressed mailbox i into) fd e (payload d ∷ q)
          ≡ done (pos d.len, d', e, q))
        × (take d.len (drop into.len d'.buf) ≡ payload d)
  arrived d e q v some_ held_ room_ = elim (ℕ-cases d.len) [
    | inl none_ ↦ absurd (omega arith)
    | inr (n, is) ↦
        let (d', ran, got) = arrived_suc d e q n v is held_ room_ in
        (
          d',
          ran ∙ ap (λ k. done (pos k, d', e, q)) (sym is),
          ap (λ k. take k (drop into.len d'.buf)) is ∙ got,
        )
  ]

  receive_all_lem :
      (ds : List Packet) (e : RuntimeError)
      → Fit into ds
      → receive_all i fd (length ds) into e (payloads ds) ≡ done (payloads ds, e, [])
  unfolding receive_all
  receive_all_lem [] e fit = refl
  receive_all_lem (d ∷ ds) e (v, some_, held_, room_, fit) =
      let (d', ran, got) = arrived d e (payloads ds) v some_ held_ room_ in
      rw (ran, receive_all_lem ds e fit) (ap (λ x. done (x ∷ payloads ds, e, [])) got)

-- Datagram sockets on a system that queues messages, in a build where a missing return gives the
-- last result: packets that are valid, not empty and no longer than what the receiving packet
-- holds and has room for behind that are all sent, and as many calls of receive() return, in
-- order, exactly the bytes that each packet held; the queue is empty afterwards, and the error
-- object as it was.
pub receive_all-send_all :
    (i : Impl) (fd : ℤ) (into : Packet) (ds : List Packet) (e : RuntimeError)
    → IsValid into
    → Fit into ds
    → (q : List (List ℕ)) × (send_all i fd ds e [] ≡ done (e, q))
      × (receive_all i fd (length ds) into e q ≡ done (payloads ds, e, []))
receive_all-send_all i fd into ds e v fit =
    (payloads ds, send_all_lem i fd into v ds e [] fit, receive_all_lem i fd into v ds e fit)
