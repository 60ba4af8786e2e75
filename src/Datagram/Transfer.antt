-- ===== src/Datagram/Transfer.antt =====
-- What sending and receiving do with a packet (src/net/socket_base.cpp).
use taurus.Shared.{
  ℕ, zero, suc, ◌+◌, ◌-◌, ◌%◌, ◌^◌, ◌≤◌, ◌<◌, ◌≡◌, ◌≢◌, refl, sym, subst, List, [], ◌∷◌, ◌++◌,
  length, take, drop, some, done, abort, fault, arith, leb, true, false,
}
use taurus.Shared.Int.{ℤ, pos}
use taurus.RuntimeError.{RuntimeError, is_error}
use taurus.Kernel.{minus_one, eagain, keeps_last, Platform, sys_sendto, sys_recvfrom}
use taurus.SocketAddress.{Impl, InetSocketAddress, impl_caddr, caddr, caddr_size}
use taurus.SocketIo.{Io, size_mod, room, open_on, write_to, read_from, send_failed}
use taurus.SocketIo.Sends
use taurus.SocketIo.Receives.{read_from_lem}
use taurus.Datagram.{Packet, packet_with_to, send, receive, set_buf_len}

-- The length within the capacity, and as much storage as the capacity says; no object is larger than
-- half of the address space
pub record IsValid (d : Packet) : Type 0 where
  pub len_le : d.len ≤ d.cap
  pub cap_is : d.cap ≡ length d.buf
  pub cap_lt : d.cap < 2 ^ 63

send_failed-is_error :
    {K : Type 0} (p : Platform K) (endp : InetSocketAddress) (io : Io) (e : RuntimeError)
    → is_error (send_failed p endp io e) ≡ true
unfolding send_failed is_error
send_failed-is_error p endp io e = refl

drop-take_append : (n : ℕ) (xs ys : List ℕ) → n ≤ length xs → drop n (take n xs ++ ys) ≡ ys
drop-take_append zero xs ys h = refl
drop-take_append (suc n) [] ys h = absurd (omega arith)
drop-take_append (suc n) (x ∷ xs) ys h = drop-take_append n xs ys (omega arith)

length-drop : (n : ℕ) (xs : List ℕ) → n ≤ length xs → n + length (drop n xs) ≡ length xs
length-drop zero xs h = omega arith
length-drop (suc n) [] h = absurd (omega arith)
length-drop (suc n) (x ∷ xs) h = omega (arith, length-drop n xs (omega arith))

module _ {K : Type 0} (p : Platform K) where
  -- A packet made with a capacity and an endpoint has no endpoint: sending it, or receiving into it,
  -- dereferences a null pointer.
  pub endpoint_lost :
      (buf : List ℕ) (len cap : ℕ) (endp : InetSocketAddress) (fd : ℤ) (e : RuntimeError) (k : K)
      → (send p (packet_with_to buf len cap endp) fd e k ≡ fault)
        × (receive p (packet_with_to buf len cap endp) fd e k ≡ fault)
  unfolding packet_with_to send receive
  endpoint_lost buf len size endp fd e k = (refl, refl)

  -- The packet with an endpoint that holds an address
  abbrev pub addressed : Impl → Packet → Packet
  addressed i d = record d { endp = some (some i) }

  -- In a build where a missing return gives the last result: sending a valid packet to an endpoint
  -- makes one call: of the first bytes of the buffer, as many as the packet is long, to the C
  -- structure of the endpoint. What the system accepted is returned; EAGAIN gives 0, and another
  -- failure -1 and an error.
  pub send_lem :
      (d : Packet) (i : Impl) (fd : ℤ) (e : RuntimeError) (k : K)
      → p.fall_off ≡ keeps_last
      → IsValid d
      → let (r, k') = p.syscall (sys_sendto fd (take d.len d.buf) (some (impl_caddr i))) k in
        ((n : ℕ) → r.ret ≡ pos n → send p (addressed i d) fd e k ≡ done (pos n, e, k'))
        × (r.ret ≡ minus_one
            → r.errno ≡ eagain
            → send p (addressed i d) fd e k ≡ done (pos 0, e, k'))
        × (r.ret ≡ minus_one
            → r.errno ≢ eagain
            → (e' : RuntimeError) × (send p (addressed i d) fd e k ≡ done (minus_one, e', k'))
              × (is_error e' ≡ true))
  unfolding send write_to caddr caddr_size open_on
  send_lem d i fd e k keeps v = (
    λ n q. rw (keeps, room_is, fits) (ground arith),
    λ q again. rw (keeps, room_is, fits) (ground arith),
    λ q other. (
      send_failed p (some i) (open_on fd d.buf d.len) e,
      rw (keeps, room_is, fits) (ground arith),
      send_failed-is_error p (some i) (open_on fd d.buf d.len) e,
    ),
  )
    where
      room_is : (size_mod + d.len - 0) % size_mod ≡ d.len
      room_is = omega arith

      fits : leb (0 + d.len) (length d.buf) ≡ true
      fits = ground arith

  -- The reader that receive() makes: the storage behind the packet's length
  abbrev pub behind : ℤ → Packet → Io
  behind fd d = record { fd = fd; mem = drop d.len d.buf; size = d.cap - d.len; pos = 0 }

  behind-IsValid : (fd : ℤ) (d : Packet) → IsValid d → Sends.IsValid (behind fd d)
  behind-IsValid fd d v = record {
    pos_le = omega arith;
    size_is =
        omega
          (arith, length-drop d.len d.buf (omega (arith, v.len_le, v.cap_is)), v.cap_is, v.len_le);
    size_lt = omega (arith, v.cap_lt);
  }

  -- The packet after a message
  abbrev pub grown : Packet → Impl → ℕ → List ℕ → Packet
  grown d i n mem = record d {
    endp = some (some i);
    buf = take d.len d.buf ++ mem;
    len = d.cap - d.len + suc n;
  }

  after_read :
      (d : Packet) (i : Impl) (fd : ℤ) (e e' : RuntimeError) (k k' : K) (n : ℕ) (io' : Io)
      → IsValid d
      → suc n ≤ d.cap - d.len
      → read_from p (some i) (behind fd d) e k ≡ done (pos (suc n), io', e', k')
      → (d.len < suc n → receive p (addressed i d) fd e k ≡ abort)
        × (suc n ≤ d.len
            → receive p (addressed i d) fd e k ≡ done (pos (suc n), grown d i n io'.mem, e', k'))
  unfolding receive set_buf_len open_on
  after_read d i fd e e' k k' n io' v fits ran = (
    λ longer. rw (room_is, ran, room_is, length_is, too_long longer),
    λ shorter. rw (room_is, ran, room_is, length_is, short_enough shorter),
  )
    where
      room_is : (size_mod + d.cap - d.len) % size_mod ≡ d.cap - d.len
      room_is = omega arith

      length_is : (d.cap - d.len + suc n) % size_mod ≡ d.cap - d.len + suc n
      length_is = omega arith

      too_long : d.len < suc n → leb (d.cap - d.len + suc n) d.cap ≡ false
      too_long longer = ground arith

      short_enough : suc n ≤ d.len → leb (d.cap - d.len + suc n) d.cap ≡ true
      short_enough shorter = ground arith

  -- In a build where a missing return gives the last result: receive() into a valid packet with an
  -- endpoint, when the system has a message that fits behind what the packet holds. The new length
  -- is the room that was there, not the length, plus the size of the message: if the message is
  -- longer than what the packet held this exceeds the capacity and stops at the assert; if not,
  -- the message is stored behind the old length, and the number of its bytes is returned.
  pub receive_lem :
      (d : Packet) (i : Impl) (fd : ℤ) (e : RuntimeError) (k : K) (n : ℕ)
      → p.fall_off ≡ keeps_last
      → IsValid d
      → let (r, k') = p.syscall (sys_recvfrom fd (room (behind fd d))) k in
        r.ret ≡ pos (suc n)
        → length r.bytes ≡ suc n
        → suc n ≤ d.cap - d.len
        → (d.len < suc n → receive p (addressed i d) fd e k ≡ abort)
          × (suc n ≤ d.len
              → (d' : Packet) × (receive p (addressed i d) fd e k ≡ done (pos (suc n), d', e, k'))
                × (take (suc n) (drop d.len d'.buf) ≡ r.bytes)
                × (d'.len ≡ d.cap - d.len + suc n))
  receive_lem d i fd e k n keeps v q len fits =
      let (r, k') = p.syscall (sys_recvfrom fd (room (behind fd d))) k in
      let (io', ran, stored, at, io_v) =
        (read_from_lem p i (behind fd d) e k keeps (behind-IsValid fd d v)).0 n q len
          (omega arith) in
      let (longer, shorter) = after_read d i fd e e k k' n io' v fits ran in
      (
        longer,
        λ h. (
          grown d i n io'.mem,
          shorter h,
          subst (λ m. take (suc n) m ≡ r.bytes)
              (sym (drop-take_append d.len d.buf io'.mem (omega arith))) stored,
          refl,
        ),
      )
