-- ===== src/Datagram.antt =====
-- `class DatagramPacket` and `class DatagramSocket`: include/mercury/net/network.h and
-- src/net/socket_base.cpp. `buf` is the storage that the packet's pointer leads to; a null pointer
-- leads to none.
pub mod Transfer
pub mod Mailbox
pub mod Exchange
mod Tests
use taurus.Shared.{
  ℕ, suc, ◌+◌, ◌-◌, ◌%◌, Bool, List, [], ◌++◌, take, drop, leb, if◌then◌else◌, Option, none, some,
  Outcome, done, fault, ◌>>=◌, ◌>>◌, check, zero,
}
use taurus.Shared.Int.{ℤ, pos, negsuc}
use taurus.RuntimeError.{RuntimeError}
use taurus.Kernel.{sock_dgram, Platform}
use taurus.SocketAddress.{InetSocketAddress}
use taurus.Socket.{Sock, create}
use taurus.SocketIo.{Io, size_mod, open_on, write_to, read_from}

pub record Packet : Type 0 where
  pub buf : List ℕ
  pub len : ℕ
  pub cap : ℕ
  pub endp : Option InetSocketAddress

-- DatagramPacket(), and the constructors from a buffer: with its length, an endpoint, a capacity, and
-- a capacity and an endpoint
unfoldable pub empty_packet : Packet
empty_packet = record { buf = []; len = 0; cap = 0; endp = none }

unfoldable pub packet : List ℕ → ℕ → Packet
packet buf len = record { buf = buf; len = len; cap = len; endp = none }

unfoldable pub packet_to : List ℕ → ℕ → InetSocketAddress → Packet
packet_to buf len endp = record { buf = buf; len = len; cap = len; endp = some endp }

unfoldable pub packet_with : List ℕ → ℕ → ℕ → Packet
packet_with buf len cap = record { buf = buf; len = len; cap = cap; endp = none }

unfoldable pub packet_with_to : List ℕ → ℕ → ℕ → InetSocketAddress → Packet
packet_with_to buf len cap endp = record { buf = buf; len = len; cap = cap; endp = none }

-- DatagramPacket(const DatagramPacket &): both share the buffer
unfoldable pub copy : Packet → Packet
copy d = record { buf = d.buf; len = d.len; cap = d.cap; endp = d.endp }

-- DatagramPacket(DatagramPacket &&): the new packet and what is left of the other
unfoldable pub move : Packet → Packet × Packet
unfolding empty_packet
move d = (record { buf = d.buf; len = d.len; cap = d.cap; endp = d.endp }, empty_packet)

-- The two assignments; `same` says whether both are one object
unfoldable pub assign : Bool → Packet → Packet → Packet
assign same self d =
    if same then self else record { buf = d.buf; len = d.len; cap = d.cap; endp = d.endp }

unfoldable pub move_assign : Bool → Packet → Packet → Packet × Packet
unfolding empty_packet
move_assign same self d =
    if same
    then (self, self)
    else (record { buf = d.buf; len = d.len; cap = d.cap; endp = d.endp }, empty_packet)

-- ~DatagramPacket()
unfoldable pub destroy : Packet → Packet
unfolding empty_packet
destroy d = empty_packet

-- setEndpoint, setbuf and setbuflen
unfoldable pub set_endpoint : InetSocketAddress → Packet → Packet
set_endpoint ep d = record d { endp = some ep }

unfoldable pub set_buf : List ℕ → ℕ → ℕ → Packet → Packet
set_buf buf len cap d = record d { buf = buf; len = len; cap = cap }

unfoldable pub set_buf_len : ℕ → Packet → Outcome Packet
set_buf_len len d = do check (leb len d.cap); done (record d { len = len })

module _ {K : Type 0} (p : Platform K) where
  -- DatagramSocket::create
  unfoldable pub create_datagram :
      ℤ → Sock → RuntimeError → K → Outcome (Bool × Sock × RuntimeError × K)
  create_datagram domain s e k = create p domain sock_dgram s e k

  -- DatagramSocket::send; a null endpoint is dereferenced
  unfoldable pub send : Packet → ℤ → RuntimeError → K → Outcome (ℤ × RuntimeError × K)
  unfolding open_on
  send d fd e k = elim d.endp [
    | none ↦ fault
    | some endp ↦ do
      (r, io, e', k') ← write_to p endp (open_on fd d.buf d.len) e k
      done (r, e', k')
  ]

  -- DatagramSocket::receive: the reader gets the buffer behind the length, and `length`, the room
  -- there, is what the number of bytes is added to.
  unfoldable pub receive : Packet → ℤ → RuntimeError → K → Outcome (ℤ × Packet × RuntimeError × K)
  unfolding open_on
  receive d fd e k =
      let length = (size_mod + d.cap - d.len) % size_mod in
      elim d.endp [
        | none ↦ fault
        | some endp ↦ do
          (r, io, e', k') ← read_from p endp (open_on fd (drop d.len d.buf) length) e k
          let filled = record d { buf = take d.len d.buf ++ io.mem }
          elim r [
            | pos (suc n) ↦ do
              d' ← set_buf_len ((length + suc n) % size_mod) filled
              done (pos (suc n), d', e', k')
            | pos zero ↦ done (pos 0, filled, e', k')
            | negsuc n ↦ done (negsuc n, filled, e', k')
          ]
      ]
