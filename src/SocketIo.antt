-- ===== src/SocketIo.antt =====
-- `class SocketReaderImpl` and `class SocketWriterImpl` of src/net/socket_io_impl.h. The buffer is the
-- caller's: `mem` is what it holds, as many bytes as the caller really gave, whatever size it claimed.
-- What a system call reads or writes outside it is a fault.
pub mod Sends
pub mod Record
pub mod Progress
pub mod Receives
pub mod Pipe
pub mod Streams
pub mod Delivery
mod StreamTests
mod Tests
use taurus.Shared.{
  ℕ, zero, suc, ◌+◌, ◌-◌, ◌%◌, ◌^◌, List, [], length, take, drop, overwrite, ltb, leb, ◌==◌,
  if◌then◌else◌, some, ◌++◌, Text, codes, Outcome, done, fault, ◌>>=◌, ◌>>◌, check, access,
}
use taurus.Shared.Int.{ℤ, pos, negsuc, show_int}
use taurus.RuntimeError.{RuntimeError, set}
use taurus.Kernel.{minus_one, eagain, Platform, sys_recv, sys_recvfrom, sys_send, sys_sendto}
use taurus.SocketAddress
use taurus.SocketAddress.{InetSocketAddress, caddr, caddr_size}
use taurus.Messages.{manipulator}

abbrev pub size_mod : ℕ
size_mod = 2 ^ 64

-- m_fd, m_buffer, m_size and m_pos, of a reader or of a writer
pub record Io : Type 0 where
  pub fd : ℤ
  pub mem : List ℕ
  pub size : ℕ
  pub pos : ℕ

-- The two constructors
unfoldable pub open_on : ℤ → List ℕ → ℕ → Io
open_on fd mem size = record { fd = fd; mem = mem; size = size; pos = 0 }

-- The two destructors
unfoldable pub destroy : Io → Io
destroy io = record { fd = minus_one; mem = []; size = 0; pos = 0 }

-- m_size - m_pos, unsigned
abbrev pub room : Io → ℕ
room io = (size_mod + io.size - io.pos) % size_mod

-- m_pos += r
abbrev pub moved : ℕ → Io → Io
moved r io = record io { pos = (io.pos + r) % size_mod }

-- The errors that are reported
unfoldable pub peer_closed : Io → RuntimeError → RuntimeError
unfolding set
peer_closed io e =
    set minus_one (codes "recv() failed, connection closed by peer. fd: " ++ show_int io.fd)
      (some (codes "SocketIoImpl::Read")) e

unfoldable pub call_failed : Text → Text → Io → RuntimeError → RuntimeError
unfolding set
call_failed call hint io e =
    set minus_one (call ++ codes " failed, " ++ manipulator ++ codes " fd: " ++ show_int io.fd)
      (some hint) e

-- What the system wrote at m_buffer + m_pos.
abbrev pub received : List ℕ → Io → Outcome Io
received bytes io = do
  access (leb (io.pos + length bytes) (length io.mem))
  done (record io { mem = overwrite io.mem io.pos bytes })

-- `n` bytes from m_buffer + m_pos on, for the system to read.
abbrev pub outgoing : ℕ → Io → Outcome (List ℕ)
outgoing n io = do access (leb (io.pos + n) (length io.mem)); done (take n (drop io.pos io.mem))

-- SocketReaderImpl::Reset(pos): `m_pos == pos` compares
unfoldable pub reset_reader : ℕ → Io → Outcome Io
reset_reader at io = do check (leb at io.size); done io

module _ {K : Type 0} (p : Platform K) where
  -- SocketReaderImpl::Read(limit, e)
  unfoldable pub read : ℕ → Io → RuntimeError → K → Outcome (ℤ × Io × RuntimeError × K)
  read limit io e k = do
    check (ltb io.size ((io.pos + limit) % size_mod))
    let (r, k') = p.syscall (sys_recv io.fd limit) k
    elim r.ret [
      | pos (suc n) ↦ do io' ← received r.bytes io; done (pos (suc n), moved (suc n) io', e, k')
      | pos zero ↦ done (minus_one, io, peer_closed io e, k')
      | negsuc _ ↦
          if r.errno == eagain
          then done (pos 0, io, e, k')
          else done
              (minus_one, io, call_failed (codes "recv()") (codes "SocketIoImpl::Read") io e, k')
    ]

  -- Read(e)
  unfoldable pub read_all : Io → RuntimeError → K → Outcome (ℤ × Io × RuntimeError × K)
  read_all io e k = read (room io) io e k

  -- Read(endp, e): the sender's address goes to the buffer that caddr() points to, which the next
  -- caddr() writes over; the address object itself does not change.
  unfoldable pub read_from :
      InetSocketAddress → Io → RuntimeError → K → Outcome (ℤ × Io × RuntimeError × K)
  read_from endp io e k = do
    addrlen ← caddr_size p endp
    addr ← caddr p endp
    let (r, k') = p.syscall (sys_recvfrom io.fd (room io)) k
    let failed : Outcome (ℤ × Io × RuntimeError × K) =
        (if r.errno == eagain
          then done (pos 0, io, e, k')
          else done (
            minus_one,
            io,
            call_failed (codes "recvfrom()") (codes "SocketIoImpl::Read") io e,
            k',
          ))
    elim r.ret [
      | pos (suc n) ↦ do io' ← received r.bytes io; done (pos (suc n), moved (suc n) io', e, k')
      | pos zero ↦ failed
      | negsuc _ ↦ failed
    ]

  -- SocketWriterImpl::Write(limit, e)
  unfoldable pub write : ℕ → Io → RuntimeError → K → Outcome (ℤ × Io × RuntimeError × K)
  write limit io e k = do
    check (ltb io.size ((io.pos + limit) % size_mod))
    bytes ← outgoing limit io
    let (r, k') = p.syscall (sys_send io.fd bytes) k
    elim r.ret [
      | pos n ↦ done (pos n, moved n io, e, k')
      | negsuc _ ↦
          if r.errno == eagain
          then done (pos 0, io, e, k')
          else done
              (minus_one, io, call_failed (codes "send()") (codes "SocketIoImpl::Write") io e, k')
    ]

  -- Write(e)
  unfoldable pub write_all : Io → RuntimeError → K → Outcome (ℤ × Io × RuntimeError × K)
  write_all io e k = write (room io) io e k

  -- The text of the error of Write(endp, e)
  unfoldable pub send_failed : InetSocketAddress → Io → RuntimeError → RuntimeError
  unfolding set
  send_failed endp io e =
      set minus_one
        (codes "sendto() failed, "
          ++ manipulator
          ++ codes " fd: "
          ++ show_int io.fd
          ++ codes ", remote: "
          ++ SocketAddress.str p endp)
        (some (codes "SocketIoImpl::WriteTo")) e

  -- Write(endp, e)
  unfoldable pub write_to :
      InetSocketAddress → Io → RuntimeError → K → Outcome (ℤ × Io × RuntimeError × K)
  write_to endp io e k = do
    addr ← caddr p endp
    addrlen ← caddr_size p endp
    bytes ← outgoing (room io) io
    let (r, k') = p.syscall (sys_sendto io.fd bytes addr) k
    elim r.ret [
      | pos n ↦ done (pos n, moved n io, e, k')
      | negsuc _ ↦
          if r.errno == eagain
          then done (pos 0, io, e, k')
          else done (minus_one, io, send_failed endp io e, k')
    ]

-- SocketWriterImpl::Reset(pos)
unfoldable pub reset_writer : ℕ → Io → Outcome Io
reset_writer at io = do check (leb at io.size); done (record io { pos = at })
