-- ===== src/SocketIo/Receives.antt =====
-- The reader of src/net/socket_io_impl.h: what the system puts into the buffer.
use taurus.Shared.{
  ℕ, suc, ◌+◌, ◌≤◌, ◌<◌, ◌≡◌, ◌≢◌, refl, subst, codes, List, length, take, drop, overwrite,
  length-overwrite, take-drop-overwrite, some, ◌⊎◌, done, abort, arith, true,
}
use taurus.Shared.Int.{pos}
use taurus.RuntimeError.{RuntimeError, is_error}
use taurus.Kernel.{minus_one, eagain, keeps_last, Platform, sys_recvfrom}
use taurus.SocketAddress.{Impl, caddr, caddr_size}
use taurus.SocketIo.{Io, room, read, read_all, read_from, reset_reader, reset_writer, call_failed}
use taurus.SocketIo.Sends.{IsValid}

call_failed-is_error :
    (call hint : List ℕ) (io : Io) (e : RuntimeError) → is_error (call_failed call hint io e) ≡ true
unfolding call_failed is_error
call_failed-is_error call hint io e = refl

module _ {K : Type 0} (p : Platform K) where
  -- Read(limit, e) and Read(e) on a valid reader: a limit that the rest of the buffer has room for stops
  -- at the assert before the system is asked, and so Read(e), which asks for the rest, always does.
  pub read_stops :
      (limit : ℕ) (io : Io) (e : RuntimeError) (k : K)
      → IsValid io
      → io.pos + limit ≤ io.size
      → (read p limit io e k ≡ abort) × (read_all p io e k ≡ abort)
  unfolding read read_all
  read_stops limit io e k v h = (ground arith, ground arith)

  -- In a build where a missing return gives the last result: Read(endp, e) on a valid reader, on
  -- each answer of the system to the one call that it makes, for the room that is left. Bytes that
  -- fit are stored from the position on, in order, the position moves past them and the reader
  -- stays valid. An answer of 0 or -1 with errno at EAGAIN gives 0 and changes nothing; one with
  -- another errno gives -1 and an error, and leaves the reader as it was.
  pub read_from_lem :
      (i : Impl) (io : Io) (e : RuntimeError) (k : K)
      → p.fall_off ≡ keeps_last
      → IsValid io
      → let (r, k') = p.syscall (sys_recvfrom io.fd (room io)) k in
        ((n : ℕ)
          → r.ret ≡ pos (suc n)
          → length r.bytes ≡ suc n
          → suc n ≤ room io
          → (io' : Io) × (read_from p (some i) io e k ≡ done (pos (suc n), io', e, k'))
            × (take (suc n) (drop io.pos io'.mem) ≡ r.bytes)
            × (io'.pos ≡ io.pos + suc n)
            × IsValid io')
        × ((r.ret ≡ pos 0) ⊎ (r.ret ≡ minus_one)
            → r.errno ≡ eagain
            → read_from p (some i) io e k ≡ done (pos 0, io, e, k'))
        × ((r.ret ≡ pos 0) ⊎ (r.ret ≡ minus_one)
            → r.errno ≢ eagain
            → (e' : RuntimeError) × (read_from p (some i) io e k ≡ done (minus_one, io, e', k'))
              × (is_error e' ≡ true))
  unfolding read_from caddr caddr_size
  read_from_lem i io e k keeps v = (
    λ n q len fits.
        let bytes = (p.syscall (sys_recvfrom io.fd (room io)) k).0.bytes in
        (
          record io { mem = overwrite io.mem io.pos bytes; pos = io.pos + suc n },
          ground (arith, keeps),
          subst (λ m. take m (drop io.pos (overwrite io.mem io.pos bytes)) ≡ bytes) len
              (take-drop-overwrite io.mem io.pos bytes (omega arith)),
          refl,
          record {
            pos_le = omega arith;
            size_is = omega (arith, length-overwrite io.mem io.pos bytes);
            size_lt = omega arith;
          },
        ),
    λ q again. ground (arith, keeps),
    λ q other. (
      call_failed (codes "recvfrom()") (codes "SocketIoImpl::Read") io e,
      ground (arith, keeps),
      call_failed-is_error (codes "recvfrom()") (codes "SocketIoImpl::Read") io e,
    ),
  )

-- Reset(pos) on a valid reader and on a valid writer stops at the assert for a position behind the
-- buffer. For another one the writer's sets the position and keeps it valid; the reader's, in which
-- the assignment is a comparison, changes nothing.
pub reset_lem :
    (at : ℕ) (io : Io)
    → IsValid io
    → (at ≤ io.size
        → (reset_reader at io ≡ done io)
          × (reset_writer at io ≡ done (record io { pos = at }))
          × IsValid (record io { pos = at }))
      × (io.size < at → (reset_reader at io ≡ abort) × (reset_writer at io ≡ abort))
unfolding reset_reader reset_writer
reset_lem at io v = (
  λ h.
      (ground arith, ground arith, record { pos_le = h; size_is = v.size_is; size_lt = v.size_lt }),
  λ h. (ground arith, ground arith),
)
