-- ===== src/SocketIo/Tests.antt =====
-- Reader and writer of src/net/socket_io_impl.h on a system that takes two bytes at a time.
use taurus.Shared.{
  ℕ, suc, ◌+◌, ◌≤◌, ◌≡◌, ◌≢◌, refl, ap, [], ◌∷◌, length, take, drop, min, some, ◌⊎◌, done, arith,
  true,
}
use taurus.Shared.Int.{pos}
use taurus.RuntimeError.{RuntimeError, fresh, is_error}
use taurus.Kernel.{sys_recvfrom, minus_one, eagain}
use taurus.SocketAddress.{caddr, caddr_size}
use taurus.Script.{by_two, slow, peer}
use taurus.SocketIo.{Io, room, read_from, write_to}
use taurus.SocketIo.Record.{recorded}
use taurus.SocketIo.Sends.{IsValid, AcceptsAtMost, none_yet, then_one, Sends-sent}
use taurus.SocketIo.Progress.{AcceptsSome, write_times, write_times_finishes}
use taurus.SocketIo.Receives.{read_from_lem}

abbrev io_at : ℕ → Io
io_at n = record { fd = pos 3; mem = 1 ∷ 2 ∷ 3 ∷ []; size = 3; pos = n }

io_at-IsValid : (n : ℕ) → n ≤ 3 → IsValid (io_at n)
io_at-IsValid n h = record { pos_le = h; size_is = refl; size_lt = omega arith }

slow-AcceptsAtMost : AcceptsAtMost slow
slow-AcceptsAtMost fd bytes addr k n h = omega (arith, of_pos h)
  where
    of_pos : pos (min 2 (length bytes)) ≡ pos n → min 2 (length bytes) ≡ n
    of_pos e = cc

first_two :
    write_to (recorded slow) (some peer) (io_at 0) fresh (tt, [])
    ≡ done (pos 2, io_at 2, fresh, (tt, 1 ∷ 2 ∷ []))
unfolding write_to caddr caddr_size
first_two = refl

last_one :
    write_to (recorded slow) (some peer) (io_at 2) fresh (tt, 1 ∷ 2 ∷ [])
    ≡ done (pos 1, io_at 3, fresh, (tt, 1 ∷ 2 ∷ 3 ∷ []))
unfolding write_to caddr caddr_size
last_one = refl

Sends-sent_example :
    (1 ∷ 2 ∷ 3 ∷ [] ≡ take 3 (io_at 0).mem)
    × (0 ≤ 3)
    × IsValid (io_at 3)
    × ((io_at 3).mem ≡ (io_at 0).mem)
Sends-sent_example =
    Sends-sent slow (some peer) (io_at 0) (io_at 3) (1 ∷ 2 ∷ 3 ∷ []) slow-AcceptsAtMost
      (io_at-IsValid 0 (omega arith))
      (then_one (pos 1) fresh fresh tt tt (then_one (pos 2) fresh fresh tt tt none_yet first_two)
        last_one)

read_from_lem_example :
    let (r, k') = by_two (sys_recvfrom (pos 3) 2) tt in
    ((n : ℕ)
      → r.ret ≡ pos (suc n)
      → length r.bytes ≡ suc n
      → suc n ≤ room (io_at 1)
      → (io' : Io) × (read_from slow (some peer) (io_at 1) fresh tt
          ≡ done (pos (suc n), io', fresh, k'))
        × (take (suc n) (drop 1 io'.mem) ≡ r.bytes)
        × (io'.pos ≡ 1 + suc n)
        × IsValid io')
    × ((r.ret ≡ pos 0) ⊎ (r.ret ≡ minus_one)
        → r.errno ≡ eagain
        → read_from slow (some peer) (io_at 1) fresh tt ≡ done (pos 0, io_at 1, fresh, k'))
    × ((r.ret ≡ pos 0) ⊎ (r.ret ≡ minus_one)
        → r.errno ≢ eagain
        → (e' : RuntimeError) × (read_from slow (some peer) (io_at 1) fresh tt
            ≡ done (minus_one, io_at 1, e', k'))
          × (is_error e' ≡ true))
read_from_lem_example =
    read_from_lem slow peer (io_at 1) fresh tt refl (io_at-IsValid 1 (omega arith))

slow-AcceptsSome : AcceptsSome slow peer
slow-AcceptsSome fd [] addr k h = absurd (omega arith)
slow-AcceptsSome fd (b ∷ []) addr k h = (0, refl)
slow-AcceptsSome fd (b ∷ c ∷ bytes) addr k h =
    (1, ap pos {x = min 2 (length (b ∷ c ∷ bytes))} (omega arith))

write_times_finishes_example :
    (io' : Io) × (e' : RuntimeError) × (k' : Unit) × (write_times
        (recorded slow)
        peer
        3
        (io_at 0)
        fresh
        (tt, 9 ∷ [])
      ≡ done (io', e', (k', 9 ∷ 1 ∷ 2 ∷ 3 ∷ [])))
    × (io'.pos ≡ 3)
write_times_finishes_example =
    write_times_finishes slow peer 3 (io_at 0) fresh tt (9 ∷ []) refl slow-AcceptsAtMost
      slow-AcceptsSome (io_at-IsValid 0 (omega arith)) (omega arith)
