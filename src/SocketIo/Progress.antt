-- ===== src/SocketIo/Progress.antt =====
-- That a caller who repeats Write(endp, e) of src/net/socket_io_impl.h gets everything sent.
use taurus.Shared.{
  ℕ, zero, suc, ◌+◌, ◌≤◌, ◌<◌, ◌≡◌, refl, sym, ap, ap₂, ◌∙◌, List, [], ◌∷◌, ◌++◌, append-nil,
  append_assoc, length, take, drop, drop-add, take-append-drop, length-take-drop, some, Outcome,
  Outcome-cases, inl, inr, done, ◌>>=◌, arith, Bool-cases, ltb, Option,
}
use taurus.Shared.Int.{ℤ, pos}
use taurus.RuntimeError.{RuntimeError}
use taurus.Kernel.{Platform, SockAddr, keeps_last, sys_sendto}
use taurus.SocketAddress.{Impl, impl_caddr, caddr, caddr_size}
use taurus.SocketIo.{Io, room, write_to}
use taurus.SocketIo.Record.{recorded}
use taurus.SocketIo.Sends.{
  IsValid, AcceptsAtMost, count, write_to_moves, recorded-AcceptsAtMost, write_to-recorded,
}

drop-length : (xs : List ℕ) → drop (length xs) xs ≡ []
drop-length [] = refl
drop-length (x ∷ xs) = drop-length xs

module _ {K : Type 0} (p : Platform K) (i : Impl) where
  -- A blocking socket: what is not empty is accepted in part at least.
  abbrev pub AcceptsSome : Type 0
  AcceptsSome =
      (fd : ℤ) (bytes : List ℕ) (addr : Option SockAddr) (k : K)
      → 0 < length bytes
      → (n : ℕ) × ((p.syscall (sys_sendto fd bytes addr) k).0.ret ≡ pos (suc n))

  -- `n` calls of Write(endp, e), one after the other
  unfoldable pub write_times : ℕ → Io → RuntimeError → K → Outcome (Io × RuntimeError × K)
  write_times zero io e k = done (io, e, k)
  write_times (suc n) io e k = do
    (r, io', e', k') ← write_to p (some i) io e k
    write_times n io' e' k'

  write_to_returns :
      (io : Io) (e : RuntimeError) (k : K)
      → p.fall_off ≡ keeps_last
      → IsValid io
      → (r : ℤ × Io × RuntimeError × K) × (write_to p (some i) io e k ≡ done r)
  unfolding write_to caddr caddr_size
  write_to_returns io e k keeps v = elim (Outcome-cases (write_to p (some i) io e k)) [
    | inl stops ↦ absurd (ground (arith, keeps, stops))
    | inr (inl strays) ↦ absurd (ground (arith, keeps, strays))
    | inr (inr (r, ran)) ↦ (r, ran)
  ]

  write_to_advances :
      (io io' : Io) (r : ℤ) (e e' : RuntimeError) (k k' : K)
      → p.fall_off ≡ keeps_last
      → AcceptsSome
      → IsValid io
      → 0 < room io
      → write_to p (some i) io e k ≡ done (r, io', e', k')
      → 0 < count p r
  unfolding write_to caddr caddr_size
  write_to_advances io io' r e e' k k' keeps some_ v left_ h =
      let bytes = take (room io) (drop io.pos io.mem) in
      let len : length bytes ≡ room io = length-take-drop io.mem io.pos (room io) (omega arith) in
      let (n, ret) = some_ io.fd bytes (some (impl_caddr i)) k (omega arith) in
      ground (arith, keeps, ret)

  -- A call leaves less than before, or there was nothing left.
  room_falls :
      (io io1 : Io) (r : ℤ) (e e1 : RuntimeError) (k k1 : K) (n : ℕ)
      → p.fall_off ≡ keeps_last
      → AcceptsSome
      → IsValid io
      → write_to p (some i) io e k ≡ done (r, io1, e1, k1)
      → io1.pos ≡ io.pos + count p r
      → io1.size ≡ io.size
      → room io ≤ suc n
      → io.pos + count p r ≤ io.size
      → room io1 ≤ n
  room_falls io io1 r e e1 k k1 n keeps some_ v ran at same enough within =
      elim (Bool-cases (ltb 0 (room io))) [
        | inl left_ ↦
            let more = write_to_advances io io1 r e e1 k k1 keeps some_ v (ground arith) ran in
            omega (arith, more, v.size_lt)
        | inr none_ ↦ let nothing : room io ≡ 0 = ground arith in omega (arith, nothing, v.size_lt)
      ]

module _ {K : Type 0} (p : Platform K) (i : Impl) where
  -- What was accepted before a call, in it, and what is then left are what was left before it.
  total :
      (io io1 : Io) (r : ℤ) (log log1 : List ℕ)
      → io1.pos ≡ io.pos + count p r
      → io1.mem ≡ io.mem
      → log1 ≡ log ++ take (count p r) (drop io.pos io.mem)
      → log1 ++ drop io1.pos io1.mem ≡ log ++ drop io.pos io.mem
  total io io1 r log log1 at same_mem added =
      ap₂ (λ l m. l ++ m) added (ap₂ drop at same_mem ∙ drop-add io.pos (count p r) io.mem)
      ∙ append_assoc log (take (count p r) (drop io.pos io.mem)) _
      ∙ ap (λ l. log ++ l) (take-append-drop (count p r) (drop io.pos io.mem))

  recorded-AcceptsSome : AcceptsSome p i → AcceptsSome (recorded p) i
  recorded-AcceptsSome some_ fd bytes addr u h = some_ fd bytes addr (u.0) h

  -- In a build where a missing return gives the last result, repeating Write(endp, e) on a valid
  -- writer, on a system that accepts at most what it is given and, of what is not empty, at least
  -- one byte: as many calls as bytes are left, or more, all return. Of the bytes that the calls
  -- handed to it the system has then accepted exactly the rest of the buffer, in order, and the
  -- position is at the end.
  pub write_times_finishes :
      (n : ℕ) (io : Io) (e : RuntimeError) (k : K) (log : List ℕ)
      → p.fall_off ≡ keeps_last
      → AcceptsAtMost p
      → AcceptsSome p i
      → IsValid io
      → room io ≤ n
      → (io' : Io) × (e' : RuntimeError) × (k' : K) × (write_times (recorded p) i n io e (k, log)
          ≡ done (io', e', (k', log ++ drop io.pos io.mem)))
        × (io'.pos ≡ io.size)
  unfolding write_times
  write_times_finishes zero io e k log keeps most some_ v enough = (
    io,
    e,
    k,
    ap (λ l. done (io, e, (k, l)))
        (sym (append-nil log)
          ∙ ap (λ l. log ++ l)
              (sym
                (ap (λ m. drop m io.mem) {y = length io.mem} (omega arith) ∙ drop-length io.mem))),
    omega arith,
  )
  write_times_finishes (suc n) io e k log keeps most some_ v enough =
      let q = recorded p in
      let ((r, io1, e1, u1), ran) = write_to_returns q i io e (k, log) keeps v in
      let (at, within, same_mem, same_size) =
        write_to_moves q (some i) io io1 r e e1 (k, log) u1 (recorded-AcceptsAtMost p most) v ran in
      let added = write_to-recorded p (some i) io io1 r e e1 (k, log) u1 most v ran in
      let v1 : IsValid io1 = record {
        pos_le = omega arith;
        size_is = same_size ∙ v.size_is ∙ ap length (sym same_mem);
        size_lt = omega (arith, v.size_lt);
      } in
      let (io2, e2, k2, rest, end) =
        write_times_finishes n io1 e1 (u1.0) (u1.1) keeps most some_ v1 (
          room_falls q i io io1 r e e1 (k, log) u1 n keeps (recorded-AcceptsSome some_) v ran at
            same_size enough within) in
      (
        io2,
        e2,
        k2,
        rw (ran, rest)
            (ap (λ l. done (io2, e2, (k2, l))) (total io io1 r log (u1.1) at same_mem added)),
        end ∙ same_size,
      )
