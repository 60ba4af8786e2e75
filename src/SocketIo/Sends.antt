-- ===== src/SocketIo/Sends.antt =====
-- The writer of src/net/socket_io_impl.h: what reaches the system.
use taurus.Shared.{
  ℕ, zero, suc, ◌+◌, ◌-◌, ◌≤◌, ◌<◌, ◌≡◌, refl, sym, ap, ap₂, ◌∙◌, List, [], ◌∷◌, ◌++◌, append-nil,
  length, take, drop, drop-add, length-take-drop, Option, Outcome-cases, inl, inr, done, abort,
  fault, arith,
}
use taurus.Shared.Int.{ℤ, pos, negsuc}
use taurus.RuntimeError.{RuntimeError}
use taurus.Kernel.{Platform, SockAddr, sys_sendto}
use taurus.SocketAddress.{InetSocketAddress, caddr}
use taurus.SocketIo.Record.{recorded}
use taurus.SocketIo.{Io, size_mod, room, write, write_all, write_to}

-- The position lies in a buffer of the size that it was given with.
pub record IsValid (io : Io) : Type 0 where
  pub pos_le : io.pos ≤ io.size
  pub size_is : io.size ≡ length io.mem
  pub size_lt : io.size < size_mod

take-nil : {A : Type 0} (n : ℕ) → take {A = A} n [] ≡ []
take-nil zero = refl
take-nil (suc n) = refl

pub take-add :
    {A : Type 0} (a b : ℕ) (xs : List A) → take (a + b) xs ≡ take a xs ++ take b (drop a xs)
take-add zero b xs = ap (λ n. take n xs) (omega arith)
take-add (suc a) b [] = take-nil (suc a + b) ∙ sym (take-nil b)
take-add (suc a) b (x ∷ xs) =
    ap (λ n. take n (x ∷ xs)) {y = suc (a + b)} (omega arith) ∙ ap (◌∷◌ x) (take-add a b xs)

take-take : (n m : ℕ) (xs : List ℕ) → n ≤ m → take n (take m xs) ≡ take n xs
take-take zero m xs h = refl
take-take (suc n) zero xs h = absurd (omega arith)
take-take (suc n) (suc m) [] h = refl
take-take (suc n) (suc m) (x ∷ xs) h = ap (◌∷◌ x) (take-take n m xs (omega arith))

module _ {K : Type 0} (p : Platform K) where
  -- Write(limit, e) and Write(e) never send: on a valid writer a limit that the rest of the buffer has
  -- room for stops at the assert, a larger one (that does not wrap) makes the system read behind the
  -- buffer, and Write(e), which asks for the rest, always stops at the assert.
  pub write_never_returns :
      (limit : ℕ) (io : Io) (e : RuntimeError) (k : K)
      → IsValid io
      → io.pos + limit < size_mod
      → (io.pos + limit ≤ io.size → write p limit io e k ≡ abort)
        × (io.size < io.pos + limit → write p limit io e k ≡ fault)
        × (write_all p io e k ≡ abort)
  unfolding write write_all
  write_never_returns limit io e k v h = (λ q. ground arith, λ q. ground arith, ground arith)

  -- What the manual of sendto(2) says of its result: it accepts at most what it is given.
  abbrev pub AcceptsAtMost : Type 0
  AcceptsAtMost =
      (fd : ℤ) (bytes : List ℕ) (addr : Option SockAddr) (k : K) (n : ℕ)
      → (p.syscall (sys_sendto fd bytes addr) k).0.ret ≡ pos n
      → n ≤ length bytes

  -- How many bytes a result stands for
  abbrev pub count : ℤ → ℕ
  count (pos n) = n
  count (negsuc n) = 0

  pub write_to_moves :
      (endp : InetSocketAddress) (io io' : Io) (r : ℤ) (e e' : RuntimeError) (k k' : K)
      → AcceptsAtMost
      → IsValid io
      → write_to p endp io e k ≡ done (r, io', e', k')
      → (io'.pos ≡ io.pos + count r)
        × (io.pos + count r ≤ io.size)
        × (io'.mem ≡ io.mem)
        × (io'.size ≡ io.size)
  unfolding write_to
  write_to_moves endp io io' r e e' k k' most v h = elim (Outcome-cases (caddr p endp)) [
    | inl stops ↦ ground (arith, stops)
    | inr (inl strays) ↦ ground (arith, strays)
    | inr (inr (addr, named)) ↦ ground (arith, named, accepted addr)
  ]
    where
      accepted :
          (addr : Option SockAddr)
          → (p.syscall (sys_sendto io.fd (take (room io) (drop io.pos io.mem)) addr) k).0.ret
            ≡ pos (count r)
          → count r ≤ room io
      accepted addr q =
          let most_here = most io.fd (take (room io) (drop io.pos io.mem)) addr k (count r) q in
          omega (arith, most_here, length-take-drop io.mem io.pos (room io) (omega arith))

module _ {K : Type 0} (p : Platform K) where
  pub recorded-AcceptsAtMost : AcceptsAtMost p → AcceptsAtMost (recorded p)
  recorded-AcceptsAtMost most fd bytes addr u n h = most fd bytes addr (u.0) n h

  -- What Write(endp, e) adds to the record: the bytes from the position on, as many as it returns.
  pub write_to-recorded :
      (endp : InetSocketAddress) (io io' : Io) (r : ℤ) (e e' : RuntimeError) (u u' : K × List ℕ)
      → AcceptsAtMost p
      → IsValid io
      → write_to (recorded p) endp io e u ≡ done (r, io', e', u')
      → u'.1 ≡ u.1 ++ take (count p r) (drop io.pos io.mem)
  unfolding write_to
  write_to-recorded endp io io' r e e' u u' most v h =
      elim (Outcome-cases (caddr (recorded p) endp)) [
        | inl stops ↦ ground (arith, stops)
        | inr (inl strays) ↦ ground (arith, strays)
        | inr (inr (addr, named)) ↦ ground (arith, named, shortened addr, append-nil (u.1))
      ]
    where
      bytes : List ℕ
      bytes = take (room io) (drop io.pos io.mem)

      shortened :
          (addr : Option SockAddr)
          → (p.syscall (sys_sendto io.fd bytes addr) (u.0)).0.ret ≡ pos (count p r)
          → take (count p r) bytes ≡ take (count p r) (drop io.pos io.mem)
      shortened addr q =
          let most_here = most io.fd bytes addr (u.0) (count p r) q in
          take-take (count p r) (room io) (drop io.pos io.mem)
            (omega (arith, most_here, length-take-drop io.mem io.pos (room io) (omega arith)))

  -- Calls of Write(endp, e) one after the other, whatever each of them returns and whatever happens to
  -- the system in between, with the record of what it accepted.
  pub data Sends (endp : InetSocketAddress) (io : Io) : List ℕ → Io → Type 0 where
    none_yet : Sends endp io [] io
    then_one :
        {log log' : List ℕ} {mid io' : Io} (r : ℤ) (e e' : RuntimeError) (k k' : K)
        → Sends endp io log mid
        → write_to (recorded p) endp mid e (k, log) ≡ done (r, io', e', (k', log'))
        → Sends endp io log' io'

  -- After any sequence of Write(endp, e) on a valid writer, on a system that accepts at most what it is
  -- given: the bytes that it accepted, of those that the calls handed to it, are in order those of
  -- the buffer between the first position and the last; nothing is left out or sent twice, whatever
  -- errors came between. The writer is valid and its buffer unchanged.
  pub Sends-sent :
      (endp : InetSocketAddress) (io io' : Io) (log : List ℕ)
      → AcceptsAtMost p
      → IsValid io
      → Sends endp io log io'
      → (log ≡ take (io'.pos - io.pos) (drop io.pos io.mem))
        × (io.pos ≤ io'.pos)
        × IsValid io'
        × (io'.mem ≡ io.mem)
  Sends-sent endp io io' bytes most v none_yet =
      (ap (λ n. take n (drop io.pos io.mem)) {x = 0} (omega arith), omega arith, v, refl)
  Sends-sent endp io io' all most v (then_one {log = log} {mid = mid} r e e' k k' before h) =
      let (sent, le, mid_v, mid_mem) = Sends-sent endp io mid log most v before in
      let (at, le2, mem_is, size_is) =
        write_to_moves (recorded p) endp mid io' r e e' (k, log) (k', all)
          (recorded-AcceptsAtMost most) mid_v h in
      let added = write_to-recorded endp mid io' r e e' (k, log) (k', all) most mid_v h in
      let xs = drop io.pos io.mem in
      let a = mid.pos - io.pos in
      let start : drop mid.pos mid.mem ≡ drop a xs =
        ap₂ drop {y = io.pos + a} (omega arith) mid_mem ∙ drop-add io.pos a io.mem in
      (
        added
            ∙ ap₂ (λ l m. l ++ take (count p r) m) sent start
            ∙ sym (take-add a (count p r) xs)
            ∙ ap (λ n. take n xs) {y = io'.pos - io.pos} (omega arith),
        omega arith,
        record {
          pos_le = omega arith;
          size_is = size_is ∙ mid_v.size_is ∙ ap length (sym mem_is);
          size_lt = omega (arith, mid_v.size_lt);
        },
        mem_is ∙ mid_mem,
      )
