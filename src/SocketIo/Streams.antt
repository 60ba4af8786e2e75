-- ===== src/SocketIo/Streams.antt =====
-- What one turn of the writer or the reader of src/net/socket_io_impl.h does, and what it keeps.
use taurus.Shared.{
  ℕ-cases, take-all, take-append-drop, ℕ, zero, suc, ◌+◌, ◌-◌, ◌≤◌, ◌%◌, ◌≡◌, inl, inr, leb, true,
  overwrite-nil, refl, sym, ap, ap₂, ◌∙◌, List, [], ◌∷◌, ◌++◌, append_assoc, length, take, drop,
  overwrite, length-overwrite, min, some, length-take-drop, take-drop-overwrite, done, arith,
}
use taurus.Shared.Int.{pos}
use taurus.RuntimeError.{RuntimeError}
use taurus.SocketAddress.{Impl, caddr, caddr_size}
use taurus.SocketIo.{Io, size_mod, room, read_from, write_to}
use taurus.SocketIo.Sends.{IsValid, take-add}
use taurus.SocketIo.Pipe.{pipe, Link, writing, reading, take_turn}

take-overwrite :
    (xs : List ℕ) (i : ℕ) (vs : List ℕ)
    → i + length vs ≤ length xs
    → take (i + length vs) (overwrite xs i vs) ≡ take i xs ++ vs
take-overwrite xs zero vs h =
    ap (λ n. take n (overwrite xs 0 vs)) {x = 0 + length vs} {y = length vs} (omega arith)
    ∙ take-drop-overwrite xs 0 vs h
take-overwrite [] (suc i) vs h = absurd (omega arith)
take-overwrite (x ∷ xs) (suc i) vs h =
    ap (λ n. take n (x ∷ overwrite xs i vs)) {x = suc i + length vs} {y = suc (i + length vs)}
      (omega arith)
    ∙ ap (◌∷◌ x) (take-overwrite xs i vs (omega arith))

pub length-take : (n : ℕ) (xs : List ℕ) → n ≤ length xs → length (take n xs) ≡ n
length-take n xs h = length-take-drop xs 0 n (omega arith)

length-drop : (n : ℕ) (xs : List ℕ) → n ≤ length xs → length (drop n xs) ≡ length xs - n
length-drop zero xs h = omega arith
length-drop (suc n) [] h = absurd (omega arith)
length-drop (suc n) (x ∷ xs) h = length-drop n xs (omega arith) ∙ omega arith

module _ (most : ℕ) (endp : Impl) where
  write_to-pipe :
      (io : Io) (e : RuntimeError) (q : List ℕ)
      → IsValid io
      → let n = min most (io.size - io.pos) in
        write_to (pipe most) (some endp) io e q
        ≡ done (pos n, record io { pos = io.pos + n }, e, q ++ take n (drop io.pos io.mem))
  unfolding write_to caddr caddr_size
  write_to-pipe io e q v =
      let here : room io ≡ io.size - io.pos = omega (arith, v.pos_le, v.size_lt) in
      let rest : length (drop io.pos io.mem) ≡ io.size - io.pos =
        length-drop io.pos io.mem (omega (arith, v.pos_le, v.size_is)) ∙ omega (arith, v.size_is) in
      let within : leb (io.pos + (io.size - io.pos)) (length io.mem) ≡ true = ground arith in
      let whole : take (io.size - io.pos) (drop io.pos io.mem) ≡ drop io.pos io.mem =
        take-all (drop io.pos io.mem) (io.size - io.pos) (omega arith) in
      let fits : (io.pos + min most (io.size - io.pos)) % size_mod
          ≡ io.pos + min most (io.size - io.pos) =
        omega (arith, v.pos_le, v.size_lt) in
      rw (here, within, whole, rest, fits) refl

  read_from-pipe :
      (io : Io) (e : RuntimeError) (q : List ℕ)
      → IsValid io
      → let n = min most (min (io.size - io.pos) (length q)) in
        read_from (pipe most) (some endp) io e q
        ≡ done (
          pos n,
          record io { pos = io.pos + n; mem = overwrite io.mem io.pos (take n q) },
          e,
          drop n q,
        )
  unfolding read_from caddr caddr_size
  read_from-pipe io e q v =
      let here : room io ≡ io.size - io.pos = omega (arith, v.pos_le, v.size_lt) in
      let n = min most (min (io.size - io.pos) (length q)) in
      let at_rest : io.pos ≡ io.pos + 0 = omega arith in
      elim (ℕ-cases n) [
        | inl none_ ↦
            rw (here, none_, pipe, here, none_)
              (ap₂ (λ m a. done (pos 0, record io { mem = m; pos = a }, e, q))
                (sym (overwrite-nil io.mem io.pos)) at_rest)
        | inr (m, some_) ↦
            let within : leb (io.pos + length (take (suc m) q)) (length io.mem) ≡ true =
              ground (arith, v.pos_le, v.size_is, length-take (suc m) q (omega arith)) in
            let fits : (io.pos + suc m) % size_mod ≡ io.pos + suc m =
              omega (arith, v.pos_le, v.size_lt) in
            rw (here, some_, pipe, here, some_, within, fits) refl
      ]

take-stored :
    (mem : List ℕ) (at n : ℕ) (q : List ℕ)
    → at + n ≤ length mem
    → length (take n q) ≡ n
    → take (at + n) (overwrite mem at (take n q)) ++ drop n q ≡ take at mem ++ q
take-stored mem at n q h stored =
    ap (λ k. take (at + k) (overwrite mem at (take n q)) ++ drop n q) (sym stored)
    ∙ ap (λ got. got ++ drop n q) (take-overwrite mem at (take n q) (omega arith))
    ∙ append_assoc (take at mem) (take n q) (drop n q)
    ∙ ap (λ rest. take at mem ++ rest) (take-append-drop n q)

-- The two ends are valid, the writer's buffer holds `bytes`, and what the reader has got, followed
-- by what is under way, is what the writer has sent: nothing is lost, doubled or out of order.
pub record Flows (bytes : List ℕ) (size : ℕ) (l : Link) : Type 0 where
  pub writer_IsValid : IsValid l.writer
  pub reader_IsValid : IsValid l.reader
  pub writer_mem : l.writer.mem ≡ bytes
  pub reader_size : l.reader.size ≡ size
  pub in_order : take l.reader.pos l.reader.mem ++ l.queue ≡ take l.writer.pos bytes

module _ (most : ℕ) (endp : Impl) (bytes : List ℕ) (size : ℕ) where
  pub writing-Flows :
      (l : Link)
      → Flows bytes size l
      → (l' : Link) × (take_turn most endp writing l ≡ done l')
        × Flows bytes size l'
        × (room l'.writer ≡ room l.writer - min most (room l.writer))
        × (l'.reader ≡ l.reader)
  unfolding take_turn
  writing-Flows l f =
      let w = l.writer in
      let n = min most (w.size - w.pos) in
      let v = f.writer_IsValid in
      (
        record l {
          writer = record w { pos = w.pos + n };
          queue = l.queue ++ take n (drop w.pos w.mem);
        },
        rw (write_to-pipe most endp w l.err l.queue v) refl,
        record {
          writer_IsValid = record {
            pos_le = omega (arith, v.pos_le);
            size_is = v.size_is;
            size_lt = v.size_lt;
          };
          reader_IsValid = f.reader_IsValid;
          writer_mem = f.writer_mem;
          reader_size = f.reader_size;
          in_order =
              sym
                (append_assoc (take l.reader.pos l.reader.mem) l.queue (take n (drop w.pos w.mem)))
              ∙ ap₂ (λ got m. got ++ take n (drop w.pos m)) f.in_order f.writer_mem
              ∙ sym (take-add w.pos n bytes);
        },
        omega (arith, v.pos_le, v.size_lt),
        refl,
      )

  pub reading-Flows :
      (l : Link)
      → Flows bytes size l
      → (l' : Link) × (take_turn most endp reading l ≡ done l')
        × Flows bytes size l'
        × (length l'.queue ≡ length l.queue - min most (min (room l.reader) (length l.queue)))
        × (l'.writer ≡ l.writer)
  unfolding take_turn
  reading-Flows l f =
      let r = l.reader in
      let n = min most (min (r.size - r.pos) (length l.queue)) in
      let v = f.reader_IsValid in
      let stored : length (take n l.queue) ≡ n = length-take n l.queue (omega arith) in
      (
        record l {
          reader = record r { pos = r.pos + n; mem = overwrite r.mem r.pos (take n l.queue) };
          queue = drop n l.queue;
        },
        rw (read_from-pipe most endp r l.err l.queue v) refl,
        record {
          writer_IsValid = f.writer_IsValid;
          reader_IsValid = record {
            pos_le = omega (arith, v.pos_le);
            size_is = v.size_is ∙ sym (length-overwrite r.mem r.pos (take n l.queue));
            size_lt = v.size_lt;
          };
          writer_mem = f.writer_mem;
          reader_size = f.reader_size;
          in_order = take-stored r.mem r.pos n l.queue (omega arith) stored ∙ f.in_order;
        },
        omega (arith, length-drop n l.queue (omega arith), v.pos_le, v.size_lt),
        refl,
      )
