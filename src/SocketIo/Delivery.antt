-- ===== src/SocketIo/Delivery.antt =====
-- That what a writer of src/net/socket_io_impl.h sends is what a reader at the other end gets.
use taurus.Shared.{
  take-all, ℕ, zero, suc, ◌+◌, ◌≤◌, ◌<◌, ◌≡◌, inl, inr, refl, sym, ap, ◌∙◌, List, [], ◌∷◌, ◌++◌,
  append-nil, length, length-append, take, Outcome-cases, done, ◌>>=◌, arith,
}
use taurus.SocketAddress.{Impl}
use taurus.SocketIo.{size_mod, room, open_on}
use taurus.SocketIo.Pipe.{Link, Turn, writing, reading, times, take_turn, take_turns, connected}
use taurus.SocketIo.Streams.{length-take, Flows, writing-Flows, reading-Flows}

none_left : (q : List ℕ) → length q ≡ 0 → q ≡ []
none_left [] h = refl
none_left (x ∷ q) h = absurd (omega arith)

module _ (most : ℕ) (endp : Impl) (bytes : List ℕ) (size : ℕ) where
  take_turns-Flows :
      (ts : List Turn) (l : Link)
      → Flows bytes size l
      → (l' : Link) × (take_turns most endp ts l ≡ done l') × Flows bytes size l'
  unfolding take_turns
  take_turns-Flows [] l f = (l, refl, f)
  take_turns-Flows (writing ∷ ts) l f =
      let (l1, ran, f1, room_, same) = writing-Flows most endp bytes size l f in
      let (l2, rest, f2) = take_turns-Flows ts l1 f1 in (l2, rw ran rest, f2)
  take_turns-Flows (reading ∷ ts) l f =
      let (l1, ran, f1, len, same) = reading-Flows most endp bytes size l f in
      let (l2, rest, f2) = take_turns-Flows ts l1 f1 in (l2, rw ran rest, f2)

  take_turns-bind :
      (ts us : List Turn) (l : Link)
      → take_turns most endp (ts ++ us) l ≡ (take_turns most endp ts l >>= take_turns most endp us)
  unfolding take_turns
  take_turns-bind [] us l = refl
  take_turns-bind (t ∷ ts) us l = elim (Outcome-cases (take_turn most endp t l)) [
    | inl stops ↦ rw stops refl
    | inr (inl strays) ↦ rw strays refl
    | inr (inr (l', ran)) ↦ rw ran (take_turns-bind ts us l')
  ]

  take_turns-append :
      (ts us : List Turn) (l l1 : Link)
      → take_turns most endp ts l ≡ done l1
      → take_turns most endp (ts ++ us) l ≡ take_turns most endp us l1
  unfolding take_turns
  take_turns-append ts us l l1 ran =
      take_turns-bind ts us l ∙ ap (λ o. o >>= take_turns most endp us) ran

  writings :
      (n : ℕ) (l : Link)
      → 0 < most
      → Flows bytes size l
      → room l.writer ≤ n
      → (l' : Link) × (take_turns most endp (times n writing) l ≡ done l')
        × Flows bytes size l'
        × (room l'.writer ≡ 0)
  unfolding take_turns
  writings zero l some_ f h = (l, refl, f, omega arith)
  writings (suc n) l some_ f h =
      let (l1, ran, f1, left_, same) = writing-Flows most endp bytes size l f in
      let (l2, rest, f2, end) = writings n l1 some_ f1 (omega (arith, left_)) in
      (l2, rw ran rest, f2, end)

  writer_size : (l : Link) → Flows bytes size l → l.writer.size ≡ length bytes
  writer_size l f = f.writer_IsValid.size_is ∙ ap length f.writer_mem

  under_way : (l : Link) → Flows bytes size l → l.reader.pos + length l.queue ≡ l.writer.pos
  under_way l f =
      let r = l.reader in
      let w = l.writer in
      omega (
        arith,
        ap length f.in_order,
        length-append (take r.pos r.mem) l.queue,
        length-take r.pos r.mem (omega (arith, f.reader_IsValid.pos_le, f.reader_IsValid.size_is)),
        length-take w.pos bytes (omega (arith, f.writer_IsValid.pos_le, writer_size l f)),
      )

  -- What is under way has room in the reader's buffer.
  queue-room :
      (l : Link) → length bytes ≤ size → Flows bytes size l → length l.queue ≤ room l.reader
  queue-room l h f = omega (
    arith,
    under_way l f,
    writer_size l f,
    f.writer_IsValid.pos_le,
    f.reader_IsValid.pos_le,
    f.reader_IsValid.size_lt,
    f.reader_size,
  )

  readings :
      (n : ℕ) (l : Link)
      → 0 < most
      → length bytes ≤ size
      → Flows bytes size l
      → length l.queue ≤ n
      → (l' : Link) × (take_turns most endp (times n reading) l ≡ done l')
        × Flows bytes size l'
        × (length l'.queue ≡ 0)
        × (l'.writer ≡ l.writer)
  unfolding take_turns
  readings zero l some_ fits f h = (l, refl, f, omega arith, refl)
  readings (suc n) l some_ fits f h =
      let (l1, ran, f1, left_, same) = reading-Flows most endp bytes size l f in
      let (l2, rest, f2, end, same2) =
        readings n l1 some_ fits f1 (omega (arith, left_, queue-room l fits f)) in
      (l2, rw ran rest, f2, end, same2 ∙ same)

  -- All that was written, once nothing is left to write or under way
  arrived :
      (l : Link)
      → Flows bytes size l
      → room l.writer ≡ 0
      → length l.queue ≡ 0
      → take (length bytes) l.reader.mem ≡ bytes
  arrived l f w_end q_end =
      let w_at : length bytes ≤ l.writer.pos =
        omega (arith, w_end, writer_size l f, f.writer_IsValid.pos_le, f.writer_IsValid.size_lt) in
      let got : take l.reader.pos l.reader.mem ≡ bytes =
        sym (append-nil (take l.reader.pos l.reader.mem))
        ∙ ap (λ q. take l.reader.pos l.reader.mem ++ q) (sym (none_left l.queue q_end))
        ∙ f.in_order
        ∙ take-all bytes l.writer.pos w_at in
      let r_at : length bytes ≡ l.reader.pos =
        omega (arith, q_end, under_way l f, w_at, writer_size l f, f.writer_IsValid.pos_le) in
      ap (λ n. take n l.reader.mem) r_at ∙ got

  finish_reading :
      (l : Link)
      → 0 < most
      → length bytes ≤ size
      → Flows bytes size l
      → room l.writer ≡ 0
      → (l' : Link) × (take_turns most endp (times (length bytes) reading) l ≡ done l')
        × (take (length bytes) l'.reader.mem ≡ bytes)
  finish_reading l some_ fits f w_end =
      let (l', ran, f', q_end, same) =
        readings (length bytes) l some_ fits f
          (omega (arith, under_way l f, writer_size l f, f.writer_IsValid.pos_le)) in
      (l', ran, arrived l' f' (ap room same ∙ w_end) q_end)

  finish :
      (l : Link)
      → 0 < most
      → length bytes ≤ size
      → Flows bytes size l
      → (l' : Link) × (take_turns most endp
            (times (length bytes) writing ++ times (length bytes) reading)
            l
          ≡ done l')
        × (take (length bytes) l'.reader.mem ≡ bytes)
  finish l some_ fits f =
      let (l1, ran, f1, w_end) =
        writings (length bytes) l some_ f
          (omega (arith, writer_size l f, f.writer_IsValid.pos_le, f.writer_IsValid.size_lt)) in
      let (l2, rest, all) = finish_reading l1 some_ fits f1 w_end in
      (
        l2,
        take_turns-append (times (length bytes) writing) (times (length bytes) reading) l l1 ran
            ∙ rest,
        all,
      )

module _ (most : ℕ) (endp : Impl) (bytes buffer : List ℕ) where
  connected-Flows :
      length bytes < size_mod
      → length buffer < size_mod
      → Flows bytes (length buffer) (connected bytes buffer)
  unfolding connected open_on
  connected-Flows h k = record {
    writer_IsValid = record { pos_le = omega arith; size_is = refl; size_lt = h };
    reader_IsValid = record { pos_le = omega arith; size_is = refl; size_lt = k };
    writer_mem = refl;
    reader_size = refl;
    in_order = refl;
  }

  -- In a build where a missing return gives the last result, a writer and a reader, with buffers
  -- smaller than 2^64, at the ends of a queue that takes and gives at most `most` bytes at a time,
  -- calling Write(endp, e) and Read(endp, e) in any order: every call returns, and afterwards what
  -- is in the reader's buffer, followed by what is under way, is what was taken from the writer's
  -- buffer, in order and without a loss or a repetition; both positions are within their buffers.
  pub take_turns_in_order :
      (ts : List Turn)
      → length bytes < size_mod
      → length buffer < size_mod
      → (l : Link) × (take_turns most endp ts (connected bytes buffer) ≡ done l)
        × (take l.reader.pos l.reader.mem ++ l.queue ≡ take l.writer.pos bytes)
        × (l.reader.pos ≤ length buffer)
        × (l.writer.pos ≤ length bytes)
  take_turns_in_order ts h k =
      let (l, ran, f) =
        take_turns-Flows most endp bytes (length buffer) ts (connected bytes buffer)
          (connected-Flows h k) in
      (
        l,
        ran,
        f.in_order,
        omega (arith, f.reader_IsValid.pos_le, f.reader_size),
        omega (arith, f.writer_IsValid.pos_le, f.writer_IsValid.size_is, ap length f.writer_mem),
      )

  -- In a build where a missing return gives the last result: if the reader's buffer is smaller
  -- than 2^64 and at least as large as the writer's, and the queue moves a byte at least, then
  -- whatever turns the two have taken before, as many more calls of Write as there are bytes and
  -- after them as many of Read bring everything over: the reader's buffer starts with the bytes of
  -- the writer's.
  pub take_turns_deliver :
      (ts : List Turn)
      → 0 < most
      → length bytes ≤ length buffer
      → length buffer < size_mod
      → (l : Link) × (take_turns most endp
            (ts ++ (times (length bytes) writing ++ times (length bytes) reading))
            (connected bytes buffer)
          ≡ done l)
        × (take (length bytes) l.reader.mem ≡ bytes)
  take_turns_deliver ts some_ fits k =
      let (l0, ran0, f0) =
        take_turns-Flows most endp bytes (length buffer) ts (connected bytes buffer)
          (connected-Flows (omega arith) k) in
      let (l, ran, all) = finish most endp bytes (length buffer) l0 some_ fits f0 in
      (
        l,
        take_turns-append most endp bytes (length buffer) ts
              (times (length bytes) writing ++ times (length bytes) reading)
              (connected bytes buffer) l0 ran0
            ∙ ran,
        all,
      )
