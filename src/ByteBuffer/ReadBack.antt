-- ===== src/ByteBuffer/ReadBack.antt =====
-- That numbers written one after the other by the relative operations of `class ByteBuffer`
-- (src/nio/buffer.cpp) are read back, by the relative operations and by the absolute ones.
use taurus.Shared.{
  ℕ, suc, ◌+◌, ◌*◌, ◌≤◌, ◌<◌, ◌≡◌, refl, ap, ◌∙◌, List, [], ◌∷◌, length, take, drop, overwrite,
  length-overwrite, take-drop-overwrite, subst, arith, done, abort, ◌>>=◌,
}
use taurus.ByteOrder.{ByteOrder}
use taurus.ByteOrder.Meaning.{
  Width, int16, int32, int64, float, double, size, apply, length-apply, apply-apply,
}
use taurus.Buffer.Window.{IsValid}
use taurus.Buffer.{set_position}
use taurus.ByteBuffer.{ByteBuffer}
use taurus.ByteBuffer.Relative.{get_value, put_value}
use taurus.ByteBuffer.Values.{get_value_at, get_value_at-read_at, read_at_lem, size_pos}
use taurus.ByteBuffer.Sequence.{
  put_values, get_values, at_with, Fit, put_value_lem, get_value_lem, stamped, length-stamped,
  stamped_before, Lies, value_stops,
}

-- Room for one number and for those after it
splits :
    (w : Width) (q n l : ℕ)
    → (q + 8 * suc n) * size w ≤ l
    → (q * size w + size w ≤ l)
      × ((q + 8 + 8 * n) * size w ≤ l)
      × (q * size w + size w ≤ (q + 8) * size w)
splits int16 q n l h = omega arith
splits int32 q n l h = omega arith
splits int64 q n l h = omega arith
splits float q n l h = omega arith
splits double q n l h = omega arith

stamped-Lies :
    (w : Width) (o : ByteOrder) (q : ℕ) (xs : List (List ℕ)) (mem : List ℕ)
    → Fit w xs
    → (q + 8 * length xs) * size w ≤ length mem
    → Lies w o q xs (stamped w o q xs mem)
unfolding stamped
stamped-Lies w o q [] mem f h = tt
stamped-Lies w o q (x ∷ xs) mem (len, f) h =
    let (here, there, apart) = splits w q (length xs) (length mem) h in
    (
      stamped_before w o (q * size w) (size w) (q + 8) xs mem1 apart ∙ back here,
      stamped-Lies w o (q + 8) xs mem1 f
          (rw (length-overwrite mem (q * size w) (apply w o x)) there),
    )
  where
    mem1 : List ℕ
    mem1 = overwrite mem (q * size w) (apply w o x)

    back : q * size w + size w ≤ length mem → take (size w) (drop (q * size w) mem1) ≡ apply w o x
    back here =
        subst (λ n. take n (drop (q * size w) mem1) ≡ apply w o x) (length-apply w o x len)
          (take-drop-overwrite mem (q * size w) (apply w o x) (rw (length-apply w o x len) here))

at_with-IsValid :
    (b : ByteBuffer) (q : ℕ) (mem : List ℕ)
    → IsValid b.base
    → b.base.mark ≤ q
    → q ≤ b.base.lim
    → length mem ≡ length b.base.mem
    → IsValid (at_with b q mem).base
at_with-IsValid b q mem v m l e = record {
  mark_le = m;
  pos_le = l;
  lim_le = v.lim_le;
  cap_lt = v.cap_lt;
  storage = omega (arith, v.storage);
}

put_values_lem :
    (w : Width) (xs : List (List ℕ)) (b : ByteBuffer)
    → IsValid b.base
    → Fit w xs
    → b.base.pos + 8 * length xs ≤ b.base.lim
    → (b.base.pos + 8 * length xs) * size w ≤ length b.base.mem
    → put_values w xs b
      ≡ done (at_with b (b.base.pos + 8 * length xs) (stamped w b.order b.base.pos xs b.base.mem))
unfolding put_values stamped
put_values_lem w [] b v f h k = ap (λ q. done (at_with b q b.base.mem)) (omega arith)
put_values_lem w (x ∷ xs) b v (len, f) h k =
    let (here, there, apart) = splits w b.base.pos (length xs) (length b.base.mem) k in
    let mem1 = overwrite b.base.mem (b.base.pos * size w) (apply w b.order x) in
    let same : length mem1 ≡ length b.base.mem =
      length-overwrite b.base.mem (b.base.pos * size w) (apply w b.order x) in
    let c = at_with b (b.base.pos + 8) mem1 in
    let cv : IsValid c.base =
      at_with-IsValid b (b.base.pos + 8) mem1 v (omega (arith, v.mark_le)) (omega arith) same in
    rw (put_value_lem w x b v len (omega arith) here) (
      put_values_lem w xs c cv f (omega arith) (rw same there)
      ∙ ap (λ q. done (at_with b q (stamped w b.order (b.base.pos + 8) xs mem1))) (omega arith))

get_values_lem :
    (w : Width) (xs : List (List ℕ)) (b : ByteBuffer)
    → IsValid b.base
    → Fit w xs
    → Lies w b.order b.base.pos xs b.base.mem
    → b.base.pos + 8 * length xs < b.base.lim
    → (b.base.pos + 8 * length xs) * size w ≤ length b.base.mem
    → get_values w (length xs) b ≡ done (xs, at_with b (b.base.pos + 8 * length xs) b.base.mem)
unfolding get_values
get_values_lem w [] b v f lies h k = ap (λ q. done ([], at_with b q b.base.mem)) (omega arith)
get_values_lem w (x ∷ xs) b v (len, f) (stands, lies) h k =
    let (here, there, apart) = splits w b.base.pos (length xs) (length b.base.mem) k in
    let c = at_with b (b.base.pos + 8) b.base.mem in
    let cv : IsValid c.base =
      at_with-IsValid b (b.base.pos + 8) b.base.mem v (omega (arith, v.mark_le)) (omega arith)
        refl in
    rw
      (
        get_value_lem w b v (omega arith) here,
        stands,
        apply-apply w b.order x len,
        get_values_lem w xs c cv f lies (omega arith) there,
      )
      (ap (λ q. done (x ∷ xs, at_with b q b.base.mem)) (omega arith))

-- get_T(idx) gives the numbers at the indices from `q` on, eight apart.
abbrev pub Found : Width → ByteBuffer → ℕ → List (List ℕ) → Type 0
Found w b q [] = Unit
Found w b q (x ∷ xs) = (get_value_at w q b ≡ done x) × Found w b (q + 8) xs

Lies-Found :
    (w : Width) (q : ℕ) (xs : List (List ℕ)) (b : ByteBuffer)
    → IsValid b.base
    → Fit w xs
    → Lies w b.order q xs b.base.mem
    → q + 8 * length xs ≤ b.base.lim
    → (q + 8 * length xs) * size w ≤ length b.base.mem
    → Found w b q xs
Lies-Found w q [] b v f lies h k = tt
Lies-Found w q (x ∷ xs) b v (len, f) (stands, lies) h k =
    let (here, there, apart) = splits w q (length xs) (length b.base.mem) k in
    (
      get_value_at-read_at w q b
          ∙ (read_at_lem (size w) (apply w) q b v (size_pos w) (reaches w (omega arith))).0 here
          ∙ ap (λ l. done (apply w b.order l)) stands
          ∙ ap done (apply-apply w b.order x len),
      Lies-Found w (q + 8) xs b v f lies (omega arith) there,
    )
  where
    reaches : (u : Width) → q + 8 ≤ b.base.lim → q + size u ≤ b.base.lim
    reaches int16 g = omega arith
    reaches int32 g = omega arith
    reaches int64 g = omega arith
    reaches float g = omega arith
    reaches double g = omega arith

-- Numbers of one of the five types, written one after the other by the relative put_T(value) on a
-- valid buffer: where more than eight positions for each are left before the limit, and the
-- storage reaches as far as the elements of those indices, all the calls return. Each has moved
-- the position on by eight, whatever the type: get_T(idx) finds the numbers at every eighth index
-- from the first position on, and the bytes in front of the first are as before. After
-- position(newpos) to where the first was written, as many relative get_T() return the same
-- numbers, in order, and come to the same position. If fewer than sizeof(T) positions are left
-- there, a further get_T() or put_T(value) stops at its assert.
pub get_values-put_values :
    (w : Width) (xs : List (List ℕ)) (b : ByteBuffer)
    → IsValid b.base
    → Fit w xs
    → b.base.pos + 8 * length xs < b.base.lim
    → (b.base.pos + 8 * length xs) * size w ≤ length b.base.mem
    → (c : ByteBuffer) × (d : ByteBuffer) × (put_values w xs b ≡ done c)
      × IsValid c.base
      × (c.base.pos ≡ b.base.pos + 8 * length xs)
      × Found w c b.base.pos xs
      × (take (b.base.pos * size w) c.base.mem ≡ take (b.base.pos * size w) b.base.mem)
      × ((set_position b.base.pos c.base >>= λ base.
            get_values w (length xs) (record c { base = base }))
          ≡ done (xs, d))
      × (d.base.pos ≡ c.base.pos)
      × ((x : List ℕ)
          → d.base.lim < d.base.pos + size w
          → (get_value w d ≡ abort) × (put_value w x d ≡ abort))
unfolding set_position
get_values-put_values w xs b v f h k =
    let mem1 = stamped w b.order b.base.pos xs b.base.mem in
    let same : length mem1 ≡ length b.base.mem =
      length-stamped w b.order b.base.pos xs b.base.mem in
    let end = b.base.pos + 8 * length xs in
    let c = at_with b end mem1 in
    let back = at_with b b.base.pos mem1 in
    let cv : IsValid c.base =
      at_with-IsValid b end mem1 v (omega (arith, v.mark_le)) (omega arith) same in
    let bv : IsValid back.base = at_with-IsValid b b.base.pos mem1 v v.mark_le (omega arith) same in
    let lies = stamped-Lies w b.order b.base.pos xs b.base.mem f k in
    (
      c,
      c,
      put_values_lem w xs b v f (omega arith) k,
      cv,
      refl,
      Lies-Found w b.base.pos xs c cv f lies (omega arith) (rw same k),
      stamped_before w b.order 0 (b.base.pos * size w) b.base.pos xs b.base.mem (omega arith),
      ground (arith, get_values_lem w xs back bv f lies h (rw same k)),
      refl,
      λ x short. value_stops w x c cv short,
    )
