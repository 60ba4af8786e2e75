-- ===== src/ByteBuffer/Safety.antt =====
-- That the single-byte operations of `class ByteBuffer` and the operations of `class Buffer`
-- (include/mercury/nio/buffer.h, src/nio/buffer.cpp) stay inside the storage.
use taurus.Shared.{
  ℕ, zero, suc, ◌*◌, ◌≤◌, ◌<◌, ◌≡◌, ◌≢◌, ◌⊎◌, inl, inr, refl, sym, ap, ◌∙◌, List, [], ◌∷◌, length,
  drop, overwrite, length-overwrite, overwrite-nil, arith, Outcome, Outcome-cases, done, abort,
  fault, ◌>>=◌,
}
use taurus.Buffer.{Buffer, size_mod, clear, flip, set_mark, reset, rewind, set_limit, set_position}
use taurus.Buffer.Window.{Move, clearing, flipping, marking, resetting, rewinding, move}
use taurus.ByteBuffer.{ByteBuffer, get, get_at, put, put_at}

-- What a client does to a buffer: the operations that take no argument, the two that set a position, and
-- the reads and writes of one byte
pub data Op : Type 0 where
  moving : Move → Op
  limiting positioning : ℕ → Op
  getting : Op
  getting_at : ℕ → Op
  putting : ℕ → Op
  putting_at : ℕ → ℕ → Op

unfoldable pub perform : Op → ByteBuffer → Outcome ByteBuffer
perform (moving m) b = done (record b { base = move m b.base })
perform (limiting n) b = do base ← set_limit n b.base; done (record b { base = base })
perform (positioning n) b = do base ← set_position n b.base; done (record b { base = base })
perform getting b = do (v, c) ← get b; done c
perform (getting_at idx) b = do v ← get_at idx b; done b
perform (putting ch) b = put ch b
perform (putting_at idx ch) b = put_at idx ch b

unfoldable pub perform_all : List Op → ByteBuffer → Outcome ByteBuffer
unfolding perform
perform_all [] b = done b
perform_all (o ∷ os) b = do c ← perform o b; perform_all os c

-- Position, limit and mark are within the capacity, and so is the capacity within the storage. The order
-- of the three is not asked for.
pub record IsInside (b : Buffer) : Type 0 where
  pub mark_le : b.mark ≤ b.cap
  pub pos_le : b.pos ≤ b.cap
  pub lim_le : b.lim ≤ b.cap
  pub cap_lt : b.cap < size_mod
  pub storage : b.cap ≤ length b.mem

-- `c` is inside the storage that `b` has, and differs there from `b` below the capacity only.
pub record Keeps (b c : Buffer) : Type 0 where
  pub inside : IsInside c
  pub same_addr : c.addr ≡ b.addr
  pub same_cap : c.cap ≡ b.cap
  pub same_rest : drop b.cap c.mem ≡ drop b.cap b.mem

drop-overwrite : (n i x : ℕ) (xs : List ℕ) → i < n → drop n (overwrite xs i (x ∷ [])) ≡ drop n xs
drop-overwrite zero i x xs h = absurd (omega arith)
drop-overwrite (suc n) zero x [] h = refl
drop-overwrite (suc n) zero x (y ∷ xs) h = ap (drop n) (overwrite-nil xs 0)
drop-overwrite (suc n) (suc i) x [] h = refl
drop-overwrite (suc n) (suc i) x (y ∷ xs) h = drop-overwrite n i x xs (omega arith)

module _ (b : ByteBuffer) (v : IsInside b.base) where
  move-Keeps : (m : Move) → Keeps b.base (move m b.base)
  unfolding move clear flip set_mark reset rewind
  move-Keeps clearing = ground arith
  move-Keeps flipping = ground arith
  move-Keeps marking = ground arith
  move-Keeps resetting = ground arith
  move-Keeps rewinding = ground arith

  abbrev Ends : Outcome ByteBuffer → Type 0
  Ends o = ((c : ByteBuffer) × (o ≡ done c) × Keeps b.base c.base) ⊎ (o ≡ abort)

  Ends-cases :
      (o : Outcome ByteBuffer)
      → o ≢ fault
      → ((c : ByteBuffer) → o ≡ done c → Keeps b.base c.base)
      → Ends o
  Ends-cases o safe keeps = elim (Outcome-cases o) [
    | inl stops ↦ inr stops
    | inr (inl strays) ↦ absurd (safe strays)
    | inr (inr (c, ran)) ↦ inl (c, ran, keeps c ran)
  ]

  stored-Keeps :
      (c : Buffer) (i x : ℕ)
      → i < b.base.cap
      → c.mem ≡ overwrite b.base.mem i (x ∷ [])
      → c.addr ≡ b.base.addr
      → c.cap ≡ b.base.cap
      → c.mark ≡ b.base.mark
      → c.lim ≡ b.base.lim
      → c.pos ≤ b.base.cap
      → Keeps b.base c
  stored-Keeps c i x h mem addr cap mark lim pos = record {
    inside = record {
      mark_le = omega (arith, v.mark_le);
      pos_le = omega arith;
      lim_le = omega (arith, v.lim_le);
      cap_lt = omega (arith, v.cap_lt);
      storage = omega (arith, v.storage, ap length mem, length-overwrite b.base.mem i (x ∷ []));
    };
    same_addr = addr;
    same_cap = cap;
    same_rest = ap (drop b.base.cap) mem ∙ drop-overwrite b.base.cap i x b.base.mem h;
  }

  put_at-Ends : (idx ch : ℕ) → Ends (put_at idx ch b)
  unfolding put_at
  put_at-Ends idx ch =
      Ends-cases (put_at idx ch b) (λ strays. ground arith)
        (λ c ran.
          stored-Keeps c.base (idx * 1) ch (ground arith) (ground arith) (ground arith)
            (ground arith) (ground arith) (ground arith) (ground arith))

  put-Ends : (ch : ℕ) → Ends (put ch b)
  unfolding put
  put-Ends ch =
      Ends-cases (put ch b) (λ strays. ground arith)
        (λ c ran.
          stored-Keeps c.base (b.base.pos * 1) ch (ground arith) (ground arith) (ground arith)
            (ground arith) (ground arith) (ground arith) (ground arith))

  get-Ends : Ends (perform getting b)
  unfolding perform get
  get-Ends = Ends-cases (perform getting b) (λ strays. ground arith) (λ c ran. ground arith)

  get_at-Ends : (idx : ℕ) → Ends (perform (getting_at idx) b)
  unfolding perform get_at
  get_at-Ends idx =
      Ends-cases (perform (getting_at idx) b) (λ strays. ground arith) (λ c ran. ground arith)

  set_limit-Ends : (n : ℕ) → Ends (perform (limiting n) b)
  unfolding perform set_limit
  set_limit-Ends n =
      Ends-cases (perform (limiting n) b) (λ strays. ground arith) (λ c ran. ground arith)

  set_position-Ends : (n : ℕ) → Ends (perform (positioning n) b)
  unfolding perform set_position
  set_position-Ends n =
      Ends-cases (perform (positioning n) b) (λ strays. ground arith) (λ c ran. ground arith)

  perform-Ends : (o : Op) → Ends (perform o b)
  unfolding perform
  perform-Ends (moving m) = inl (record b { base = move m b.base }, refl, move-Keeps m)
  perform-Ends (limiting n) = set_limit-Ends n
  perform-Ends (positioning n) = set_position-Ends n
  perform-Ends getting = get-Ends
  perform-Ends (getting_at idx) = get_at-Ends idx
  perform-Ends (putting ch) = put-Ends ch
  perform-Ends (putting_at idx ch) = put_at-Ends idx ch

Keeps-trans : (a b c : Buffer) → Keeps a b → Keeps b c → Keeps a c
Keeps-trans a b c h k = record {
  inside = k.inside;
  same_addr = k.same_addr ∙ h.same_addr;
  same_cap = k.same_cap ∙ h.same_cap;
  same_rest =
      ap (λ n. drop n c.mem) (sym h.same_cap)
      ∙ k.same_rest
      ∙ ap (λ n. drop n b.mem) h.same_cap
      ∙ h.same_rest;
}

-- Any sequence of clear, flip, mark, reset, rewind, limit(n), position(n) and reads and writes of
-- one byte, relative or at an index, with any arguments and in any order, on a buffer whose
-- position, limit and mark are within its capacity, and that within the storage: it either runs
-- through or stops at an assert, and never touches memory outside the storage. Where it runs
-- through, the buffer is again within its bounds, with the same address and capacity, and no byte
-- behind the capacity has changed.
pub perform_all-Keeps :
    (os : List Op) (b : ByteBuffer)
    → IsInside b.base
    → ((c : ByteBuffer) × (perform_all os b ≡ done c) × Keeps b.base c.base)
      ⊎ (perform_all os b ≡ abort)
unfolding perform_all
perform_all-Keeps [] b v =
    inl (b, refl, record { inside = v; same_addr = refl; same_cap = refl; same_rest = refl })
perform_all-Keeps (o ∷ os) b v = elim (perform-Ends b v o) [
  | inr stops ↦ inr (rw stops refl)
  | inl (c, ran, k) ↦ rw ran (elim (perform_all-Keeps os c k.inside) [
    | inr stops ↦ inr stops
    | inl (d, rest, l) ↦ inl (d, rest, Keeps-trans b.base c.base d.base k l)
  ])
]
