-- ===== src/ByteBuffer/Chars.antt =====
-- The single bytes of `class ByteBuffer` (src/nio/buffer.cpp): put and get.
use taurus.Shared.{
  ℕ, zero, suc, ◌+◌, ◌≤◌, ◌<◌, ◌≡◌, ◌∙◌, ap, List, [], ◌∷◌, length, get_or, take, drop, overwrite,
  length-overwrite, take-drop-overwrite, overwrite-nil, overwrite-cons, take-suc-drop, arith,
  Outcome, done, abort, ◌>>=◌,
}
use taurus.Buffer.{clear, flip}
use taurus.Buffer.Window.{IsValid}
use taurus.ByteBuffer.{ByteBuffer, get, put}

-- A client that writes bytes one after the other, and one that reads `n` of them.
pub put_all : List ℕ → ByteBuffer → Outcome ByteBuffer
put_all [] b = done b
put_all (x ∷ xs) b = put x b >>= put_all xs

pub get_all : ℕ → ByteBuffer → Outcome (List ℕ × ByteBuffer)
get_all zero b = done ([], b)
get_all (suc n) b = do (x, c) ← get b; (xs, d) ← get_all n c; done (x ∷ xs, d)

-- The state after `n` bytes at the position.
abbrev pub moved : ByteBuffer → ℕ → List ℕ → ByteBuffer
moved b n mem = record b { base = record b.base { pos = b.base.pos + n; mem = mem } }

-- put(ch) on a valid buffer stores the byte at the position and moves on by one if the position is
-- below the limit, and stops at its assert if it is not.
pub put_lem :
    (x : ℕ) (b : ByteBuffer)
    → IsValid b.base
    → (b.base.pos < b.base.lim
        → put x b ≡ done (moved b 1 (overwrite b.base.mem b.base.pos (x ∷ []))))
      × (b.base.lim ≤ b.base.pos → put x b ≡ abort)
unfolding put
put_lem x b v = (λ h. ground arith, λ h. ground arith)

-- get() on a valid buffer returns the byte at the position and moves on by one if the position is
-- below the limit, and stops at its assert if it is not.
pub get_lem :
    (b : ByteBuffer)
    → IsValid b.base
    → (b.base.pos < b.base.lim
        → get b ≡ done (get_or (take 1 (drop b.base.pos b.base.mem)) 0 0, moved b 1 b.base.mem))
      × (b.base.lim ≤ b.base.pos → get b ≡ abort)
unfolding get
get_lem b v = (λ h. ground arith, λ h. ground arith)

put_all_lem :
    (xs : List ℕ) (b : ByteBuffer)
    → IsValid b.base
    → b.base.pos + length xs ≤ b.base.lim
    → put_all xs b ≡ done (moved b (length xs) (overwrite b.base.mem b.base.pos xs))
unfolding put_all
put_all_lem [] b v h = ground (arith, overwrite-nil b.base.mem b.base.pos)
put_all_lem (x ∷ xs) b v h = rw ((put_lem x b v).0 (omega arith)) (
    ground (
      arith,
      put_all_lem xs (moved b 1 (overwrite b.base.mem b.base.pos (x ∷ []))),
      overwrite-cons b.base.mem b.base.pos x xs,
      length-overwrite b.base.mem b.base.pos (x ∷ []),
    ))

get_all_lem :
    (n : ℕ) (b : ByteBuffer)
    → IsValid b.base
    → b.base.pos + n ≤ b.base.lim
    → get_all n b ≡ done (take n (drop b.base.pos b.base.mem), moved b n b.base.mem)
unfolding get_all
get_all_lem zero b v h = ground arith
get_all_lem (suc n) b v h =
    rw ((get_lem b v).0 (omega arith)) (
      ground (arith, get_all_lem n (moved b 1 b.base.mem), take-suc-drop b.base.mem b.base.pos n 0))

abbrev pub cleared : ByteBuffer → ByteBuffer
cleared b = record b { base = clear b.base }

abbrev pub flipped : ByteBuffer → ByteBuffer
flipped b = record b { base = flip b.base }

-- Whatever is put, byte by byte, into a cleared valid buffer that has room for it is what comes
-- out, in order, after flip(); the next get() then stops at its assert, and the buffer is valid.
pub put_all-flip-get_all :
    (xs : List ℕ) (b : ByteBuffer)
    → IsValid b.base
    → length xs ≤ b.base.cap
    → (c : ByteBuffer) × (d : ByteBuffer) × (put_all xs (cleared b) ≡ done c)
      × (get_all (length xs) (flipped c) ≡ done (xs, d))
      × (get d ≡ abort)
      × IsValid d.base
unfolding clear flip
put_all-flip-get_all xs b v h = (
  c,
  d,
  put_all_lem xs (cleared b) (omega arith) (omega arith),
  get_all_lem (length xs) (flipped c) (ground (arith, length-overwrite b.base.mem 0 xs))
        (omega arith)
      ∙ ap (λ l. done (l, d)) (take-drop-overwrite b.base.mem 0 xs (omega arith)),
  (get_lem d dv).1 (omega arith),
  dv,
)
  where
    c : ByteBuffer
    c = moved (cleared b) (length xs) (overwrite b.base.mem 0 xs)

    d : ByteBuffer
    d = moved (flipped c) (length xs) c.base.mem

    dv : IsValid d.base
    dv = ground (arith, length-overwrite b.base.mem 0 xs)
