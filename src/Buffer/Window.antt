-- ===== src/Buffer/Window.antt =====
-- The positions of `class Buffer` (include/mercury/nio/buffer.h): the order that they should keep,
-- which operations keep it, and what goes wrong without it.
use taurus.Shared.{ℕ, ◌+◌, ◌-◌, ◌≤◌, ◌<◌, ◌≡◌, List, length, arith, done, abort}
use taurus.Buffer.{
  Buffer, size_mod, wrap, clear, flip, set_limit, set_mark, set_position, remaining, reset, rewind,
}

-- mark ≤ position ≤ limit ≤ capacity, over storage of that many bytes at least.
pub record IsValid (b : Buffer) : Type 0 where
  pub mark_le : b.mark ≤ b.pos
  pub pos_le : b.pos ≤ b.lim
  pub lim_le : b.lim ≤ b.cap
  pub cap_lt : b.cap < size_mod
  pub storage : b.cap ≤ length b.mem

-- The operations without an argument that can fail.
pub data Move : Type 0 where
  clearing flipping marking resetting rewinding : Move

unfoldable pub move : Move → Buffer → Buffer
move clearing = clear
move flipping = flip
move marking = set_mark
move resetting = reset
move rewinding = rewind

-- The constructor over enough storage gives a valid buffer that is open in whole.
pub wrap-IsValid :
    (addr cap : ℕ) (mem : List ℕ)
    → cap < size_mod
    → cap ≤ length mem
    → IsValid (wrap addr mem cap) × (remaining (wrap addr mem cap) ≡ cap)
unfolding wrap remaining
wrap-IsValid addr cap mem h k = (omega arith, omega arith)

-- clear, flip, mark, reset and rewind keep a valid buffer valid, and touch neither its storage nor
-- its capacity.
pub move-IsValid :
    (m : Move) (b : Buffer)
    → IsValid b
    → IsValid (move m b) × ((move m b).mem ≡ b.mem) × ((move m b).cap ≡ b.cap)
unfolding move clear flip set_mark reset rewind
move-IsValid clearing b v = ground arith
move-IsValid flipping b v = ground arith
move-IsValid marking b v = ground arith
move-IsValid resetting b v = ground arith
move-IsValid rewinding b v = ground arith

-- On a valid buffer remaining() does not wrap: with the position it makes up the limit.
pub remaining-add-pos : (b : Buffer) → IsValid b → remaining b + b.pos ≡ b.lim
unfolding remaining
remaining-add-pos b v = omega arith

-- limit(newlim) returns exactly when newlim ≤ capacity; the buffer stays valid exactly when the
-- position does not lie beyond the new limit.
pub set_limit_lem :
    (n : ℕ) (b : Buffer)
    → IsValid b
    → (n ≤ b.cap → set_limit n b ≡ done (record b { lim = n }))
      × (b.cap < n → set_limit n b ≡ abort)
      × (b.pos ≤ n → n ≤ b.cap → IsValid (record b { lim = n }))
unfolding set_limit
set_limit_lem n b v = (λ h. ground arith, λ h. ground arith, λ h k. ground arith)

-- limit(newlim) with a limit below the position is accepted, and remaining() then wraps: it is the
-- whole address space less the overshoot, so that no later bounds check of a read can fail.
pub set_limit-remaining_wraps :
    (n : ℕ) (b : Buffer)
    → IsValid b
    → n < b.pos
    → (c : Buffer) × (set_limit n b ≡ done c) × (remaining c + (b.pos - n) ≡ size_mod)
unfolding set_limit remaining
set_limit-remaining_wraps n b v h = (record b { lim = n }, ground arith, omega arith)

-- position(newpos) returns exactly below the limit. It can leave the mark behind the position only
-- if the mark was not beyond it.
pub set_position_lem :
    (n : ℕ) (b : Buffer)
    → IsValid b
    → (n < b.lim → set_position n b ≡ done (record b { pos = n }))
      × (b.lim ≤ n → set_position n b ≡ abort)
      × (b.mark ≤ n → n < b.lim → IsValid (record b { pos = n }))
unfolding set_position
set_position_lem n b v = (λ h. ground arith, λ h. ground arith, λ h k. ground arith)
