-- ===== src/RuntimeError/Frames.antt =====
-- The frames that `class RuntimeError` (include/mercury/error.h) collects, and their print.
use taurus.Shared.{
  ◌≡◌, refl, sym, ap, ◌∙◌, ◌≢◌, true, false, List, [], ◌∷◌, ◌++◌, append_assoc, append-nil, Option,
  none, some, Text, codes,
}
use taurus.Shared.Int.{ℤ}
use taurus.RuntimeError.{
  RuntimeError, Leftover, fresh, move, assign, move_assign, is_error, set, push, merge, clear,
  newline, print_frames, print_head, str, printstack,
}

-- What a client can do to an error object. The other object of an assignment or merge is its own
-- operand.
pub data Step : Type 0 where
  setting : ℤ → Text → Option Text → Step
  pushing : Text → Step
  merging : Leftover → RuntimeError → Step
  clearing : Step
  assigning : RuntimeError → Step
  moving : Leftover → RuntimeError → Step
  moved_from : Leftover → Step

pub step : Step → RuntimeError → RuntimeError
step (setting c m h) e = set c m h e
step (pushing t) e = push t e
step (merging l o) e = (merge l e o).0
step clearing e = clear e
step (assigning o) e = assign false e o
step (moving l o) e = (move_assign false l e o).0
step (moved_from l) e = (move l e).1

-- An object that reports an error has a frame that says which.
abbrev pub IsTraced : RuntimeError → Type 0
IsTraced e = is_error e ≡ true → e.stack ≢ []

abbrev OperandIsTraced : Step → Type 0
OperandIsTraced (merging l o) = IsTraced o
OperandIsTraced (assigning o) = IsTraced o
OperandIsTraced (moving l o) = IsTraced o
OperandIsTraced _ = Unit {0}

append-cons-ne : (xs : List Text) (y : Text) (ys : List Text) → xs ++ y ∷ ys ≢ []
append-cons-ne [] y ys h = cc
append-cons-ne (x ∷ xs) y ys h = cc

append-ne : (xs ys : List Text) → xs ≢ [] → xs ++ ys ≢ []
append-ne [] ys n h = absurd (n refl)
append-ne (x ∷ xs) ys n h = cc

-- Every step of a client (set, push, merge, clear, copying and moving in, being moved from) leaves
-- an object that reports an error with at least one frame, if its operand and itself did before.
pub step-IsTraced :
    (s : Step) (e : RuntimeError) → OperandIsTraced s → IsTraced e → IsTraced (step s e)
unfolding step is_error set push merge clear assign move_assign move
step-IsTraced (setting c m t) e ho h = λ err. append-cons-ne e.stack _ []
step-IsTraced (pushing t) e ho h = λ err. append-cons-ne e.stack t []
step-IsTraced (merging l o) e ho h = λ err. append-ne o.stack e.stack (ho err)
step-IsTraced clearing e ho h = λ err. cc
step-IsTraced (assigning o) e ho h = ho
step-IsTraced (moving l o) e ho h = ho
step-IsTraced (moved_from l) e ho h = λ err. cc

-- Any sequence of steps from a fresh object, with operands that are traced, ends in a traced one.
pub steps : List Step → RuntimeError → RuntimeError
steps [] e = e
steps (s ∷ ss) e = steps ss (step s e)

abbrev pub OperandsAreTraced : List Step → Type 0
OperandsAreTraced [] = Unit
OperandsAreTraced (s ∷ ss) = OperandIsTraced s × OperandsAreTraced ss

steps_from :
    (ss : List Step) (e : RuntimeError) → OperandsAreTraced ss → IsTraced e → IsTraced (steps ss e)
unfolding steps
steps_from [] e ho h = h
steps_from (s ∷ ss) e ho h = steps_from ss (step s e) ho.1 (step-IsTraced s e ho.0 h)

-- After any sequence of set, push, merge, clear, copying and moving, started from a new object and
-- with operands of which the same holds, an object that reports an error has at least one frame.
pub steps-IsTraced : (ss : List Step) → OperandsAreTraced ss → IsTraced (steps ss fresh)
unfolding is_error
steps-IsTraced ss ho = steps_from ss fresh ho (λ err. cc)

-- set() without a hint keeps the hint of the set() before it: the new frame is blamed on that
-- operation, whatever happened between, unless the earlier hint was empty.
pub set_keeps_hint :
    (c d : ℤ) (m n h : Text) (e : RuntimeError)
    → h ≢ []
    → (set d n none (set c m (some h) e)).stack
      ≡ e.stack ++ (h ++ codes ": " ++ m) ∷ (h ++ codes ": " ++ n) ∷ []
unfolding set
set_keeps_hint c d m n [] e ne = absurd (ne refl)
set_keeps_hint c d m n (x ∷ h) e ne = append_assoc e.stack _ _

abbrev line : Text → Text
line f = codes "  > " ++ f ++ newline

abbrev pub lines : List Text → Text
lines [] = []
lines (f ∷ fs) = line f ++ lines fs

print_frames-lines : (os : Text) (fs : List Text) → print_frames os fs ≡ os ++ lines fs
unfolding print_frames
print_frames-lines os [] = sym (append-nil os)
print_frames-lines os (f ∷ fs) =
    print_frames-lines (os ++ codes "  > " ++ f ++ newline) fs ∙ simp append_assoc

lines-append : (fs gs : List Text) → lines (fs ++ gs) ≡ lines fs ++ lines gs
lines-append [] gs = refl
lines-append (f ∷ fs) gs = simp (lines-append fs gs, append_assoc)

-- printstack() writes what str() returns, behind what the stream held.
pub printstack-str : (os : Text) (e : RuntimeError) → printstack os e ≡ os ++ str e
unfolding printstack str
printstack-str os e =
    print_frames-lines (print_head os e) e.stack
    ∙ (simp append_assoc)
    ∙ ap (◌++◌ os) (sym (print_frames-lines (print_head [] e) e.stack))

-- The report of a merged error has the code and the message of the error that was merged in, then
-- its frames, then those that were there before; nothing of either stack is lost.
pub str-merge :
    (l : Leftover) (self other : RuntimeError)
    → str (merge l self other).0 ≡ print_head [] other ++ (lines other.stack ++ lines self.stack)
unfolding str merge
str-merge l self other =
    print_frames-lines (print_head [] other) (other.stack ++ self.stack)
    ∙ simp (lines-append, append_assoc)
