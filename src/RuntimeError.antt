-- ===== src/RuntimeError.antt =====
-- `class RuntimeError` of include/mercury/error.h. Texts are lists of bytes. What `std::move` leaves
-- in a moved-from string or list is not specified: it is an argument, `Leftover`.
pub mod Frames
mod Tests
use taurus.Shared.{
  ℕ, Bool, true, false, not, List, [], ◌∷◌, ◌++◌, if◌then◌else◌, Option, none, some, Text, codes,
}
use taurus.Shared.Int.{ℤ, pos, eq_ℤ, show_int}

pub record RuntimeError : Type 0 where
  pub code : ℤ
  pub message : Text
  pub hint : Text
  pub stack : List Text

pub record Leftover : Type 0 where
  pub message : Text
  pub hint : Text
  pub stack : List Text

abbrev pub is_empty {ℓ} : {A : Type ℓ} → List A → Bool
is_empty [] = true
is_empty (x ∷ xs) = false

-- RuntimeError()
abbrev pub fresh : RuntimeError
fresh = record { code = pos 0; message = []; hint = []; stack = [] }

-- ~RuntimeError()
unfoldable pub destroy : RuntimeError → RuntimeError
destroy e = record e { code = pos 0 }

-- RuntimeError(const RuntimeError &)
unfoldable pub copy : RuntimeError → RuntimeError
copy e = record { code = e.code; message = e.message; hint = e.hint; stack = e.stack }

-- RuntimeError(RuntimeError &&): the new object, and what is left of the old one
unfoldable pub move : Leftover → RuntimeError → RuntimeError × RuntimeError
move l e = (
  record { code = e.code; message = e.message; hint = e.hint; stack = e.stack },
  record { code = pos 0; message = l.message; hint = l.hint; stack = l.stack },
)

-- operator=(const RuntimeError &); `same` says whether both are one object
unfoldable pub assign : Bool → RuntimeError → RuntimeError → RuntimeError
assign same self e =
    if same
    then self
    else record { code = e.code; message = e.message; hint = e.hint; stack = e.stack }

-- operator=(RuntimeError &&)
unfoldable pub move_assign :
    Bool → Leftover → RuntimeError → RuntimeError → RuntimeError × RuntimeError
move_assign same l self e = if same then (self, self) else (
  record { code = e.code; message = e.message; hint = e.hint; stack = e.stack },
  record { code = pos 0; message = l.message; hint = l.hint; stack = l.stack },
)

-- operator bool
unfoldable pub is_error : RuntimeError → Bool
is_error e = not (eq_ℤ e.code (pos 0))

-- operator !
unfoldable pub is_fine : RuntimeError → Bool
is_fine e = eq_ℤ e.code (pos 0)

-- if ( hint ) m_hint.assign(hint);
abbrev pub new_hint : Option Text → Text → Text
new_hint none old = old
new_hint (some h) old = h

-- What set() pushes: the hint in front of the message, if there is a hint.
abbrev pub frame : Text → Text → Text
frame h msg = if is_empty h then msg else h ++ codes ": " ++ msg

-- set(code, message, hint); `none` is a null hint
unfoldable pub set : ℤ → Text → Option Text → RuntimeError → RuntimeError
set code message hint e =
    let h = new_hint hint e.hint in
    record { code = code; message = message; hint = h; stack = e.stack ++ frame h message ∷ [] }

unfoldable pub push : Text → RuntimeError → RuntimeError
push info e = record e { stack = e.stack ++ info ∷ [] }

-- merge(errinfo): this object, and what is left of `errinfo`, whose frames were spliced away
unfoldable pub merge : Leftover → RuntimeError → RuntimeError → RuntimeError × RuntimeError
merge l self other = (
  record {
    code = other.code;
    message = other.message;
    hint = other.hint;
    stack = other.stack ++ self.stack;
  },
  record { code = pos 0; message = l.message; hint = l.hint; stack = [] },
)

unfoldable pub clear : RuntimeError → RuntimeError
clear e = record { code = pos 0; message = []; hint = []; stack = [] }

abbrev pub newline : Text
newline = 10 ∷ []

-- The loop over the frames, on the stream so far.
unfoldable pub print_frames : Text → List Text → Text
print_frames os [] = os
print_frames os (f ∷ fs) = print_frames (os ++ codes "  > " ++ f ++ newline) fs

abbrev pub print_head : Text → RuntimeError → Text
print_head os e =
    os
    ++ codes "error code: "
    ++ show_int e.code
    ++ codes ", message: "
    ++ e.message
    ++ newline
    ++ codes "stack: "
    ++ newline

unfoldable pub str : RuntimeError → Text
unfolding print_frames
str e = print_frames (print_head [] e) e.stack

-- printstack(os): the stream afterwards
unfoldable pub printstack : Text → RuntimeError → Text
unfolding print_frames
printstack os e = print_frames (print_head os e) e.stack
