-- ===== src/RuntimeError/Tests.antt =====
-- `class RuntimeError` of include/mercury/error.h on concrete objects.
use taurus.Shared.{◌≡◌, refl, [], ◌∷◌, ◌++◌, none, codes, digits, digits_from}
use taurus.Shared.Int.{pos, negsuc, show_int}
use taurus.RuntimeError.{RuntimeError, Leftover, fresh, str, print_frames}
use taurus.RuntimeError.Frames.{setting, clearing, merging, steps, IsTraced, steps-IsTraced}

abbrev nothing : Leftover
nothing = record { message = []; hint = []; stack = [] }

abbrev broken : RuntimeError
broken = record { code = pos 5; message = codes "no"; hint = codes "f"; stack = codes "f: no" ∷ [] }

broken-IsTraced : IsTraced broken
broken-IsTraced h e = cc

steps-IsTraced_example :
    IsTraced
      (steps (setting (negsuc 0) (codes "bad") none ∷ clearing ∷ merging nothing broken ∷ []) fresh)
steps-IsTraced_example =
    steps-IsTraced (setting (negsuc 0) (codes "bad") none ∷ clearing ∷ merging nothing broken ∷ [])
      (tt, (tt, (broken-IsTraced, tt)))

broken_text :
    str broken
    ≡ codes "error code: 5, message: no"
      ++ (10 ∷ [])
      ++ codes "stack: "
      ++ (10 ∷ [])
      ++ codes "  > f: no"
      ++ (10 ∷ [])
unfolding str print_frames digits digits_from show_int
broken_text = refl
