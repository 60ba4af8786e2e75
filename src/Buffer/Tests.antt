-- ===== src/Buffer/Tests.antt =====
-- `class Buffer` of include/mercury/nio/buffer.h on a concrete window.
use taurus.Shared.{◌≡◌, refl, [], ◌∷◌}
use taurus.Buffer.{Buffer, flip, remaining}

abbrev sample : Buffer
sample = record { addr = 1000; cap = 4; pos = 2; lim = 3; mark = 1; mem = 7 ∷ 8 ∷ 9 ∷ 10 ∷ 11 ∷ [] }

flipped_window : remaining (flip sample) ≡ 2
unfolding remaining flip
flipped_window = refl
