-- ===== src/SocketOpt/Tests.antt =====
-- The options of src/net/socket_opt_impl.h and the block mode of src/net/socket_base.cpp on a system
-- that stores the structure it is given, and the file status flags in the same place.
use taurus.Shared.{ℕ, ◌/◌, ◌%◌, ◌^◌, ◌≡◌, refl, true, false, not, List, [], ◌∷◌, some, codes, arith}
use taurus.Shared.Int.{ℤ, pos, negsuc}
use taurus.RuntimeError.{RuntimeError, fresh, is_error}
use taurus.Script.{keeper}
use taurus.SocketOpt.{send_timeout, timeval, set_time, get_time, set_block_mode, non_block}
use taurus.SocketOpt.Values.{get_time-set_time, set_block_mode_lem}

-- Minus one and a half seconds
abbrev negative_time : ℤ
negative_time = negsuc 1499

negative_timeval : timeval negative_time ≡ negsuc 0 ∷ negsuc 499999 ∷ []
unfolding timeval
negative_timeval = refl

get_time-set_time_example :
    (set_time keeper send_timeout (pos 3) negative_time (codes "0x1") fresh []
      ≡ (true, fresh, timeval negative_time))
    × (get_time keeper send_timeout (pos 3) fresh (timeval negative_time)
        ≡ (some negative_time, fresh, timeval negative_time))
get_time-set_time_example =
    get_time-set_time keeper send_timeout (pos 3) negative_time (codes "0x1") fresh [] (omega arith)
      (λ q. cc) (λ q. cc) refl

-- O_RDWR, with and without O_NONBLOCK
abbrev blocking : List ℤ
blocking = pos 2 ∷ []

set_block_mode_lem_example :
    ((n : ℕ)
      → pos 2 ≡ negsuc n
      → (e' : RuntimeError) × (set_block_mode keeper false (pos 3) fresh blocking
          ≡ (false, e', blocking))
        × (is_error e' ≡ true))
    × (pos 2 ≡ pos 2
        → non_block 2 ≡ not false
        → set_block_mode keeper false (pos 3) fresh blocking ≡ (true, fresh, blocking))
    × (pos 2 ≡ pos 2
        → non_block 2 ≡ false
        → (wanted : ℕ) × (non_block wanted ≡ not false)
          × (wanted % 2 ^ 11 ≡ 2 % 2 ^ 11)
          × (wanted / 2 ^ 12 ≡ 2 / 2 ^ 12)
          × (((n : ℕ)
                → pos 0 ≡ pos n
                → set_block_mode keeper false (pos 3) fresh blocking
                  ≡ (true, fresh, pos wanted ∷ []))
              × ((n : ℕ)
                  → pos 0 ≡ negsuc n
                  → (e' : RuntimeError) × (set_block_mode keeper false (pos 3) fresh blocking
                      ≡ (false, e', pos wanted ∷ []))
                    × (is_error e' ≡ true))))
set_block_mode_lem_example = set_block_mode_lem keeper false (pos 3) 2 fresh blocking
