-- ===== src/Channel/Tests.antt =====
-- A channel on a system that closes sockets and makes new ones.
use taurus.Shared.{◌≡◌, ◌≢◌, refl, true, false, [], done, abort}
use taurus.Shared.Int.{pos}
use taurus.RuntimeError.{RuntimeError, fresh, is_error}
use taurus.Kernel.{minus_one}
use taurus.Socket.{Sock, new_sock, opened}
use taurus.Script.{keeper}
use taurus.Channel.{create, close}
use taurus.Channel.Life.{channel, gone, remade, close-create}
use taurus.Facade.{is_closed}

abbrev listening : Sock
listening = record new_sock { fd = pos 3; state = opened }

listening_open : is_closed listening ≡ false
unfolding is_closed
listening_open = refl

close-create_example :
    (create keeper (pos 2) (channel listening) fresh [] ≡ abort)
    × (pos 0 ≢ minus_one
        → (close keeper (channel listening) fresh [] ≡ (true, channel (gone listening), fresh, []))
          × (pos 5 ≢ minus_one
              → create keeper (pos 2) (channel (gone listening)) fresh []
                ≡ done (true, channel (remade (pos 5) (pos 2) listening), fresh, [])))
    × (pos 0 ≡ minus_one
        → (e' : RuntimeError) × (s' : Sock) × (close keeper (channel listening) fresh []
            ≡ (false, channel s', e', []))
          × (is_error e' ≡ true)
          × (s'.fd ≡ pos 3)
          × (close keeper (channel s') e' [] ≡ (true, channel s', e', []))
          × (create keeper (pos 2) (channel s') e' [] ≡ abort))
close-create_example = close-create keeper listening (pos 2) fresh [] refl listening_open
