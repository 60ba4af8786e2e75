-- ===== src/EchoServer.antt =====
-- src/tools/echoserver/echo_server.cpp: its main(), with the destructors of its objects.
pub mod Exits
pub mod Descriptors
mod Tests
use taurus.Shared.{[], if◌then◌else◌, Text, ◌++◌, Outcome, done, ◌>>=◌}
use taurus.Shared.Int.{ℤ, pos}
use taurus.RuntimeError.{RuntimeError, fresh, str, newline}
use taurus.Kernel.{Platform, af_inet, minus_one}
use taurus.Channel
use taurus.Channel.{Channel, new_channel}
use taurus.Selector.{SelectorImpl, new_selector, open_selector, close_selector}

module _ {S K : Type 0} (p : Platform K) (i : SelectorImpl S K) where
  -- What follows once there is a server socket: the exit code, what is written to cerr, and the system
  -- afterwards
  unfoldable pub run : Channel → RuntimeError → K → ℤ × Text × K
  run server e k =
      let (isok, selector, e2, k2) = open_selector i new_selector e k in
      let (gone, selector', e3, k3) = close_selector i selector e2 k2 in
      let (shut, server', e4, k4) = Channel.close p server e3 k3 in
      if isok
      then (pos 0, [], Channel.destroy p server' k4)
      else (minus_one, str e2 ++ newline, Channel.destroy p server k2)

  unfoldable pub main_ : K → Outcome (ℤ × Text × K)
  unfolding run
  main_ k = do
    (isok, server, e, k') ← Channel.create p af_inet new_channel fresh k
    if isok
        then done (run server e k')
        else done (minus_one, str e ++ newline, Channel.destroy p server k')
