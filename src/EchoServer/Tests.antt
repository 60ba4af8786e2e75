-- ===== src/EchoServer/Tests.antt =====
-- main() of src/tools/echoserver/echo_server.cpp with a selector that opens, on a system that gives every
-- socket the descriptor 5.
use taurus.Shared.{◌≡◌, refl, Bool, true, false, List, [], ◌∷◌, inr, Text, done, arith}
use taurus.Shared.Int.{ℤ, pos}
use taurus.Script.{keeper}
use taurus.Selector.{SelectorImpl}
use taurus.EchoServer.{main_}
use taurus.Socket.Descriptors.{with_table}
use taurus.EchoServer.Descriptors.{KeepsTable, main_returns_descriptors}

-- Whether it is open
abbrev flag_impl : {K : Type 0} → SelectorImpl Bool K
flag_impl = record {
  new_impl = false;
  open_impl = λ s e k. (true, true, e, k);
  close_impl = λ s e k. (true, false, e, k);
  is_open = λ s. s;
}

flag_impl-KeepsTable : KeepsTable {S = Bool} {K = List ℤ} flag_impl
flag_impl-KeepsTable = record {
  starts_closed = refl;
  opening_keeps = λ s e u. refl;
  closing_keeps = λ s e u. refl;
}

main_returns_descriptors_example :
    (code : ℤ) × (text : Text) × (u : List ℤ × List ℤ) × (main_
        (with_table keeper)
        flag_impl
        ([], pos 7 ∷ [])
      ≡ done (code, text, u))
    × (u.1 ≡ pos 7 ∷ [])
main_returns_descriptors_example =
    main_returns_descriptors keeper flag_impl [] (pos 7 ∷ []) flag_impl-KeepsTable
      (λ fd k. ground arith) (inr (5, refl))
