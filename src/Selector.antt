-- ===== src/Selector.antt =====
-- `class Selector` of include/mercury/nio/selector.h and src/nio/server_socket_channel.cpp. Its
-- implementation class is declared there and defined nowhere: it is an argument.
use taurus.Shared.{ℕ, Bool, true, not, if◌then◌else◌, Option, none, some}
use taurus.RuntimeError.{RuntimeError}

-- Selector::SelectorImpl, with a new object of it; K is the state of the system.
pub record SelectorImpl (S K : Type 0) : Type 0 where
  pub new_impl : S
  pub open_impl : S → RuntimeError → K → Bool × S × RuntimeError × K
  pub close_impl : S → RuntimeError → K → Bool × S × RuntimeError × K
  pub is_open : S → Bool

pub record Selector (S : Type 0) : Type 0 where
  pub impl : Option S

-- SelectionKey::OpAccept, OpConnect, OpRead, OpWrite
abbrev pub op_accept : ℕ
op_accept = 1

abbrev pub op_connect : ℕ
op_connect = 2

abbrev pub op_read : ℕ
op_read = 4

abbrev pub op_write : ℕ
op_write = 8

module _ {S : Type 0} where
  -- Selector() and ~Selector()
  unfoldable pub new_selector : Selector S
  new_selector = record { impl = none }

  unfoldable pub destroy : Selector S → Selector S
  destroy s = record { impl = none }

  module _ {K : Type 0} (i : SelectorImpl S K) where
    unfoldable pub impl_or_new : Option S → S
    impl_or_new none = i.new_impl
    impl_or_new (some s) = s

    unfoldable pub open_selector :
        Selector S → RuntimeError → K → Bool × Selector S × RuntimeError × K
    unfolding impl_or_new
    open_selector s e k =
        let t = impl_or_new s.impl in
        let (isok, t', e', k') = i.open_impl t e k in
        if not (i.is_open t)
        then (isok, record { impl = some t' }, e', k')
        else (true, record { impl = some t }, e, k)

    unfoldable pub close_selector :
        Selector S → RuntimeError → K → Bool × Selector S × RuntimeError × K
    close_selector s e k = elim s.impl [
      | none ↦ (true, s, e, k)
      | some t ↦
          let (isok, t', e', k') = i.close_impl t e k in (isok, record { impl = some t' }, e', k')
    ]
