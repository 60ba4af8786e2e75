-- ===== src/EchoServer/Descriptors.antt =====
-- That main() of src/tools/echoserver/echo_server.cpp gives its descriptor back.
use taurus.Shared.{
  ℕ, ◌≡◌, ◌≢◌, refl, ◌∙◌, ◌⊎◌, inl, inr, Bool-cases, false, List, ◌∷◌, Text, done, arith,
}
use taurus.Shared.Int.{ℤ, pos, eq_ℤ-true, eq_ℤ-false}
use taurus.RuntimeError.{RuntimeError, fresh}
use taurus.Kernel.{Platform, af_inet, minus_one, sock_stream, sys_socket, sys_close}
use taurus.Socket.Descriptors.{with_table}
use taurus.Selector.{SelectorImpl}
use taurus.EchoServer.{main_}
use taurus.EchoServer.Exits.{main_lem}

-- A selector whose new object is not open, and whose operations do not touch the table
pub record KeepsTable {S K : Type 0} (i : SelectorImpl S (K × List ℤ)) : Type 0 where
  pub starts_closed : i.is_open i.new_impl ≡ false
  pub opening_keeps : (s : S) (e : RuntimeError) (u : K × List ℤ) → (i.open_impl s e u).3.1 ≡ u.1
  pub closing_keeps : (s : S) (e : RuntimeError) (u : K × List ℤ) → (i.close_impl s e u).3.1 ≡ u.1

closed-table :
    {K : Type 0} (p : Platform K) (n : ℕ) (u : K × List ℤ) (rest : List ℤ)
    → (p.syscall (sys_close (pos n)) (u.0)).0.ret ≢ minus_one
    → u.1 ≡ pos n ∷ rest
    → ((with_table p).syscall (sys_close (pos n)) u).1.1 ≡ rest
closed-table p n u rest works is =
    ground (arith, is, eq_ℤ-false _ _ works, eq_ℤ-true (pos n) (pos n) refl)

-- main() on a system whose close does not fail and whose socket gives -1 or a descriptor, with a selector
-- that starts closed and whose operations leave the table of open descriptors alone: it always comes
-- to its end, whether there is a socket and whether the selector opens or not, and the open
-- descriptors are then those from before.
pub main_returns_descriptors :
    {S K : Type 0} (p : Platform K) (i : SelectorImpl S (K × List ℤ)) (k : K) (rest : List ℤ)
    → KeepsTable i
    → ((fd : ℤ) (k : K) → (p.syscall (sys_close fd) k).0.ret ≢ minus_one)
    → ((p.syscall (sys_socket af_inet sock_stream) k).0.ret ≡ minus_one)
      ⊎ ((n : ℕ) × ((p.syscall (sys_socket af_inet sock_stream) k).0.ret ≡ pos n))
    → (code : ℤ) × (text : Text) × (u : K × List ℤ) × (main_ (with_table p) i (k, rest)
        ≡ done (code, text, u))
      × (u.1 ≡ rest)
main_returns_descriptors p i k rest keeps works (inl none_) =
    let (without, failing, through) = main_lem (with_table p) i (k, rest) 0 keeps.starts_closed in
    (_, _, _, without none_, rw (eq_ℤ-true _ _ none_) refl)
main_returns_descriptors {K = K} p i k rest keeps works (inr (n, made)) =
    let (without, failing, through) = main_lem (with_table p) i (k, rest) n keeps.starts_closed in
    let u1 : K × List ℤ = ((with_table p).syscall (sys_socket af_inet sock_stream) (k, rest)).1 in
    let added : u1.1 ≡ pos n ∷ rest = rw made refl in
    let (opened_, s2, e2, u2) = i.open_impl i.new_impl fresh u1 in
    let (gone_, s3, e3, u3) = i.close_impl s2 e2 u2 in
    let after : u2.1 ≡ pos n ∷ rest = keeps.opening_keeps i.new_impl fresh u1 ∙ added in
    elim (Bool-cases opened_) [
      | inl opens ↦ (
        _,
        _,
        _,
        (through made opens).0 (works (pos n) (u3.0)),
        closed-table p n u3 rest (works (pos n) (u3.0)) (keeps.closing_keeps s2 e2 u2 ∙ after),
      )
      | inr fails ↦
          (_, _, _, failing made fails, closed-table p n u2 rest (works (pos n) (u2.0)) after)
    ]
