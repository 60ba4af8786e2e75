-- ===== src/EchoServer/Exits.antt =====
-- How main() of src/tools/echoserver/echo_server.cpp ends.
use taurus.Shared.{
  ℕ, not, Bool-cases, inl, inr, ◌≡◌, ◌≢◌, refl, ap, ◌∙◌, true, false, [], ◌++◌, done,
}
use taurus.Shared.Int.{pos, eq_ℤ, eq_ℤ-true}
use taurus.RuntimeError.{fresh, str, newline}
use taurus.Kernel.{Platform, af_inet, minus_one, sock_stream, sys_socket, sys_close}
use taurus.Socket
use taurus.Socket.{new_sock, Sock, is_open, created, closed, create_error}
use taurus.Facade.{create_stream, destroy_base, is_closed}
use taurus.Channel
use taurus.Channel.{new_channel, made}
use taurus.Selector.{SelectorImpl, new_selector, open_selector, close_selector, impl_or_new}
use taurus.EchoServer.{run, main_}
use taurus.Channel.Life.{channel, gone, close-create}

destroy-sys_close :
    {K : Type 0} (p : Platform K) (s : Sock) (k : K)
    → is_open s ≡ true
    → Socket.destroy p s k ≡ (p.syscall (sys_close s.fd) k).1
unfolding Socket.destroy Socket.close
destroy-sys_close p s k h =
    elim (Bool-cases (eq_ℤ (p.syscall (sys_close s.fd) k).0.ret minus_one)) [
      | inl fails ↦ rw (Socket.destroy, Socket.close, h, fails) refl
      | inr works ↦ rw (Socket.destroy, Socket.close, h, works) refl
    ]

module _ {S K : Type 0} (p : Platform K) (i : SelectorImpl S K) where
  main_without_socket :
      (k : K)
      → let (r, k1) = p.syscall (sys_socket af_inet sock_stream) k in
        r.ret ≡ minus_one
        → main_ p i k
          ≡ done (minus_one, str (create_error af_inet sock_stream fresh) ++ newline, k1)
  unfolding main_ Channel.create Channel.destroy create_stream destroy_base Socket.create
      Socket.destroy new_channel made is_closed
  main_without_socket k h = rw (eq_ℤ-true _ _ h) refl

  -- The server socket that create() makes
  abbrev pub server : ℕ → Sock
  server n = record new_sock {
    fd = pos n;
    state = created;
    domain = af_inet;
    socktype = sock_stream;
  }

  main-run :
      (k : K) (n : ℕ)
      → let (r, k1) = p.syscall (sys_socket af_inet sock_stream) k in
        r.ret ≡ pos n → main_ p i k ≡ done (run p i (channel (server n)) fresh k1)
  unfolding main_ Channel.create create_stream Socket.create new_channel made is_closed
  main-run k n h = rw (h, run) refl

  run_without_selector :
      (k : K) (n : ℕ)
      → let (opened_, t, e2, k2) = i.open_impl i.new_impl fresh k in
        i.is_open i.new_impl ≡ false
        → opened_ ≡ false
        → run p i (channel (server n)) fresh k
          ≡ (minus_one, str e2 ++ newline, (p.syscall (sys_close (pos n)) k2).1)
  unfolding run Channel.destroy destroy_base new_selector open_selector impl_or_new
  run_without_selector k n idle h =
      let (opened_, t, e2, k2) = i.open_impl i.new_impl fresh k in
      rw (run, open_selector, idle, h)
        (ap (λ x. (minus_one, str e2 ++ newline, x)) (destroy-sys_close p (server n) k2 refl))

  server_listens : (n : ℕ) → is_closed (server n) ≡ false
  unfolding is_closed
  server_listens n = refl

  destroy-gone : (n : ℕ) (k : K) → Channel.destroy p (channel (gone (server n))) k ≡ k
  unfolding Channel.destroy destroy_base Socket.destroy Socket.close
  destroy-gone n k = refl

  destroy-kept :
      (s : Sock) (k : K)
      → is_open s ≡ true
      → Channel.destroy p (channel s) k ≡ (p.syscall (sys_close s.fd) k).1
  unfolding Channel.destroy destroy_base
  destroy-kept s k h = destroy-sys_close p s k h

  run_through :
      (k : K) (n : ℕ)
      → let (opened_, t, e2, k2) = i.open_impl i.new_impl fresh k in
        let (gone_, t3, e3, k3) = i.close_impl t e2 k2 in
        let (r4, k4) = p.syscall (sys_close (pos n)) k3 in
        i.is_open i.new_impl ≡ false
        → opened_ ≡ true
        → (r4.ret ≢ minus_one → run p i (channel (server n)) fresh k ≡ (pos 0, [], k4))
          × (r4.ret ≡ minus_one
              → run p i (channel (server n)) fresh k
                ≡ (pos 0, [], (p.syscall (sys_close (pos n)) k4).1))
  unfolding run new_selector open_selector close_selector impl_or_new
  run_through k n idle h =
      let (opened_, t, e2, k2) = i.open_impl i.new_impl fresh k in
      let (gone_, t3, e3, k3) = i.close_impl t e2 k2 in
      let (r4, k4) = p.syscall (sys_close (pos n)) k3 in
      let (stops, closes, stays) =
        close-create p (server n) af_inet e3 k3 refl (server_listens n) in
      (
        λ ok.
            rw (run, open_selector, idle, h, (closes ok).0)
              (ap (λ x. (pos 0, [], x)) (destroy-gone n k4)),
        λ bad.
            let (e', s', failed_, is, same_fd, again, stuck) = stays bad in
            rw (run, open_selector, idle, h, failed_)
              (ap (λ x. (pos 0, [], x))
                (destroy-kept s' k4 (ap (λ z. not (eq_ℤ z minus_one)) same_fd)
                  ∙ ap (λ z. (p.syscall (sys_close z) k4).1) same_fd)),
      )

  -- How main() ends, for a selector whose new object is not open. Without a socket: -1, the error
  -- on cerr, and no descriptor is closed. With a socket and a selector that does not open: -1, the
  -- error, and the destructor closes the descriptor. With both: 0 and nothing on cerr; the
  -- descriptor is closed by close(), and if that fails a second time by the destructor.
  pub main_lem :
      (k : K) (n : ℕ)
      → let (r1, k1) = p.syscall (sys_socket af_inet sock_stream) k in
        let (opened_, t, e2, k2) = i.open_impl i.new_impl fresh k1 in
        let (gone_, t3, e3, k3) = i.close_impl t e2 k2 in
        let (r4, k4) = p.syscall (sys_close (pos n)) k3 in
        i.is_open i.new_impl ≡ false
        → (r1.ret ≡ minus_one
            → main_ p i k
              ≡ done (minus_one, str (create_error af_inet sock_stream fresh) ++ newline, k1))
          × (r1.ret ≡ pos n
              → opened_ ≡ false
              → main_ p i k
                ≡ done (minus_one, str e2 ++ newline, (p.syscall (sys_close (pos n)) k2).1))
          × (r1.ret ≡ pos n
              → opened_ ≡ true
              → (r4.ret ≢ minus_one → main_ p i k ≡ done (pos 0, [], k4))
                × (r4.ret ≡ minus_one
                    → main_ p i k ≡ done (pos 0, [], (p.syscall (sys_close (pos n)) k4).1)))
  main_lem k n idle =
      let k1 = (p.syscall (sys_socket af_inet sock_stream) k).1 in
      (
        λ h. main_without_socket k h,
        λ h no_. main-run k n h ∙ ap done (run_without_selector k1 n idle no_),
        λ h opens.
            let (ok, bad) = run_through k1 n idle opens in
            (λ q. main-run k n h ∙ ap done (ok q), λ q. main-run k n h ∙ ap done (bad q)),
      )
