-- ===== src/Socket/Ownership.antt =====
-- That the sockets of src/net/socket_impl.h lose no descriptor and give none back twice.
use taurus.Shared.{
  ◌≡◌, ◌≢◌, refl, sym, ap, ◌∙◌, Bool, true, false, List, [], ◌∷◌, ◌++◌, Text, Outcome,
  Outcome-cases, inl, inr, done, abort, fault, ◌>>=◌, arith,
}
use taurus.Shared.Int.{ℤ, eq_ℤ_iff, eq_ℤ-true, eq_ℤ-false}
use taurus.RuntimeError.{RuntimeError}
use taurus.Kernel.{minus_one, sys_socket, sys_accept, sys_close, Platform}
use taurus.Socket.{
  Sock, new_sock, is_open, close, create, bind, connect, shutdown_input, shutdown_output, destroy,
}
use taurus.Socket.Names.{
  listen, accept, get_local_address, own_address, endpoint, get_local_endpoint,
}
use taurus.Socket.Descriptors.{
  with_table, Op, creating, binding, connecting, listening, shutting_input, shutting_output,
  closing, perform, perform_all, held,
}

of_done : {A : Type 0} {x y : A} → done x ≡ done y → x ≡ y
of_done {A} {x} h = ap (λ o. elim o [ done z ↦ z | abort ↦ x | fault ↦ x ]) h

module _ {K : Type 0} (p : Platform K) where
  -- The table holds the descriptor of the socket, and `rest`.
  abbrev pub Owns : List ℤ → Sock → K × List ℤ → Type 0
  Owns rest s u = u.1 ≡ held s ++ rest

  create-Owns :
      (rest : List ℤ) (af type : ℤ) (s t : Sock) (e e' : RuntimeError) (u u' : K × List ℤ)
      (b : Bool)
      → create (with_table p) af type s e u ≡ done (b, t, e', u')
      → Owns rest s u
      → Owns rest t u'
  unfolding create
  create-Owns rest af type s t e e' u u' b h o =
      ground (arith, eq_ℤ_iff (p.syscall (sys_socket af type) (u.0)).0.ret minus_one)

  close-Owns :
      (rest : List ℤ) (s t : Sock) (e e' : RuntimeError) (u u' : K × List ℤ) (b : Bool)
      → close (with_table p) s e u ≡ (b, t, e', u')
      → Owns rest s u
      → Owns rest t u'
  unfolding close
  close-Owns rest s t e e' u u' b h o = ground (arith, eq_ℤ-true s.fd s.fd refl)

  bind-Owns :
      (rest : List ℤ) (host : Text) (port : ℤ) (s t : Sock) (e e' : RuntimeError)
      (u u' : K × List ℤ) (b : Bool)
      → bind (with_table p) host port s e u ≡ done (b, t, e', u')
      → Owns rest s u
      → Owns rest t u'
  unfolding bind
  bind-Owns rest host port s t e e' u u' b h o = ground arith

  connect-Owns :
      (rest : List ℤ) (host : Text) (port : ℤ) (s t : Sock) (e e' : RuntimeError)
      (u u' : K × List ℤ) (b : Bool)
      → connect (with_table p) host port s e u ≡ done (b, t, e', u')
      → Owns rest s u
      → Owns rest t u'
  unfolding connect
  connect-Owns rest host port s t e e' u u' b h o = ground arith

  listen-Owns :
      (rest : List ℤ) (backlog : ℤ) (s t : Sock) (e e' : RuntimeError) (u u' : K × List ℤ)
      (b : Bool)
      → listen (with_table p) backlog s e u ≡ done (b, t, e', u')
      → Owns rest s u
      → Owns rest t u'
  unfolding listen get_local_address own_address
  listen-Owns rest backlog s t e e' u u' b h o = ground arith

  shutdown_input-Owns :
      (rest : List ℤ) (s t : Sock) (e e' : RuntimeError) (u u' : K × List ℤ) (b : Bool)
      → shutdown_input (with_table p) s e u ≡ (b, t, e', u')
      → Owns rest s u
      → Owns rest t u'
  unfolding shutdown_input
  shutdown_input-Owns rest s t e e' u u' b h o = ground arith

  shutdown_output-Owns :
      (rest : List ℤ) (s t : Sock) (e e' : RuntimeError) (u u' : K × List ℤ) (b : Bool)
      → shutdown_output (with_table p) s e u ≡ (b, t, e', u')
      → Owns rest s u
      → Owns rest t u'
  unfolding shutdown_output
  shutdown_output-Owns rest s t e e' u u' b h o = ground arith

  perform-Owns :
      (rest : List ℤ) (o : Op) (s t : Sock) (e e' : RuntimeError) (u u' : K × List ℤ) (b : Bool)
      → perform (with_table p) o s e u ≡ done (b, t, e', u')
      → Owns rest s u
      → Owns rest t u'
  unfolding perform
  perform-Owns rest (creating af type) s t e e' u u' b h =
      create-Owns rest af type s t e e' u u' b h
  perform-Owns rest (binding host port) s t e e' u u' b h =
      bind-Owns rest host port s t e e' u u' b h
  perform-Owns rest (connecting ip port) s t e e' u u' b h =
      connect-Owns rest ip port s t e e' u u' b h
  perform-Owns rest (listening backlog) s t e e' u u' b h =
      listen-Owns rest backlog s t e e' u u' b h
  perform-Owns rest shutting_input s t e e' u u' b h =
      shutdown_input-Owns rest s t e e' u u' b (of_done h)
  perform-Owns rest shutting_output s t e e' u u' b h =
      shutdown_output-Owns rest s t e e' u u' b (of_done h)
  perform-Owns rest closing s t e e' u u' b h = close-Owns rest s t e e' u u' b (of_done h)

  perform_all-Owns :
      (rest : List ℤ) (os : List Op) (s t : Sock) (e e' : RuntimeError) (u u' : K × List ℤ)
      → perform_all (with_table p) os s e u ≡ done (t, e', u')
      → Owns rest s u
      → Owns rest t u'
  unfolding perform_all
  perform_all-Owns rest [] s t e e' u u' h o = ground arith
  perform_all-Owns rest (x ∷ os) s t e e' u u' h o =
      elim (Outcome-cases (perform (with_table p) x s e u)) [
        | inl stops ↦ absurd (ground (arith, stops))
        | inr (inl strays) ↦ absurd (ground (arith, strays))
        | inr (inr ((b, s1, e1, u1), ran)) ↦
            perform_all-Owns rest os s1 t e1 e' u1 u' (sym (ap (λ r. r >>= next) ran) ∙ h)
              (perform-Owns rest x s s1 e e1 u u1 b ran o)
      ]
    where
      next :
          Bool × Sock × RuntimeError × (K × List ℤ) → Outcome (Sock × RuntimeError × (K × List ℤ))
      next (b, s1, e1, u1) = perform_all (with_table p) os s1 e1 u1

  destroy-Owns :
      (rest : List ℤ) (t : Sock) (u : K × List ℤ)
      → Owns rest t u
      → (p.syscall (sys_close t.fd) (u.0)).0.ret ≢ minus_one
      → (destroy (with_table p) t u).1 ≡ rest
  unfolding destroy close
  destroy-Owns rest t u o works = ground (
    arith,
    eq_ℤ-false (p.syscall (sys_close t.fd) (u.0)).0.ret minus_one works,
    eq_ℤ-true t.fd t.fd refl,
  )

  -- A new socket taken through any sequence of Create, Bind, Connect, Listen, ShutdownInput,
  -- ShutdownOutput and Close, whatever the system answers: where the sequence runs through, the
  -- open descriptors are those from before and the one that the socket holds, if any. Its
  -- destructor leaves those from before, unless the close in it fails.
  pub perform_all-destroy :
      (rest : List ℤ) (os : List Op) (t : Sock) (e e' : RuntimeError) (k : K) (u : K × List ℤ)
      → perform_all (with_table p) os new_sock e (k, rest) ≡ done (t, e', u)
      → (u.1 ≡ held t ++ rest)
        × ((p.syscall (sys_close t.fd) (u.0)).0.ret ≢ minus_one
            → (destroy (with_table p) t u).1 ≡ rest)
  perform_all-destroy rest os t e e' k u ran =
      let owns = perform_all-Owns rest os new_sock t e e' (k, rest) u ran refl in
      (owns, λ works. destroy-Owns rest t u owns works)

  accept-Owns :
      (server s t : Sock) (e e' : RuntimeError) (u u' : K × List ℤ) (b : Bool)
      → accept (with_table p) server s e u ≡ done (b, t, e', u')
      → (b ≡ true
          → (u'.1 ≡ held t ++ u.1)
            × (is_open t ≡ true)
            × (t.fd ≡ (p.syscall (sys_accept server.fd) (u.0)).0.ret))
        × (b ≡ false → (u'.1 ≡ u.1) × (t ≡ s))
  unfolding accept get_local_endpoint endpoint
  accept-Owns server s t e e' u u' b h = (λ yes. ground arith, λ no. ground arith)

  -- accept into a socket s that holds one of the open descriptors, or none, on a system that gives
  -- no descriptor that s holds. Where it gives a connection, s is then open with another
  -- descriptor than it held before, which the table has in addition; the one from before is still
  -- open, and the destructor of s leaves it so (unless the close in it fails). Where accept gives
  -- none, the socket and the open descriptors are as before.
  pub accept_keeps_open :
      (rest : List ℤ) (server s t : Sock) (e e' : RuntimeError) (u u' : K × List ℤ) (b : Bool)
      → accept (with_table p) server s e u ≡ done (b, t, e', u')
      → Owns rest s u
      → (is_open s ≡ true → (p.syscall (sys_accept server.fd) (u.0)).0.ret ≢ s.fd)
      → (b ≡ true
          → (is_open t ≡ true)
            × (is_open s ≡ true → t.fd ≢ s.fd)
            × (u'.1 ≡ held t ++ (held s ++ rest))
            × ((p.syscall (sys_close t.fd) (u'.0)).0.ret ≢ minus_one
                → (destroy (with_table p) t u').1 ≡ held s ++ rest))
        × (b ≡ false → (u'.1 ≡ held s ++ rest) × (t ≡ s))
  accept_keeps_open rest server s t e e' u u' b h o other = (
    λ yes.
        let (table, open_, fd) = (accept-Owns server s t e e' u u' b h).0 yes in
        let owns : Owns (held s ++ rest) t u' = table ∙ ap (λ l. held t ++ l) o in
        (
          open_,
          λ was same. other was (sym fd ∙ same),
          owns,
          λ works. destroy-Owns (held s ++ rest) t u' owns works,
        ),
    λ no. let (table, same) = (accept-Owns server s t e e' u u' b h).1 no in (table ∙ o, same),
  )
