-- ===== src/Socket/Descriptors.antt =====
-- A system that keeps a table of the open descriptors, and a client of src/net/socket_impl.h on it.
use taurus.Shared.{Bool, List, [], ◌∷◌, if◌then◌else◌, Text, Outcome, done, ◌>>=◌}
use taurus.Shared.Int.{ℤ, pos, eq_ℤ}
use taurus.RuntimeError.{RuntimeError}
use taurus.Kernel.{minus_one, Call, sys_socket, sys_accept, sys_close, Platform}
use taurus.Socket.{Sock, is_open, close, create, bind, connect, shutdown_input, shutdown_output}
use taurus.Socket.Names.{listen}

-- The table without the first entry of a descriptor
abbrev pub release : ℤ → List ℤ → List ℤ
release fd [] = []
release fd (x ∷ table) = if eq_ℤ x fd then table else x ∷ release fd table

-- What a call does to the table: socket and accept add the descriptor that they give, and a close
-- that does not fail takes its descriptor away.
abbrev pub book : Call → ℤ → List ℤ → List ℤ
book (sys_socket domain type) ret table = if eq_ℤ ret minus_one then table else ret ∷ table
book (sys_accept fd) (pos n) table = pos n ∷ table
book (sys_close fd) ret table = if eq_ℤ ret minus_one then table else release fd table
book c ret table = table

-- The system `p` with the table beside its state
abbrev pub with_table : {K : Type 0} → Platform K → Platform (K × List ℤ)
with_table p = record {
  syscall = λ c u. let (r, k') = p.syscall c (u.0) in (r, (k', book c r.ret (u.1)));
  pton = p.pton;
  ntop = p.ntop;
  strerror = p.strerror;
  uninitialised = p.uninitialised;
  fall_off = p.fall_off;
}

-- What the owner of a socket object asks of it
pub data Op : Type 0 where
  creating : ℤ → ℤ → Op
  binding connecting : Text → ℤ → Op
  listening : ℤ → Op
  shutting_input shutting_output closing : Op

module _ {K : Type 0} (p : Platform K) where
  unfoldable pub perform : Op → Sock → RuntimeError → K → Outcome (Bool × Sock × RuntimeError × K)
  perform (creating af type) s e k = create p af type s e k
  perform (binding host port) s e k = bind p host port s e k
  perform (connecting ip port) s e k = connect p ip port s e k
  perform (listening backlog) s e k = listen p backlog s e k
  perform shutting_input s e k = done (shutdown_input p s e k)
  perform shutting_output s e k = done (shutdown_output p s e k)
  perform closing s e k = done (close p s e k)

  unfoldable pub perform_all : List Op → Sock → RuntimeError → K → Outcome (Sock × RuntimeError × K)
  unfolding perform
  perform_all [] s e k = done (s, e, k)
  perform_all (o ∷ os) s e k = do (b, s', e', k') ← perform o s e k; perform_all os s' e' k'

-- The descriptor that a socket object holds, as a list
abbrev pub held : Sock → List ℤ
held s = if is_open s then s.fd ∷ [] else []
