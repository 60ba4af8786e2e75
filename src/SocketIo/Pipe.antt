-- ===== src/SocketIo/Pipe.antt =====
-- A writer and a reader of src/net/socket_io_impl.h at the two ends of a queue of bytes, which
-- take turns in any order.
use taurus.Shared.{
  ℕ, zero, suc, List, [], ◌∷◌, ◌++◌, length, take, drop, min, none, some, codes, Outcome, done,
  ◌>>=◌,
}
use taurus.Shared.Int.{ℤ, pos}
use taurus.RuntimeError.{RuntimeError, fresh}
use taurus.Kernel.{
  Platform, Call, Reply, sys_sendto, sys_recvfrom, malformed, keeps_last, minus_one, eagain,
}
use taurus.SocketAddress.{Impl}
use taurus.SocketIo.{Io, open_on, read_from, write_to}

abbrev pub reply : ℤ → List ℕ → Reply
reply ret bytes = record {
  ret = ret;
  errno = eagain;
  bytes = bytes;
  fields = [];
  name = record { family = pos 0; port = []; address = [] };
}

-- The queue takes at most `most` bytes at a time, and gives at most `most`; without a byte to give it
-- answers 0 and EAGAIN.
abbrev pub queue_call : ℕ → Call → List ℕ → Reply × List ℕ
queue_call most (sys_sendto fd bytes addr) q =
    (reply (pos (min most (length bytes))) [], q ++ take (min most (length bytes)) bytes)
queue_call most (sys_recvfrom fd n) q =
    let m = min most (min n (length q)) in (reply (pos m) (take m q), drop m q)
queue_call most c q = (reply minus_one [], q)

abbrev pub pipe : ℕ → Platform (List ℕ)
pipe most = record {
  syscall = queue_call most;
  pton = λ d t. malformed;
  ntop = λ d a. none;
  strerror = λ n. codes "error";
  uninitialised = [];
  fall_off = keeps_last;
}

-- The two ends and what is under way
pub record Link : Type 0 where
  pub writer : Io
  pub reader : Io
  pub err : RuntimeError
  pub queue : List ℕ

pub data Turn : Type 0 where
  writing reading : Turn

module _ (most : ℕ) (endp : Impl) where
  unfoldable pub take_turn : Turn → Link → Outcome Link
  take_turn writing l = do
    (r, io, e, q) ← write_to (pipe most) (some endp) l.writer l.err l.queue
    done (record { writer = io; reader = l.reader; err = e; queue = q })
  take_turn reading l = do
    (r, io, e, q) ← read_from (pipe most) (some endp) l.reader l.err l.queue
    done (record { writer = l.writer; reader = io; err = e; queue = q })

  unfoldable pub take_turns : List Turn → Link → Outcome Link
  unfolding take_turn
  take_turns [] l = done l
  take_turns (t ∷ ts) l = do l' ← take_turn t l; take_turns ts l'

-- One turn `n` times
abbrev pub times : ℕ → Turn → List Turn
times zero t = []
times (suc n) t = t ∷ times n t

-- A writer over `bytes` and a reader into `buffer`, both at the start, and nothing under way
unfoldable pub connected : List ℕ → List ℕ → Link
unfolding open_on
connected bytes buffer = record {
  writer = open_on (pos 3) bytes (length bytes);
  reader = open_on (pos 4) buffer (length buffer);
  err = fresh;
  queue = [];
}
