-- ===== src/Script.antt =====
-- Systems for the tests: one takes and gives two bytes at a time, one stores options, opens and
-- closes sockets and accepts connections.
use taurus.Shared.{ℕ, List, [], ◌∷◌, length, get_or, min, none, some, codes}
use taurus.Shared.Int.{ℤ, pos}
use taurus.Kernel.{
  Platform, Call, Reply, sys_sendto, sys_recvfrom, sys_setsockopt, sys_getsockopt, sys_accept,
  sys_close, sys_socket, sys_getfl, sys_setfl, malformed, keeps_last, minus_one,
}
use taurus.Inet.{inet4, loopback4}
use taurus.SocketAddress.{Impl}

abbrev pub answer : ℤ → List ℕ → Reply
answer ret bytes = record {
  ret = ret;
  errno = 11;
  bytes = bytes;
  fields = [];
  name = record { family = pos 0; port = []; address = [] };
}

abbrev pub by_two : Call → Unit {0} → Reply × Unit {0}
by_two (sys_sendto fd bytes addr) k = (answer (pos (min 2 (length bytes))) [], k)
by_two (sys_recvfrom fd n) k = (answer (pos 2) (7 ∷ 8 ∷ []), k)
by_two c k = (answer minus_one [], k)

abbrev pub slow : Platform (Unit {0})
slow = record {
  syscall = by_two;
  pton = λ d t. malformed;
  ntop = λ d a. none;
  strerror = λ n. codes "error";
  uninitialised = [];
  fall_off = keeps_last;
}

abbrev pub peer : Impl
peer = record { address = some (inet4 loopback4); port = pos 80 }

-- A system that stores the option it is given, and the file status flags in the same place,
-- whose accept gives the descriptor 4, and whose socket gives 5
abbrev pub stored : Call → List ℤ → Reply × List ℤ
stored (sys_setsockopt fd level name value) k = (answer (pos 0) [], value)
stored (sys_getsockopt fd level name) k = (record (answer (pos 0) []) { fields = k }, k)
stored (sys_getfl fd) k = (answer (get_or k 0 minus_one) [], k)
stored (sys_setfl fd flags) k = (answer (pos 0) [], pos flags ∷ [])
stored (sys_accept fd) k = (answer (pos 4) [], k)
stored (sys_close fd) k = (answer (pos 0) [], k)
stored (sys_socket domain type) k = (answer (pos 5) [], k)
stored c k = (answer minus_one [], k)

abbrev pub keeper : Platform (List ℤ)
keeper = record {
  syscall = stored;
  pton = λ d t. malformed;
  ntop = λ d a. none;
  strerror = λ n. codes "error";
  uninitialised = [];
  fall_off = keeps_last;
}
