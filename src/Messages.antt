-- ===== src/Messages.antt =====
-- The helpers of src/net/socket_utils.h. `oss<<sockerr` in the code does not call `sockerr`: the
-- stream that `<<` returns is a std::ostream, for which a function on std::ostringstream is no
-- manipulator, so the pointer is printed as a bool.
use taurus.Shared.{ℕ, ◌++◌, if◌then◌else◌, Option, none, some, Text, codes, Outcome, done, ◌>>=◌}
use taurus.Shared.{digits}
use taurus.Shared.Int.{ℤ, eq_ℤ, show_int}
use taurus.RuntimeError.{RuntimeError, set}
use taurus.Kernel.{minus_one, af_inet, af_inet6, sock_stream, sock_dgram, Platform}
use taurus.Inet.{InetAddress, inet4_parse, inet6_parse}

-- What `<<sockerr` and `<<syserr` print.
abbrev pub manipulator : Text
manipulator = codes "1"

-- sockerr(oss) and syserr(oss) when they are called as functions
unfoldable pub sockerr : {K : Type 0} → Platform K → ℕ → Text → Text
sockerr p errno oss =
    oss
    ++ codes " socket errno: "
    ++ digits errno
    ++ codes ", errmsg: "
    ++ p.strerror errno
    ++ codes ". "

unfoldable pub syserr : {K : Type 0} → Platform K → ℕ → Text → Text
syserr p errno oss =
    oss
    ++ codes " sys errno: "
    ++ digits errno
    ++ codes ", errmsg: "
    ++ p.strerror errno
    ++ codes ". "

-- MakeSocketRuntimeError, in its four forms: a text or a stream, returned or stored
unfoldable pub make_socket_runtime_error : {K : Type 0} → Platform K → ℕ → Text → Text
make_socket_runtime_error p errno str =
    str ++ codes " errno: " ++ digits errno ++ codes ", " ++ p.strerror errno

-- NewInetAddress; `none` is the null pointer
unfoldable pub new_inet_address :
    {K : Type 0}
    → Platform K
    → ℤ
    → Text
    → RuntimeError
    → Outcome (Option InetAddress × RuntimeError)
unfolding inet4_parse inet6_parse
new_inet_address p domain host e =
    if eq_ℤ domain af_inet
    then (do (a, e') ← inet4_parse p host e; done (some a, e'))
    else (if eq_ℤ domain af_inet6
        then (do (a, e') ← inet6_parse p host e; done (some a, e'))
        else done (
          none,
          set minus_one (codes "Unknown inet address: " ++ show_int domain ++ codes ", " ++ host)
              (some (codes "NewInetAddress")) e,
        ))

unfoldable pub sock_proto_str : ℤ → ℤ → Text
sock_proto_str af type =
    if eq_ℤ af af_inet
    then (if eq_ℤ type sock_stream
        then codes "tcp"
        else (if eq_ℤ type sock_dgram then codes "udp" else codes "inet"))
    else (if eq_ℤ af af_inet6
        then (if eq_ℤ type sock_stream
            then codes "tcp6"
            else (if eq_ℤ type sock_dgram then codes "udp6" else codes "inet6"))
        else codes "unknown")
