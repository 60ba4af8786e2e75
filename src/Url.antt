-- ===== src/Url.antt =====
-- `class URL` and URL_Impl of src/net/url.cpp. A `const char *` is the memory from it on: the text,
-- its terminator, and the bytes that follow the terminator as far as they may be read.
pub mod Objects
pub mod Ports
pub mod Walk
pub mod Hosts
pub mod Texts
pub mod RoundTrip
pub mod Failures
pub mod Scans
pub mod Totality
pub mod Soundness
mod Tests
use taurus.Shared.{
  ℕ, zero, suc, ◌+◌, ◌-◌, ◌*◌, Bool, true, false, not, ◌&&◌, ◌||◌, List, [], ◌∷◌, ◌++◌, length,
  get_or, take, drop, if◌then◌else◌, ◌==◌, leb, ltb, Option, none, some, Text, codes, Outcome, done,
  fault, ◌>>=◌, digits,
}
use taurus.Shared.Int.{ℤ, pos, negsuc, eq_ℤ}
use taurus.Kernel.{minus_one}
use taurus.RuntimeError.{RuntimeError, is_empty, set}

pub record UrlImpl : Type 0 where
  pub string : Text
  pub schema : Text
  pub host : Text
  pub port : ℤ

-- URL()
abbrev pub blank : UrlImpl
blank = record { string = []; schema = []; host = []; port = minus_one }

-- The text that a pointer denotes: up to the terminator.
unfoldable pub c_string : List ℕ → Text
c_string [] = []
c_string (c ∷ m) = if c == 0 then [] else c ∷ c_string m

-- An access through the pointer.
abbrev pub read : List ℕ → Outcome ℕ
read [] = fault
read (c ∷ m) = done c

-- The loop of parse_schema: `n` characters to the colon, or none before the terminator.
unfoldable pub scan_schema : List ℕ → ℕ → Outcome (Option ℕ)
scan_schema [] n = fault
scan_schema (c ∷ m) n =
    let rest = scan_schema m (n + 1) in
    if c == 0 then done none else (if c == b':' then done (some n) else rest)

unfoldable pub parse_error : Text → List ℕ → Text → RuntimeError → RuntimeError
unfolding set c_string
parse_error what str hint e = set minus_one (what ++ c_string str) (some hint) e

-- parse_schema: the count returned, the object and the error afterwards
unfoldable pub parse_schema :
    List ℕ → ℕ → UrlImpl → RuntimeError → Outcome (ℤ × UrlImpl × RuntimeError)
parse_schema str at u e = do
  found ← scan_schema (drop at str) 0
  elim found [
    | none ↦ done (
      minus_one,
      u,
      parse_error (codes "URL parse schema error: ") str (codes "URL::URL_Impl::parse_schema") e,
    )
    | some n ↦ done (pos n, (if ltb 0 n then record u { schema = take n (drop at str) } else u), e)
  ]

-- ++in_bracket and --in_bracket
abbrev pub inc : ℤ → ℤ
inc (pos n) = pos (suc n)
inc (negsuc zero) = pos 0
inc (negsuc (suc n)) = negsuc n

abbrev pub dec : ℤ → ℤ
dec (pos zero) = negsuc 0
dec (pos (suc n)) = pos n
dec (negsuc n) = negsuc (suc n)

abbrev pub bracket : ℕ → ℤ → ℤ
bracket c b = if c == b'[' then inc b else (if c == b']' then dec b else b)

-- The loop of parse_host breaks at a colon or a slash outside brackets, or at the terminator.
abbrev pub ends_host : ℕ → ℤ → Bool
ends_host c b = c == 0 || (c == b':' || c == b'/') && eq_ℤ b (pos 0)

unfoldable pub scan_host : List ℕ → ℤ → ℕ → Outcome ℕ
scan_host [] b n = fault
scan_host (c ∷ m) b n =
    let rest = scan_host m (bracket c b) (n + 1) in if ends_host c b then done n else rest

-- str[0] == '/' && str[1] == '/'
unfoldable pub two_slashes : List ℕ → Outcome Bool
two_slashes m = do
  c ← read m
  let second : Outcome Bool = (do d ← read (drop 1 m); done (d == b'/'))
  elim (c == b'/') [ true ↦ second | false ↦ done false ]

unfoldable pub parse_host :
    List ℕ → ℕ → UrlImpl → RuntimeError → Outcome (ℤ × UrlImpl × RuntimeError)
parse_host str at u e = do
  slashes ← two_slashes (drop at str)
  elim slashes [
    | true ↦ do
      n ← scan_host (drop (at + 2) str) (pos 0) 2
      done (pos n, record u { host = take (n - 2) (drop (at + 2) str) }, e)
    | false ↦ done (
      minus_one,
      u,
      parse_error (codes "URL invalid host: ") str (codes "URL::URL_Impl::parse_host") e,
    )
  ]

-- The loop of parse_port goes on while 0 <= c <= '9' for a signed char: over every byte up to '9',
-- the terminator too.
unfoldable pub scan_port : List ℕ → ℕ → Outcome ℕ
scan_port [] n = fault
scan_port (c ∷ m) n = let rest = scan_port m (n + 1) in if leb c b'9' then rest else done n

-- atoi of the standard library: white space, a sign, digits. A number that is no int, for which C
-- leaves the result undefined, is not cut off here.
abbrev pub is_digit : ℕ → Bool
is_digit c = leb b'0' c && leb c b'9'

abbrev pub is_space : ℕ → Bool
is_space c = c == 32 || leb 9 c && leb c 13

unfoldable pub digits_value : ℕ → List ℕ → ℕ
digits_value acc [] = acc
digits_value acc (c ∷ m) =
    let rest = digits_value (acc * 10 + (c - b'0')) m in if is_digit c then rest else acc

abbrev pub negate : ℕ → ℤ
negate zero = pos 0
negate (suc n) = negsuc n

unfoldable pub signed_value : List ℕ → ℤ
unfolding digits_value
signed_value [] = pos 0
signed_value (c ∷ m) =
    if c == b'-'
    then negate (digits_value 0 m)
    else (if c == b'+' then pos (digits_value 0 m) else pos (digits_value 0 (c ∷ m)))

unfoldable pub atoi : List ℕ → ℤ
unfolding signed_value
atoi [] = pos 0
atoi (c ∷ m) = let rest = atoi m in if is_space c then rest else signed_value (c ∷ m)

unfoldable pub parse_port :
    List ℕ → ℕ → UrlImpl → RuntimeError → Outcome (ℤ × UrlImpl × RuntimeError)
parse_port str at u e = do
  n ← scan_port (drop at str) 0
  done (
      if ltb 0 n then (pos n, record u { port = atoi (drop at str) }, e) else (
        minus_one,
        u,
        parse_error (codes "URL invalid port: ") str (codes "URL::URL_Impl::parse_port") e,
      ))

-- The last part of parse: `n` characters of host end at `at`.
unfoldable pub parse_rest :
    List ℕ → ℕ → ℕ → UrlImpl → RuntimeError → Outcome (Bool × UrlImpl × RuntimeError)
parse_rest str n at u e =
    if ltb 0 n
    then (do
      c ← read (drop at str)
      let port : Outcome (Bool × UrlImpl × RuntimeError) = (do
        (m, u2, e2) ← parse_port str (at + 1) u e
        done (elim m [ pos _ ↦ true | negsuc _ ↦ false ], u2, e2))
      elim (c == b':') [ true ↦ port | false ↦ done (true, u, e) ])
    else done (true, u, e)

-- parse
unfoldable pub parse : List ℕ → UrlImpl → RuntimeError → Outcome (Bool × UrlImpl × RuntimeError)
parse str u e = do
  (n, u1, e1) ← parse_schema str 0 u e
  elim n [
    | pos (suc n') ↦ do
      (m, u2, e2) ← parse_host str (suc n' + 1) u1 e1
      elim m [
        | pos m' ↦ parse_rest str m' (suc n' + 1 + m') u2 e2
        | negsuc _ ↦ done (false, u2, e2)
      ]
    | pos zero ↦ done (false, u1, e1)
    | negsuc _ ↦ done (false, u1, e1)
  ]

abbrev pub last_or : ℕ → Text → ℕ
last_or d t = get_or t (length t - 1) d

unfoldable pub contains : ℕ → Text → Bool
contains c [] = false
contains c (x ∷ t) = x == c || contains c t

-- needbrackets
unfoldable pub need_brackets : Text → Bool
unfolding contains
need_brackets host =
    contains b':' host && not (get_or host 0 0 == b'[') && not (last_or 0 host == b']')

-- define_string
unfoldable pub define_string : UrlImpl → UrlImpl
unfolding need_brackets digits
define_string u = if not (is_empty u.string) then u else record u {
  string =
      (if is_empty u.schema then [] else u.schema ++ codes ":")
      ++ ((if is_empty u.host then [] else codes "//")
          ++ ((if need_brackets u.host then codes "[" else [])
              ++ (u.host
                  ++ ((if need_brackets u.host then codes "]" else [])
                      ++ elim u.port [ pos n ↦ codes ":" ++ digits n | negsuc _ ↦ [] ]))));
}

-- URL(const char *, RuntimeError &)
unfoldable pub of_string : List ℕ → RuntimeError → Outcome (UrlImpl × RuntimeError)
of_string str e = do
  (ok, u, e1) ← parse str blank e
  done (if ok then record u { string = c_string str } else u, e1)

-- URL(const char *, const char *, int)
unfoldable pub of_parts : Text → Text → ℤ → UrlImpl
of_parts schema host port =
    define_string (record { string = []; schema = schema; host = host; port = port })
