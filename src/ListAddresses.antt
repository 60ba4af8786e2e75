-- ===== src/ListAddresses.antt =====
-- src/tools/lsnetaddr/lsnetaddr_main.cpp. What getopt, getifaddrs and getaddrinfo give are arguments; the
-- result is what is printed.
pub mod Listing
mod Tests
use taurus.Shared.{
  ℕ, zero, suc, ◌+◌, ◌-◌, ◌^◌, Bool, List, [], ◌∷◌, ◌++◌, ltb, if◌then◌else◌, Option, none, some,
  Text, codes, Outcome, done, fault, ◌>>=◌,
}
use taurus.Shared.Int.{ℤ, pos, negsuc, show_int}
use taurus.RuntimeError.{newline}
use taurus.Kernel.{Platform}
use taurus.Inet
use taurus.Inet.{InetAddress, Interface, AddrInfo, get_all_by_name, get_localhost}

-- What getopt finds: one of the three options, or anything else
pub data Opt : Type 0 where
  name : Text → Opt
  help local_ unknown : Opt

-- size_t of an ssize_t
abbrev pub to_size : ℤ → ℕ
to_size (pos n) = n
to_size (negsuc n) = 2 ^ 64 - 1 - n

module _ {K : Type 0} (p : Platform K) where
  -- The loop: `n` turns are left, and `rest` are the addresses from the index on.
  unfoldable pub print_each : ℕ → List InetAddress → Outcome Text
  print_each zero rest = done []
  print_each (suc n) [] = fault
  print_each (suc n) (a ∷ rest) = do
    text ← print_each n rest
    done (Inet.str p a ++ newline ++ text)

  unfoldable pub list_host_addresses : (Text → Option (List AddrInfo)) → Text → Outcome Text
  list_host_addresses lookup_ hostname = do
    let (addrlist, r) = get_all_by_name (lookup_ hostname) []
    text ← print_each (to_size r) addrlist
    done (
        show_int r
        ++ codes " ip addresses found for hostname "
        ++ hostname
        ++ codes ". "
        ++ newline
        ++ text)

  unfoldable pub list_local_addresses : Option (List Interface) → Outcome Text
  list_local_addresses ifs =
      let (addrlist, r) = get_localhost ifs [] in
      if ltb 0 (to_size r)
      then print_each (to_size r) addrlist
      else done (show_int r ++ codes " ip addresses found in localhost. " ++ newline)

  unfoldable pub print_help : Text → Text
  print_help program = program ++ codes " <options>" ++ newline ++ newline

  -- The loop of main() over the options
  unfoldable pub main_ :
      (Text → Option (List AddrInfo)) → Option (List Interface) → Text → List Opt → Outcome Text
  unfolding print_help
  main_ lookup_ ifs program [] = done []
  main_ lookup_ ifs program (o ∷ opts) = do
    text ← elim o [
      | name hostname ↦ list_host_addresses lookup_ hostname
      | help ↦ done (print_help program)
      | local_ ↦ list_local_addresses ifs
      | unknown ↦ done []
    ]
    rest ← main_ lookup_ ifs program opts
    done (text ++ rest)
