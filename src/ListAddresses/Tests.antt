-- ===== src/ListAddresses/Tests.antt =====
-- src/tools/lsnetaddr/lsnetaddr_main.cpp where the name service knows one host.
use taurus.Shared.{◌≡◌, List, [], ◌∷◌, ◌++◌, length, Option, none, some, Text, codes, done, fault}
use taurus.Shared.Int.{pos, show_int}
use taurus.RuntimeError.{newline}
use taurus.Kernel.{af_inet, sock_stream, sock_dgram}
use taurus.Inet.{InetAddress, AddrInfo}
use taurus.Inet.Selection.{Collects, OffersNamed}
use taurus.Script.{slow}
use taurus.ListAddresses.{list_host_addresses}
use taurus.ListAddresses.Listing.{lines, list_host_addresses_lem}

abbrev entry : AddrInfo
entry = record {
  socktype = sock_stream;
  addr = some (record { family = af_inet; port = []; address = 10 ∷ 0 ∷ 0 ∷ 7 ∷ [] });
}

-- The host, and the same address for datagrams
abbrev known : List AddrInfo
known = entry ∷ record entry { socktype = sock_dgram } ∷ []

abbrev service : Text → Option (List AddrInfo)
service t = some known

list_host_addresses_lem_example :
    (some known ≡ some known
      → (as_ : List InetAddress) × Collects OffersNamed known as_
        × (list_host_addresses slow service (codes "echo")
            ≡ done (
                show_int (pos (length as_))
                ++ codes " ip addresses found for hostname "
                ++ codes "echo"
                ++ codes ". "
                ++ newline
                ++ lines slow as_)))
    × (some known ≡ none → list_host_addresses slow service (codes "echo") ≡ fault)
list_host_addresses_lem_example = list_host_addresses_lem slow service (codes "echo") known
