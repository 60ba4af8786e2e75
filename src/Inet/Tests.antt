-- ===== src/Inet/Tests.antt =====
-- Addresses of src/net/inet_address.cpp on concrete bytes.
use taurus.Shared.{ℕ, ◌≡◌, refl, List, [], ◌∷◌, ◌++◌, length, none, some}
use taurus.Shared.Int.{pos}
use taurus.Kernel.{minus_one, af_inet, SockAddr}
use taurus.Inet.{
  InetAddress, inet4, any4, loopback4, Interface, local_address, get_localhost, collect,
  is_anylocal, is_loopback, same_bytes,
}
use taurus.Inet.Selection.{Collects, OffersLocal, get_localhost_lem}

abbrev lan : List ℕ
lan = 192 ∷ 168 ∷ 0 ∷ 7 ∷ []

abbrev name_of : List ℕ → SockAddr
name_of a = record { family = af_inet; port = 0 ∷ 0 ∷ []; address = a }

-- The loopback interface, one without an address and one of a local network
abbrev interfaces : List Interface
interfaces = some (name_of loopback4) ∷ none ∷ some (name_of lan) ∷ []

get_localhost_lem_example :
    ((as_ : List InetAddress) × Collects OffersLocal interfaces as_
      × (get_localhost (some interfaces) (inet4 any4 ∷ [])
          ≡ (inet4 any4 ∷ [] ++ as_, pos (length as_))))
    × (get_localhost none (inet4 any4 ∷ []) ≡ (inet4 any4 ∷ [], minus_one))
get_localhost_lem_example = get_localhost_lem interfaces (inet4 any4 ∷ [])

local_addresses : get_localhost (some interfaces) [] ≡ (inet4 lan ∷ [], pos 1)
unfolding get_localhost collect local_address is_anylocal is_loopback same_bytes
local_addresses = refl
