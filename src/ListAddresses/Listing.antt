-- ===== src/ListAddresses/Listing.antt =====
-- What src/tools/lsnetaddr/lsnetaddr_main.cpp prints.
use taurus.Shared.{
  ℕ, zero, suc, ◌<◌, ◌-◌, ◌^◌, ◌≡◌, refl, List, [], ◌∷◌, ◌++◌, length, Option, none, some, Text,
  codes, done, fault, arith,
}
use taurus.Shared.Int.{pos, show_int}
use taurus.RuntimeError.{newline}
use taurus.Kernel.{Platform}
use taurus.Inet
use taurus.Inet.{
  InetAddress, AddrInfo, Interface, named_address, local_address, get_all_by_name, get_localhost,
}
use taurus.Inet.Selection.{Collects, OffersNamed, get_all_by_name_lem}
use taurus.ListAddresses.{print_each, list_host_addresses}

module _ {K : Type 0} (p : Platform K) where
  -- One line for each address
  abbrev pub lines : List InetAddress → Text
  lines [] = []
  lines (a ∷ rest) = Inet.str p a ++ newline ++ lines rest

  print_each-lines : (vec : List InetAddress) → print_each p (length vec) vec ≡ done (lines vec)
  unfolding print_each
  print_each-lines [] = refl
  print_each-lines (a ∷ rest) = rw (print_each-lines rest)

  print_each_outside :
      (n : ℕ) (vec : List InetAddress) → length vec < n → print_each p n vec ≡ fault
  unfolding print_each
  print_each_outside zero vec h = absurd (omega arith)
  print_each_outside (suc n) [] h = refl
  print_each_outside (suc n) (a ∷ rest) h = rw (print_each_outside n rest (omega arith))

  -- list_host_addresses(name): when the name service answers, the number of its stream entries with an
  -- IPv4 or IPv6 address and then a line for each of them, in its order. When it does not, the -1 is
  -- taken for the largest size_t and the loop reads behind the empty vector.
  pub list_host_addresses_lem :
      (lookup_ : Text → Option (List AddrInfo)) (hostname : Text) (l : List AddrInfo)
      → (lookup_ hostname ≡ some l
          → (as_ : List InetAddress) × Collects OffersNamed l as_
            × (list_host_addresses p lookup_ hostname
                ≡ done (
                    show_int (pos (length as_))
                    ++ codes " ip addresses found for hostname "
                    ++ hostname
                    ++ codes ". "
                    ++ newline
                    ++ lines as_)))
        × (lookup_ hostname ≡ none → list_host_addresses p lookup_ hostname ≡ fault)
  unfolding list_host_addresses
  list_host_addresses_lem lookup_ hostname l =
      let ((as_, collected, got), failed) = get_all_by_name_lem l [] in
      (
        λ h. (as_, collected, rw (h, got) (rw (print_each-lines as_) refl)),
        λ h. rw (h, failed) (rw (print_each_outside (2 ^ 64 - 1) [] (omega arith)) refl),
      )
