-- ===== src/Inet/Naming.antt =====
-- That InetAddress::hostname() of src/net/inet_address.cpp finds no name.
use taurus.Shared.{◌≡◌, refl, true, false, [], none, Text, done, fault}
use taurus.Kernel.{Platform}
use taurus.RuntimeError.{is_empty}
use taurus.Inet.{InetAddress, hostaddr}
use taurus.Inet.Hostname.{Lookup, name_of, is_positive, hostname}

-- hostname() of an address, for a getaddrinfo that gives no entry when it fails. A name that the object
-- has is returned and kept. No constructor sets one; without one the call returns the empty text and
-- keeps it, also when getaddrinfo succeeds, or, if getaddrinfo fails with a positive code, reads
-- through a null pointer.
pub hostname_lem :
    {K : Type 0} (p : Platform K) (resolve : Text → Lookup) (a : InetAddress) (m_hostname : Text)
    → (is_positive (resolve (hostaddr p a)).ret ≡ true → (resolve (hostaddr p a)).canonname ≡ none)
    → (is_empty m_hostname ≡ false
        → hostname p resolve a m_hostname ≡ done (m_hostname, m_hostname))
      × (is_positive (resolve (hostaddr p a)).ret ≡ false → hostname p resolve a [] ≡ done ([], []))
      × (is_positive (resolve (hostaddr p a)).ret ≡ true → hostname p resolve a [] ≡ fault)
unfolding hostname name_of
hostname_lem p resolve a m_hostname quiet =
    (λ h. rw (hostname, h) refl, λ h. rw (hostname, h) refl, λ h. rw (hostname, h, quiet h) refl)
