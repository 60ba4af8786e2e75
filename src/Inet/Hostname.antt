-- ===== src/Inet/Hostname.antt =====
-- InetAddress::hostname() of src/net/inet_address.cpp, with the text that the object has in m_hostname.
-- What getaddrinfo gives for a text is an argument.
use taurus.Shared.{
  zero, suc, Bool, true, false, [], if◌then◌else◌, Option, none, some, Text, Outcome, done, fault,
  ◌>>=◌,
}
use taurus.Shared.Int.{ℤ, pos, negsuc}
use taurus.RuntimeError.{is_empty}
use taurus.Kernel.{Platform}
use taurus.Inet.{InetAddress, hostaddr}

-- The result of getaddrinfo, and the canonical name of the first entry: there may be no entry, and an
-- entry may have no name.
pub record Lookup : Type 0 where
  pub ret : ℤ
  pub canonname : Option (Option Text)

-- res->ai_canonname as a string
unfoldable pub name_of : Option (Option Text) → Outcome Text
name_of none = fault
name_of (some none) = fault
name_of (some (some t)) = done t

-- r > 0
abbrev pub is_positive : ℤ → Bool
is_positive (pos zero) = false
is_positive (pos (suc n)) = true
is_positive (negsuc n) = false

-- hostname(): the text returned, and m_hostname afterwards
unfoldable pub hostname :
    {K : Type 0} → Platform K → (Text → Lookup) → InetAddress → Text → Outcome (Text × Text)
unfolding hostaddr
hostname p resolve a m_hostname =
    let found = resolve (hostaddr p a) in
    let asked : Outcome (Text × Text) = (do
      name ← if is_positive found.ret then name_of found.canonname else done []
      done (name, name)) in
    if is_empty m_hostname then asked else done (m_hostname, m_hostname)
