-- ===== src/Url/Hosts.antt =====
-- Hosts that a URL can carry, and how define_string writes them (src/net/url.cpp).
use taurus.Shared.{
  ℕ, zero, suc, ◌-◌, ◌≡◌, refl, subst, ◌≢◌, true, false, [], ◌∷◌, ◌++◌, length, get_or,
  if◌then◌else◌, ◌==◌, arith, Text,
}
use taurus.Shared.Int.{pos}
use taurus.Url.{bracket, contains, need_brackets}
use taurus.Url.Walk.{IsHostFrom}

-- A host name or an IPv4 address: no terminator, colon, slash or bracket.
abbrev pub IsPlain : Text → Type 0
IsPlain [] = Unit
IsPlain (c ∷ t) = (c ≢ 0) × (c ≢ b':') × (c ≢ b'/') × (c ≢ b'[') × (c ≢ b']') × IsPlain t

-- An IPv6 address: no terminator, slash or bracket.
abbrev pub IsLiteral : Text → Type 0
IsLiteral [] = Unit
IsLiteral (c ∷ t) = (c ≢ 0) × (c ≢ b'/') × (c ≢ b'[') × (c ≢ b']') × IsLiteral t

-- What define_string() writes for a host.
abbrev pub shown : Text → Text
shown h = if need_brackets h then b'[' ∷ (h ++ b']' ∷ []) else h

pub plain-IsHostFrom : (h : Text) → IsPlain h → IsHostFrom (pos 0) h
plain-IsHostFrom [] p = refl
plain-IsHostFrom (c ∷ h) p =
    (ground arith, subst (λ b. IsHostFrom b h) stays (plain-IsHostFrom h p.5))
  where
    stays : pos 0 ≡ bracket c (pos 0)
    stays = ground arith

plain-contains : (h : Text) → IsPlain h → contains b':' h ≡ false
unfolding contains
plain-contains [] p = refl
plain-contains (c ∷ h) p = ground (arith, plain-contains h p.5)

pub plain-shown : (h : Text) → IsPlain h → shown h ≡ h
unfolding need_brackets
plain-shown h p = rw (plain-contains h p)

pub inside-IsHostFrom : (h : Text) → IsLiteral h → IsHostFrom (pos 1) (h ++ b']' ∷ [])
inside-IsHostFrom [] p = (refl, refl)
inside-IsHostFrom (c ∷ h) p =
    (ground arith, subst (λ b. IsHostFrom b (h ++ b']' ∷ [])) stays (inside-IsHostFrom h p.4))
  where
    stays : pos 1 ≡ bracket c (pos 1)
    stays = ground arith

literal-last : (h : Text) (d : ℕ) (n : ℕ) → IsLiteral h → d ≢ b']' → (get_or h n d == b']') ≡ false
literal-last [] d n p q = ground arith
literal-last (c ∷ h) d zero p q = ground arith
literal-last (c ∷ h) d (suc n) p q = literal-last h d n p.4 q

pub literal-shown :
    (h : Text) → IsLiteral h → contains b':' h ≡ true → shown h ≡ b'[' ∷ (h ++ b']' ∷ [])
unfolding need_brackets
literal-shown [] p q = cc
literal-shown (c ∷ h) p q =
    rw (q, literal-last (c ∷ h) 0 (length (c ∷ h) - 1) p (omega arith)) (ground arith)
