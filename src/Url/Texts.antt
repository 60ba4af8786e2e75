-- ===== src/Url/Texts.antt =====
-- The texts that define_string of src/net/url.cpp makes, in memory, and the port at their end.
use taurus.Shared.{
  ℕ, zero, suc, ◌+◌, ◌<◌, ◌≡◌, refl, sym, ap, ◌∙◌, ◌≢◌, Bool-cases, inl, inr, List, [], ◌∷◌, ◌++◌,
  append-nil, append_assoc, length, length-append, drop, ltb, arith, Text, done, fault, digits,
  digits_from, ◌/◌, ◌%◌,
}
use taurus.Shared.Int.{ℤ, pos}
use taurus.RuntimeError.{RuntimeError}
use taurus.Url.{
  UrlImpl, c_string, bracket, scan_port, parse_port, need_brackets, define_string, of_parts,
}
use taurus.Url.Ports.{atoi-digits, AreLow, AreLow-append, digits-AreLow, scan_port-AreLow}
use taurus.Url.Walk.{HasNoColon, IsHostFrom, after_schema}
use taurus.Url.Hosts.{shown}

abbrev pub HasNoNul : Text → Type 0
HasNoNul [] = Unit
HasNoNul (c ∷ t) = (c ≢ 0) × HasNoNul t

HasNoNul-append : (a b : Text) → HasNoNul a → HasNoNul b → HasNoNul (a ++ b)
HasNoNul-append [] b p q = q
HasNoNul-append (c ∷ a) b p q = (p.0, HasNoNul-append a b p.1 q)

schema-HasNoNul : (s : Text) → HasNoColon s → HasNoNul s
schema-HasNoNul [] h = tt
schema-HasNoNul (c ∷ s) h = (h.0, schema-HasNoNul s h.2)

host-HasNoNul : (b : ℤ) (h : Text) → IsHostFrom b h → HasNoNul h
host-HasNoNul b [] p = tt
host-HasNoNul b (c ∷ h) p = (λ e. ground arith, host-HasNoNul (bracket c b) h p.1)

digits_from-HasNoNul : (f n : ℕ) → HasNoNul (digits_from f n)
unfolding digits_from
digits_from-HasNoNul zero n = tt
digits_from-HasNoNul (suc f) n = elim (Bool-cases (ltb n 10)) [
  | inl small ↦ rw small (omega arith, tt)
  | inr big ↦ rw big (
      HasNoNul-append (digits_from f (n / 10)) ((b'0' + n % 10) ∷ [])
        (digits_from-HasNoNul f (n / 10)) (omega arith, tt))
]

digits-HasNoNul : (n : ℕ) → HasNoNul (digits n)
unfolding digits
digits-HasNoNul n = digits_from-HasNoNul (suc n) n

pub c_string_lem : (t : Text) (m : List ℕ) → HasNoNul t → c_string (t ++ 0 ∷ m) ≡ t
unfolding c_string
c_string_lem [] m h = refl
c_string_lem (c ∷ t) m h = ground (arith, c_string_lem t m h.1)

-- The text of a URL with all its parts.
abbrev pub url_text : Text → Text → ℕ → Text
url_text s h n = s ++ b':' ∷ b'/' ∷ b'/' ∷ (h ++ b':' ∷ digits n)

pub string_lem :
    (c : ℕ) (s : Text) (x : ℕ) (t : Text) (n : ℕ)
    → (of_parts (c ∷ s) (x ∷ t) (pos n)).string ≡ url_text (c ∷ s) (shown (x ∷ t)) n
unfolding of_parts define_string
string_lem c s x t n = elim (Bool-cases (need_brackets (x ∷ t))) [
  | inl yes_ ↦ simp (yes_, append_assoc)
  | inr no_ ↦ simp (no_, append_assoc)
]

pub url_text-HasNoNul :
    (s h : Text) (n : ℕ) → HasNoColon s → IsHostFrom (pos 0) h → HasNoNul (url_text s h n)
url_text-HasNoNul s h n p q = HasNoNul-append s _ (schema-HasNoNul s p) (
  omega arith,
  (
    omega arith,
    (
      omega arith,
      HasNoNul-append h (b':' ∷ digits n) (host-HasNoNul (pos 0) h q)
          (omega arith, digits-HasNoNul n),
    ),
  ),
)

pub url_text-memory :
    (s h : Text) (n : ℕ) (tail : List ℕ)
    → url_text s h n ++ 0 ∷ tail ≡ s ++ b':' ∷ after_schema h (digits n ++ 0 ∷ tail)
url_text-memory s h n tail = simp append_assoc

-- What the loop of parse_port runs over: the digits, the terminator and the low bytes behind it.
abbrev span : ℕ → List ℕ → List ℕ
span n low = digits n ++ 0 ∷ low

span-AreLow : (n : ℕ) (low : List ℕ) → AreLow low → AreLow (span n low)
span-AreLow n low h = AreLow-append (digits n) (0 ∷ low) (digits-AreLow n) (omega arith, h)

span_scanned :
    (n : ℕ) (low m : List ℕ)
    → AreLow low
    → scan_port (span n low ++ m) 0 ≡ scan_port m (length (digits n) + suc (length low))
span_scanned n low m h =
    scan_port-AreLow (span n low) m 0 (span-AreLow n low h)
    ∙ ap (scan_port m) (omega (arith, length-append (digits n) (0 ∷ low)))

scan_port_stop : (d : ℕ) (m : List ℕ) (k : ℕ) → b'9' < d → scan_port (d ∷ m) k ≡ done k
unfolding scan_port
scan_port_stop d m k h = ground arith

pub port_scanned :
    (n : ℕ) (low rest : List ℕ) (d : ℕ) (str : List ℕ) (at : ℕ) (u : UrlImpl) (e : RuntimeError)
    → AreLow low
    → b'9' < d
    → drop at str ≡ span n low ++ d ∷ rest
    → parse_port str at u e
      ≡ done (pos (length (digits n) + suc (length low)), record u { port = pos n }, e)
unfolding parse_port
port_scanned n low rest d str at u e l h p =
    rw
      (
        p,
        span_scanned n low (d ∷ rest) l,
        scan_port_stop d rest (length (digits n) + suc (length low)) h,
        append_assoc (digits n) (0 ∷ low) (d ∷ rest),
        atoi-digits n 0 (low ++ d ∷ rest) refl,
      )
      (ground arith)

pub port_lost :
    (n : ℕ) (low : List ℕ) (str : List ℕ) (at : ℕ) (u : UrlImpl) (e : RuntimeError)
    → AreLow low
    → drop at str ≡ span n low
    → parse_port str at u e ≡ fault
unfolding parse_port
port_lost n low str at u e l p =
    rw (p ∙ sym (append-nil (span n low)), span_scanned n low [] l) (unfold scan_port in refl)

-- The text that the constructor from parts makes.
abbrev pub made : Text → Text → ℕ → Text
made s h n = (of_parts s h (pos n)).string
