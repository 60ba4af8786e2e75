-- ===== src/Url/Walk.antt =====
-- The way of a well-formed URL through the parser (src/net/url.cpp).
use taurus.Shared.{
  ℕ, suc, ◌+◌, ◌-◌, ◌<◌, ◌≡◌, refl, ap, ◌∙◌, ◌≢◌, true, false, List, [], ◌∷◌, ◌++◌, length, take,
  drop, take_append, drop_append, drop-add, lt→ltb, some, arith, Text, done, ◌>>=◌,
}
use taurus.Shared.Int.{ℤ, pos, negsuc}
use taurus.RuntimeError.{RuntimeError}
use taurus.Url.{
  UrlImpl, scan_schema, parse_schema, bracket, ends_host, scan_host, two_slashes, parse_host,
  parse_port, parse_rest, parse,
}

-- A schema has characters, none of them a colon.
abbrev pub HasNoColon : Text → Type 0
HasNoColon [] = Unit
HasNoColon (c ∷ t) = (c ≢ 0) × (c ≢ b':') × HasNoColon t

scan_schema_lem :
    (s m : List ℕ) (n : ℕ)
    → HasNoColon s
    → scan_schema (s ++ b':' ∷ m) n ≡ done (some (n + length s))
unfolding scan_schema
scan_schema_lem [] m n h = ground arith
scan_schema_lem (c ∷ s) m n h = ground (arith, scan_schema_lem s m (n + 1) h.2)

scan_schema_start :
    (s m : List ℕ) → HasNoColon s → scan_schema (s ++ b':' ∷ m) 0 ≡ done (some (length s))
scan_schema_start s m h =
    scan_schema_lem s m 0 h ∙ ap (λ k. done (some k)) {y = length s} (omega arith)

pub parse_schema_lem :
    (c : ℕ) (s m : List ℕ) (u : UrlImpl) (e : RuntimeError)
    → HasNoColon (c ∷ s)
    → parse_schema ((c ∷ s) ++ b':' ∷ m) 0 u e
      ≡ done (pos (suc (length s)), record u { schema = c ∷ s }, e)
unfolding parse_schema
parse_schema_lem c s m u e h =
    rw (scan_schema_start (c ∷ s) m h) (ground (arith, take_append s (b':' ∷ m)))

-- What the loop of parse_host runs over from bracket depth `b`, to end outside brackets.
abbrev pub IsHostFrom : ℤ → Text → Type 0
IsHostFrom b [] = b ≡ pos 0
IsHostFrom b (c ∷ t) = (ends_host c b ≡ false) × IsHostFrom (bracket c b) t

scan_host_lem :
    (h : Text) (b : ℤ) (c : ℕ) (m : List ℕ) (n : ℕ)
    → IsHostFrom b h
    → ends_host c (pos 0) ≡ true
    → scan_host (h ++ c ∷ m) b n ≡ done (n + length h)
unfolding scan_host
scan_host_lem [] b c m n p q = rw (p, q) (ap done (omega arith))
scan_host_lem (x ∷ h) b c m n p q =
    rw (p.0) (scan_host_lem h (bracket x b) c m (n + 1) p.1 q ∙ ap done (omega arith))

two_slashes-true : (m : List ℕ) → two_slashes (b'/' ∷ b'/' ∷ m) ≡ done true
unfolding two_slashes
two_slashes-true m = refl

parse_host_lem :
    (str : List ℕ) (at : ℕ) (h : Text) (c : ℕ) (m : List ℕ) (u : UrlImpl) (e : RuntimeError)
    → drop at str ≡ b'/' ∷ b'/' ∷ (h ++ c ∷ m)
    → IsHostFrom (pos 0) h
    → ends_host c (pos 0) ≡ true
    → parse_host str at u e ≡ done (pos (2 + length h), record u { host = h }, e)
unfolding parse_host
parse_host_lem str at h c m u e p q r =
    rw (p, two_slashes-true (h ++ c ∷ m), after, scan_host_lem h (pos 0) c m 2 q r)
      (ap (λ t. done (pos (2 + length h), record u { host = t }, e)) taken)
  where
    after : drop (at + 2) str ≡ h ++ c ∷ m
    after = drop-add at 2 str ∙ ap (drop 2) p

    taken : take (2 + length h - 2) (h ++ c ∷ m) ≡ h
    taken = ap (λ k. take k (h ++ c ∷ m)) {y = length h} (omega arith) ∙ take_append h (c ∷ m)

-- The text behind the schema of a URL with a port.
abbrev pub after_schema : Text → List ℕ → List ℕ
after_schema h m = b'/' ∷ b'/' ∷ (h ++ b':' ∷ m)

parse_rest_lem :
    (str : List ℕ) (n at : ℕ) (m : List ℕ) (u : UrlImpl) (e : RuntimeError)
    → drop at str ≡ b':' ∷ m
    → 0 < n
    → parse_rest str n at u e ≡ (do
      (k, u2, e2) ← parse_port str (at + 1) u e
      done (elim k [ pos _ ↦ true | negsuc _ ↦ false ], u2, e2))
unfolding parse_rest
parse_rest_lem str n at m u e p q = rw (p, lt→ltb 0 n q)

-- parse comes to parse_port with the schema and the host set, if the port's text follows them.
pub parse_to_port :
    (c : ℕ) (s h : Text) (m : List ℕ) (u : UrlImpl) (e : RuntimeError)
    → HasNoColon (c ∷ s)
    → IsHostFrom (pos 0) h
    → let str = (c ∷ s) ++ b':' ∷ after_schema h m in
      (at : ℕ) × (drop at str ≡ m)
      × (parse str u e ≡ (do
        (k, u2, e2) ← parse_port str at (record u { schema = c ∷ s; host = h }) e
        done (elim k [ pos _ ↦ true | negsuc _ ↦ false ], u2, e2)))
unfolding parse
parse_to_port c s h m u e hs hh = (
  at,
  m_at,
  rw
      (
        parse_schema_lem c s (after_schema h m) u e hs,
        parse_host_lem str (suc (length s) + 1) h b':' m (record u { schema = c ∷ s }) e slashes_at
            hh refl,
      )
      (parse_rest_lem str (2 + length h) (suc (length s) + 1 + (2 + length h)) m
        (record u { schema = c ∷ s; host = h }) e colon_at (omega arith)),
)
  where
    str : List ℕ
    str = (c ∷ s) ++ b':' ∷ after_schema h m

    at : ℕ
    at = suc (length s) + 1 + (2 + length h) + 1

    slashes_at : drop (suc (length s) + 1) str ≡ after_schema h m
    slashes_at =
        drop-add (suc (length s)) 1 str
        ∙ ap (drop 1) (drop_append (c ∷ s) (b':' ∷ after_schema h m))

    colon_at : drop (suc (length s) + 1 + (2 + length h)) str ≡ b':' ∷ m
    colon_at =
        drop-add (suc (length s) + 1) (2 + length h) str
        ∙ ap (drop (2 + length h)) slashes_at
        ∙ drop-add 2 (length h) (after_schema h m)
        ∙ drop_append h (b':' ∷ m)

    m_at : drop at str ≡ m
    m_at = drop-add (suc (length s) + 1 + (2 + length h)) 1 str ∙ ap (drop 1) colon_at
