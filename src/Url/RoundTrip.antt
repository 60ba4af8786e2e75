-- ===== src/Url/RoundTrip.antt =====
-- A URL put together from its parts and parsed again (src/net/url.cpp).
use taurus.Shared.{
  ℕ, ◌<◌, ◌≡◌, refl, sym, ap, subst, ◌∙◌, true, List, [], ◌∷◌, ◌++◌, append_assoc, Text, Outcome,
  done, fault, digits,
}
use taurus.Shared.Int.{pos}
use taurus.RuntimeError.{RuntimeError}
use taurus.Url.{UrlImpl, blank, parse, contains, of_string}
use taurus.Url.Ports.{AreLow}
use taurus.Url.Walk.{HasNoColon, IsHostFrom, after_schema, parse_to_port}
use taurus.Url.Hosts.{
  IsPlain, IsLiteral, shown, plain-IsHostFrom, plain-shown, inside-IsHostFrom, literal-shown,
}
use taurus.Url.Texts.{
  HasNoNul, c_string_lem, string_lem, url_text-HasNoNul, url_text-memory, port_scanned, port_lost,
  made,
}

module _ (c : ℕ) (s : Text) (x : ℕ) (t : Text) (n : ℕ) (low : List ℕ) (e : RuntimeError) where
  made_memory :
      (m : List ℕ)
      → made (c ∷ s) (x ∷ t) n ++ 0 ∷ m
        ≡ (c ∷ s) ++ b':' ∷ after_schema (shown (x ∷ t)) (digits n ++ 0 ∷ m)
  made_memory m =
      ap (λ l. l ++ 0 ∷ m) (string_lem c s x t n) ∙ url_text-memory (c ∷ s) (shown (x ∷ t)) n m

  reparsed :
      (d : ℕ) (rest : List ℕ)
      → HasNoColon (c ∷ s)
      → IsHostFrom (pos 0) (shown (x ∷ t))
      → AreLow low
      → b'9' < d
      → of_string (made (c ∷ s) (x ∷ t) n ++ 0 ∷ (low ++ d ∷ rest)) e
        ≡ done (
          record {
            string = made (c ∷ s) (x ∷ t) n;
            schema = c ∷ s;
            host = shown (x ∷ t);
            port = pos n;
          },
          e,
        )
  unfolding of_string
  reparsed d rest hs hh l h = rw (
    parse_made,
    c_string_lem (made (c ∷ s) (x ∷ t) n) (low ++ d ∷ rest) (
        subst HasNoNul (sym (string_lem c s x t n))
          (url_text-HasNoNul (c ∷ s) (shown (x ∷ t)) n hs hh)),
  )
    where
      parse_made :
          parse (made (c ∷ s) (x ∷ t) n ++ 0 ∷ (low ++ d ∷ rest)) blank e
          ≡ done
              (true, record { string = []; schema = c ∷ s; host = shown (x ∷ t); port = pos n }, e)
      parse_made =
          let (at, at_port, eq) =
            parse_to_port c s (shown (x ∷ t)) (digits n ++ 0 ∷ (low ++ d ∷ rest)) blank e hs hh in
          rw (
            made_memory (low ++ d ∷ rest),
            eq,
            port_scanned n low rest d
                ((c ∷ s) ++ b':' ∷ after_schema (shown (x ∷ t)) (digits n ++ 0 ∷ (low ++ d ∷ rest)))
                at (record blank { schema = c ∷ s; host = shown (x ∷ t) }) e l h
                (at_port ∙ sym (append_assoc (digits n) (0 ∷ low) (d ∷ rest))),
          )

  lost :
      HasNoColon (c ∷ s)
      → IsHostFrom (pos 0) (shown (x ∷ t))
      → AreLow low
      → of_string (made (c ∷ s) (x ∷ t) n ++ 0 ∷ low) e ≡ fault
  unfolding of_string
  lost hs hh l =
      let (at, at_port, eq) =
        parse_to_port c s (shown (x ∷ t)) (digits n ++ 0 ∷ low) blank e hs hh in
      rw (
        made_memory low,
        eq,
        port_lost n low ((c ∷ s) ++ b':' ∷ after_schema (shown (x ∷ t)) (digits n ++ 0 ∷ low)) at
            (record blank { schema = c ∷ s; host = shown (x ∷ t) }) e l at_port,
      )

plain-shown-IsHostFrom : (x : ℕ) (t : Text) → IsPlain (x ∷ t) → IsHostFrom (pos 0) (shown (x ∷ t))
plain-shown-IsHostFrom x t hp =
    subst (IsHostFrom (pos 0)) (sym (plain-shown (x ∷ t) hp)) (plain-IsHostFrom (x ∷ t) hp)

literal-shown-IsHostFrom :
    (x : ℕ) (t : Text)
    → IsLiteral (x ∷ t)
    → contains b':' (x ∷ t) ≡ true
    → IsHostFrom (pos 0) (shown (x ∷ t))
literal-shown-IsHostFrom x t hl hc =
    subst (IsHostFrom (pos 0)) (sym (literal-shown (x ∷ t) hl hc))
      (refl, inside-IsHostFrom (x ∷ t) hl)

unfoldable parsed_as : Text → Text → ℕ → RuntimeError → Text → Outcome (UrlImpl × RuntimeError)
parsed_as s h n e host =
    done (record { string = made s h n; schema = s; host = host; port = pos n }, e)

-- A URL made of a schema, a host name or IPv4 address and a port, written by URL(schema, host, port)
-- and parsed by URL(str, e), gives back the text, the schema, the host and the port, and leaves the
-- error unchanged, if the bytes behind the terminator are zero to '9' for a while (they may be none)
-- and one above '9' that may be read follows them.
pub of_string-of_parts :
    (c : ℕ) (s : Text) (x : ℕ) (t : Text) (n : ℕ) (low : List ℕ) (d : ℕ) (rest : List ℕ)
    (e : RuntimeError)
    → HasNoColon (c ∷ s)
    → IsPlain (x ∷ t)
    → AreLow low
    → b'9' < d
    → of_string (made (c ∷ s) (x ∷ t) n ++ 0 ∷ (low ++ d ∷ rest)) e
      ≡ done (
        record { string = made (c ∷ s) (x ∷ t) n; schema = c ∷ s; host = x ∷ t; port = pos n },
        e,
      )
unfolding parsed_as
of_string-of_parts c s x t n low d rest e hs hp l h =
    reparsed c s x t n low e d rest hs (plain-shown-IsHostFrom x t hp) l h
    ∙ ap (parsed_as (c ∷ s) (x ∷ t) n e) (plain-shown (x ∷ t) hp)

-- An IPv6 address as the host comes back in the brackets that URL(schema, host, port) puts round it,
-- under the same conditions on the bytes behind the terminator.
pub of_string-literal :
    (c : ℕ) (s : Text) (x : ℕ) (t : Text) (n : ℕ) (low : List ℕ) (d : ℕ) (rest : List ℕ)
    (e : RuntimeError)
    → HasNoColon (c ∷ s)
    → IsLiteral (x ∷ t)
    → contains b':' (x ∷ t) ≡ true
    → AreLow low
    → b'9' < d
    → of_string (made (c ∷ s) (x ∷ t) n ++ 0 ∷ (low ++ d ∷ rest)) e
      ≡ done (
        record {
          string = made (c ∷ s) (x ∷ t) n;
          schema = c ∷ s;
          host = b'[' ∷ ((x ∷ t) ++ b']' ∷ []);
          port = pos n;
        },
        e,
      )
unfolding parsed_as
of_string-literal c s x t n low d rest e hs hl hc l h =
    reparsed c s x t n low e d rest hs (literal-shown-IsHostFrom x t hl hc) l h
    ∙ ap (parsed_as (c ∷ s) (x ∷ t) n e) (literal-shown (x ∷ t) hl hc)

-- The loop of parse_port passes the terminator: when every byte that may be read behind it lies
-- between zero and '9', or there is none, parsing the text of a URL with a port reads outside the
-- memory. The host is a host name or an IPv4 address.
pub of_string_reads_past_end :
    (c : ℕ) (s : Text) (x : ℕ) (t : Text) (n : ℕ) (low : List ℕ) (e : RuntimeError)
    → HasNoColon (c ∷ s)
    → IsPlain (x ∷ t)
    → AreLow low
    → of_string (made (c ∷ s) (x ∷ t) n ++ 0 ∷ low) e ≡ fault
of_string_reads_past_end c s x t n low e hs hp l =
    lost c s x t n low e hs (plain-shown-IsHostFrom x t hp) l
