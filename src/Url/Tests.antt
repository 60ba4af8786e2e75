-- ===== src/Url/Tests.antt =====
-- The URL class of src/net/url.cpp on concrete texts.
use taurus.Shared.{
  ℕ, ◌<◌, List, ◌⊎◌, ◌≡◌, inl, inr, true, refl, [], ◌∷◌, ◌++◌, arith, codes, done, digits,
  digits_from, Option,
}
use taurus.Shared.Int.{pos, negsuc}
use taurus.RuntimeError.{RuntimeError, fresh, set, is_error}
use taurus.Url.{
  UrlImpl, blank, of_string, of_parts, parse, parse_schema, scan_schema, parse_error, c_string,
  two_slashes, parse_host, scan_host, parse_port, scan_port, parse_rest, atoi, signed_value,
  digits_value, define_string, need_brackets, contains,
}
use taurus.Url.Walk.{HasNoColon}
use taurus.Url.Soundness.{parse_sound}
use taurus.Url.Totality.{of_string_total}
use taurus.Url.Failures.{of_string_refuses}
use taurus.Url.Texts.{made}
use taurus.Url.RoundTrip.{of_string-of_parts, of_string-literal}

of_string-of_parts_example :
    of_string (made (b'h' ∷ []) (b'a' ∷ b'.' ∷ []) 80 ++ 0 ∷ b'7' ∷ b'A' ∷ []) fresh
    ≡ done (
      record {
        string = made (b'h' ∷ []) (b'a' ∷ b'.' ∷ []) 80;
        schema = b'h' ∷ [];
        host = b'a' ∷ b'.' ∷ [];
        port = pos 80;
      },
      fresh,
    )
of_string-of_parts_example =
    of_string-of_parts b'h' [] b'a' (b'.' ∷ []) 80 (b'7' ∷ []) b'A' [] fresh
      (omega arith, omega arith, tt)
      (
        omega arith,
        omega arith,
        omega arith,
        omega arith,
        omega arith,
        (omega arith, omega arith, omega arith, omega arith, omega arith, tt),
      )
      (omega arith, tt) (omega arith)

of_string-literal_example :
    of_string (made (b'h' ∷ []) (b':' ∷ b'1' ∷ []) 80 ++ 0 ∷ b'A' ∷ []) fresh
    ≡ done (
      record {
        string = made (b'h' ∷ []) (b':' ∷ b'1' ∷ []) 80;
        schema = b'h' ∷ [];
        host = b'[' ∷ b':' ∷ b'1' ∷ b']' ∷ [];
        port = pos 80;
      },
      fresh,
    )
unfolding contains
of_string-literal_example =
    of_string-literal b'h' [] b':' (b'1' ∷ []) 80 [] b'A' [] fresh (omega arith, omega arith, tt)
      (
        omega arith,
        omega arith,
        omega arith,
        omega arith,
        (omega arith, omega arith, omega arith, omega arith, tt),
      )
      refl tt (omega arith)

made_text : made (codes "http") (codes "::1") 8080 ≡ codes "http://[::1]:8080"
unfolding of_parts define_string need_brackets contains digits digits_from
made_text = refl

http_text :
    of_string (codes "http://taurus:80" ++ 0 ∷ 255 ∷ []) fresh
    ≡ done (
      record {
        string = codes "http://taurus:80";
        schema = codes "http";
        host = codes "taurus";
        port = pos 80;
      },
      fresh,
    )
unfolding of_string parse parse_schema scan_schema parse_host two_slashes scan_host parse_rest
    parse_port scan_port atoi signed_value digits_value c_string
http_text = refl

-- A text without a colon is reported.
no_colon :
    of_string (codes "taurus" ++ 0 ∷ []) fresh
    ≡ done (
      record { string = []; schema = []; host = []; port = negsuc 0 },
      set
          (negsuc 0)
          (codes "URL parse schema error: taurus")
          (Option.some (codes "URL::URL_Impl::parse_schema"))
          fresh,
    )
unfolding of_string parse parse_schema scan_schema parse_error c_string set
no_colon = refl

of_string_refuses_example :
    (of_string (b':' ∷ 0 ∷ []) fresh ≡ done (blank, fresh))
    × ((e' : RuntimeError) × (of_string ((b'h' ∷ []) ++ b':' ∷ b'/' ∷ b'a' ∷ 0 ∷ []) fresh
          ≡ done (record blank { schema = b'h' ∷ [] }, e'))
        × (is_error e' ≡ true))
of_string_refuses_example =
    of_string_refuses b'h' [] (0 ∷ []) b'/' b'a' fresh (omega arith, omega arith, tt)
      (inr (omega arith))

-- No port, and no text that the parser accepts, but a terminator with a letter behind it
of_string_total_example :
    (u : UrlImpl) × (e' : RuntimeError) × (of_string (codes "x:/y" ++ 0 ∷ b'A' ∷ []) fresh
      ≡ done (u, e'))
of_string_total_example = of_string_total (codes "x:/y" ++ 0 ∷ b'A' ∷ []) fresh (inl (omega arith))

abbrev short : List ℕ
short = codes "x://y:8" ++ 0 ∷ b'A' ∷ []

abbrev short_url : UrlImpl
short_url = record { string = []; schema = codes "x"; host = codes "y"; port = pos 8 }

short_parsed : parse short blank fresh ≡ done (true, short_url, fresh)
unfolding parse blank parse_schema scan_schema parse_host two_slashes scan_host parse_rest
    parse_port scan_port atoi signed_value digits_value
short_parsed = refl

parse_sound_example :
    (rest : List ℕ) × (short ≡ codes "x" ++ (b':' ∷ b'/' ∷ b'/' ∷ (codes "y" ++ rest)))
    × (0 < 1)
    × HasNoColon (codes "x")
    × ((pos 8 ≡ blank.port) ⊎ ((r : List ℕ) × (rest ≡ b':' ∷ r) × (pos 8 ≡ atoi r)))
    × (fresh ≡ fresh)
parse_sound_example = parse_sound short blank short_url fresh fresh short_parsed
