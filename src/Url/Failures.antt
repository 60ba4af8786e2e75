-- ===== src/Url/Failures.antt =====
-- Texts that the parser of src/net/url.cpp refuses.
use taurus.Shared.{
  ℕ, suc, ◌+◌, ◌≡◌, ◌≢◌, refl, ◌∙◌, ap, true, false, List, ◌∷◌, ◌++◌, length, drop, drop_append,
  drop-add, ◌⊎◌, done, arith, Text, codes,
}
use taurus.Kernel.{minus_one}
use taurus.RuntimeError.{RuntimeError, is_error}
use taurus.Url.{
  UrlImpl, blank, parse_schema, scan_schema, parse_host, two_slashes, parse_error, parse, of_string,
}
use taurus.Url.Walk.{HasNoColon, parse_schema_lem}

parse_error-is_error :
    (what : Text) (str : List ℕ) (hint : Text) (e : RuntimeError)
    → is_error (parse_error what str hint e) ≡ true
unfolding parse_error is_error
parse_error-is_error what str hint e = refl

two_slashes-false :
    (x y : ℕ) (m : List ℕ) → (x ≢ b'/') ⊎ (y ≢ b'/') → two_slashes (x ∷ y ∷ m) ≡ done false
unfolding two_slashes
two_slashes-false x y m h = ground arith

host_refused :
    (str : List ℕ) (at x y : ℕ) (m : List ℕ) (u : UrlImpl) (e : RuntimeError)
    → drop at str ≡ x ∷ y ∷ m
    → (x ≢ b'/') ⊎ (y ≢ b'/')
    → parse_host str at u e
      ≡ done (
        minus_one,
        u,
        parse_error (codes "URL invalid host: ") str (codes "URL::URL_Impl::parse_host") e,
      )
unfolding parse_host
host_refused str at x y m u e p h = rw (p, two_slashes-false x y m h)

empty_schema : (m : List ℕ) (e : RuntimeError) → of_string (b':' ∷ m) e ≡ done (blank, e)
unfolding of_string parse parse_schema scan_schema
empty_schema m e = refl

-- Without a schema, or without the two slashes behind it, URL(str, e) makes a URL whose text, host
-- and port are those of an empty one. The error object reports the missing slashes; of an empty
-- schema it says nothing, it is as it was. (`m` is the memory behind the colon.)
pub of_string_refuses :
    (c : ℕ) (s m : List ℕ) (x y : ℕ) (e : RuntimeError)
    → HasNoColon (c ∷ s)
    → ((x ≢ b'/') ⊎ (y ≢ b'/'))
    → (of_string (b':' ∷ m) e ≡ done (blank, e))
      × ((e' : RuntimeError) × (of_string ((c ∷ s) ++ b':' ∷ x ∷ y ∷ m) e
            ≡ done (record blank { schema = c ∷ s }, e'))
          × (is_error e' ≡ true))
unfolding of_string parse
of_string_refuses c s m x y e h no_slashes = (
  empty_schema m e,
  (
    parse_error (codes "URL invalid host: ") str (codes "URL::URL_Impl::parse_host") e,
    rw (
      parse_schema_lem c s (x ∷ y ∷ m) blank e h,
      host_refused str (suc (length s) + 1) x y m (record blank { schema = c ∷ s }) e
          (drop-add (suc (length s)) 1 str ∙ ap (drop 1) (drop_append (c ∷ s) (b':' ∷ x ∷ y ∷ m)))
          no_slashes,
    ),
    parse_error-is_error (codes "URL invalid host: ") str (codes "URL::URL_Impl::parse_host") e,
  ),
)
  where
    str : List ℕ
    str = (c ∷ s) ++ b':' ∷ x ∷ y ∷ m
