-- ===== src/Url/Totality.antt =====
-- That the parser of src/net/url.cpp comes to an end inside the memory it is given.
use taurus.Shared.{
  ℕ, zero, suc, ◌+◌, ◌-◌, ◌≡◌, refl, sym, subst, ap, ◌∙◌, inl, inr, Bool, true, false, Bool-cases,
  List, [], ◌∷◌, take, drop, codes, drop-add, ◌==◌, ltb, if◌then◌else◌, done, ◌>>=◌, Outcome, arith,
}
use taurus.Shared.Int.{ℤ, pos, negsuc}
use taurus.RuntimeError.{RuntimeError}
use taurus.Url.{
  UrlImpl, blank, parse_schema, parse_host, parse_port, parse_rest, parse_error, atoi, c_string,
  parse, of_string,
}
use taurus.Url.Scans.{
  HasStop, HasTerm, HasTerm-next, HasTerm-HasStop, scan_port_total, scan_schema_total,
  scan_host_total, two_slashes_total,
}

-- Where a part of the text was read to the end, the memory from there on still has its terminator.
abbrev Goes : (ℕ → List ℕ) → ℤ → Type 0
Goes rest (pos n) = HasTerm (rest n)
Goes rest (negsuc n) = Unit

parse_schema_total :
    (str : List ℕ) (u : UrlImpl) (e : RuntimeError)
    → HasTerm str
    → (r : ℤ × UrlImpl × RuntimeError) × (parse_schema str 0 u e ≡ done r)
      × Goes (λ n. drop (n + 1) str) (r.0)
unfolding parse_schema
parse_schema_total str u e h = elim (scan_schema_total str 0 h) [
  | inl none_ ↦ (
    (
      negsuc 0,
      u,
      parse_error (codes "URL parse schema error: ") str (codes "URL::URL_Impl::parse_schema") e,
    ),
    rw none_ refl,
    tt,
  )
  | inr (k, ran, rest) ↦ (
    (pos (0 + k), (if ltb 0 (0 + k) then record u { schema = take (0 + k) str } else u), e),
    rw ran refl,
    subst (λ j. HasTerm (drop j str)) {x = suc k} {y = 0 + k + 1} (omega arith) rest,
  )
]

parse_host_total :
    (str : List ℕ) (at : ℕ) (u : UrlImpl) (e : RuntimeError)
    → HasTerm (drop at str)
    → (r : ℤ × UrlImpl × RuntimeError) × (parse_host str at u e ≡ done r)
      × Goes (λ n. drop (at + n) str) (r.0)
unfolding parse_host
parse_host_total str at u e h = elim (two_slashes_total (drop at str) h) [
  | inl no_ ↦ (
    (
      negsuc 0,
      u,
      parse_error (codes "URL invalid host: ") str (codes "URL::URL_Impl::parse_host") e,
    ),
    rw no_ refl,
    tt,
  )
  | inr (both, rest) ↦
      let (k, ran, after) =
        scan_host_total (drop (at + 2) str) (pos 0) 2
          (subst HasTerm (sym (drop-add at 2 str)) rest) in
      (
        (pos (2 + k), record u { host = take (2 + k - 2) (drop (at + 2) str) }, e),
        rw (both, ran) refl,
        subst HasTerm
            (sym (drop-add (at + 2) k str) ∙ ap (λ j. drop j str) {y = at + (2 + k)} (omega arith))
            after,
      )
]

parse_port_total :
    (str : List ℕ) (at : ℕ) (u : UrlImpl) (e : RuntimeError)
    → HasStop (drop at str)
    → (r : ℤ × UrlImpl × RuntimeError) × (parse_port str at u e ≡ done r)
unfolding parse_port
parse_port_total str at u e h =
    let (n, ran) = scan_port_total (drop at str) 0 h in
    (
      (if ltb 0 n then (pos n, record u { port = atoi (drop at str) }, e) else (
        negsuc 0,
        u,
        parse_error (codes "URL invalid port: ") str (codes "URL::URL_Impl::parse_port") e,
      )),
      rw ran refl,
    )

read_total : (m : List ℕ) → HasTerm m → (c : ℕ) × (r : List ℕ) × (m ≡ c ∷ r) × HasStop r
read_total [] h = absurd h
read_total (c ∷ m) h = elim (HasTerm-HasStop (c ∷ m) h) [
  | inl high ↦ (c, m, refl, HasTerm-HasStop m (HasTerm-next c m h (ground arith)))
  | inr later ↦ (c, m, refl, later)
]

after_colon :
    (str r : List ℕ) (at c : ℕ) → drop at str ≡ c ∷ r → HasStop r → HasStop (drop (at + 1) str)
after_colon str r at c is h = subst HasStop (sym (drop-add at 1 str ∙ ap (drop 1) is)) h

parse_rest_from :
    (str rest : List ℕ) (n at c : ℕ) (u u2 : UrlImpl) (e e2 : RuntimeError) (m : ℤ)
    → drop at str ≡ c ∷ rest
    → parse_port str (at + 1) u e ≡ done (m, u2, e2)
    → (r : Bool × UrlImpl × RuntimeError) × (parse_rest str n at u e ≡ done r)
unfolding parse_rest
parse_rest_from str rest n at c u u2 e e2 m is ran = elim (Bool-cases (ltb 0 n)) [
  | inl some_ ↦ elim (Bool-cases (c == b':')) [
    | inl colon ↦ (
      (elim m [ pos _ ↦ true | negsuc _ ↦ false ], u2, e2),
      rw (parse_rest, some_, is, ◌>>=◌, colon, ran) refl,
    )
    | inr other ↦ ((true, u, e), rw (parse_rest, some_, is, ◌>>=◌, other) refl)
  ]
  | inr none_ ↦ ((true, u, e), rw (parse_rest, none_) refl)
]

parse_rest_total :
    (str : List ℕ) (n at : ℕ) (u : UrlImpl) (e : RuntimeError)
    → HasTerm (drop at str)
    → (r : Bool × UrlImpl × RuntimeError) × (parse_rest str n at u e ≡ done r)
parse_rest_total str n at u e h =
    let (c, rest, is, stop) = read_total (drop at str) h in
    let ((m, u2, e2), ran) =
      parse_port_total str (at + 1) u e (after_colon str rest at c is stop) in
    parse_rest_from str rest n at c u u2 e e2 m is ran

parse_total :
    (str : List ℕ) (u : UrlImpl) (e : RuntimeError)
    → HasTerm str
    → (r : Bool × UrlImpl × RuntimeError) × (parse str u e ≡ done r)
unfolding parse
parse_total str u e h =
    let ((n, u1, e1), ran, goes) = parse_schema_total str u e h in
    let (r, rest) = from_schema n u1 e1 goes in (r, rw ran rest)
  where
    from_host :
        (at : ℕ) (m : ℤ) (u2 : UrlImpl) (e2 : RuntimeError)
        → Goes (λ n. drop (at + n) str) m
        → (r : Bool × UrlImpl × RuntimeError) × (elim m
              as (λ _. Outcome (Bool × UrlImpl × RuntimeError)) [
                | pos m' ↦ parse_rest str m' (at + m') u2 e2
                | negsuc _ ↦ done (false, u2, e2)
              ]
            ≡ done r)
    from_host at (pos m) u2 e2 h = parse_rest_total str m (at + m) u2 e2 h
    from_host at (negsuc m) u2 e2 h = ((false, u2, e2), refl)

    from_schema :
        (n : ℤ) (u1 : UrlImpl) (e1 : RuntimeError)
        → Goes (λ n. drop (n + 1) str) n
        → (r : Bool × UrlImpl × RuntimeError) × (elim n
              as (λ _. Outcome (Bool × UrlImpl × RuntimeError)) [
                | pos (suc n') ↦ do
                  (m, u2, e2) ← parse_host str (suc n' + 1) u1 e1
                  elim m [
                    | pos m' ↦ parse_rest str m' (suc n' + 1 + m') u2 e2
                    | negsuc _ ↦ done (false, u2, e2)
                  ]
                | pos zero ↦ done (false, u1, e1)
                | negsuc _ ↦ done (false, u1, e1)
              ]
            ≡ done r)
    from_schema (pos zero) u1 e1 h = ((false, u1, e1), refl)
    from_schema (pos (suc n)) u1 e1 h =
        let ((m, u2, e2), ran, goes) = parse_host_total str (suc n + 1) u1 e1 h in
        let (r, rest) = from_host (suc n + 1) m u2 e2 goes in (r, rw ran rest)
    from_schema (negsuc n) u1 e1 h = ((false, u1, e1), refl)

-- URL(str, e) comes to an end inside the memory that it is given, whatever the text is, if it has a
-- terminator and behind that, where the loop over the port may run on, a byte above '9'.
pub of_string_total :
    (str : List ℕ) (e : RuntimeError)
    → HasTerm str
    → (u : UrlImpl) × (e' : RuntimeError) × (of_string str e ≡ done (u, e'))
unfolding of_string
of_string_total str e h =
    let ((ok, u, e1), ran) = parse_total str blank e h in
    ((if ok then record u { string = c_string str } else u), e1, rw ran refl)
