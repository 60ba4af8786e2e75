-- ===== src/Url/Soundness.antt =====
-- That a text which the parser of src/net/url.cpp accepts has the form of a URL.
use taurus.Shared.{
  ℕ, zero, suc, ◌+◌, ◌-◌, ◌<◌, ◌≡◌, sym, ap, ap₂, subst, ◌∙◌, ◌⊎◌, inl, inr, true, false,
  Bool-cases, List, [], ◌∷◌, ◌++◌, length, take, drop, drop-add, take_append, take-append-drop,
  drop_append, ◌==◌, none, some, done, Outcome-cases, arith,
}
use taurus.Shared.Int.{ℤ, pos, negsuc}
use taurus.RuntimeError.{RuntimeError}
use taurus.Url.{
  UrlImpl, bracket, ends_host, scan_schema, scan_host, scan_port, two_slashes, parse_schema,
  parse_host, parse_port, parse_rest, atoi, parse,
}
use taurus.Url.Walk.{HasNoColon}

scan_schema_sound :
    (m : List ℕ) (n k : ℕ)
    → scan_schema m n ≡ done (some k)
    → (s rest : List ℕ) × (m ≡ s ++ b':' ∷ rest) × (k ≡ n + length s) × HasNoColon s
unfolding scan_schema
scan_schema_sound [] n k ran = absurd (ground arith)
scan_schema_sound (c ∷ m) n k ran = elim (Bool-cases (c == 0)) [
  | inl end ↦ absurd (ground arith)
  | inr other ↦ elim (Bool-cases (c == b':')) [
    | inl colon ↦ ([], m, ap (λ x. x ∷ m) (ground arith), ground arith, tt)
    | inr more ↦
        let (s, rest, is, count, clean) = scan_schema_sound m (n + 1) k (ground arith) in
        (c ∷ s, rest, ap (◌∷◌ c) is, omega arith, (λ q. ground arith, λ q. ground arith, clean))
  ]
]

scan_host_sound : (m : List ℕ) (b : ℤ) (n k : ℕ) → scan_host m b n ≡ done k → (j : ℕ) × (k ≡ n + j)
unfolding scan_host
scan_host_sound [] b n k ran = absurd (ground arith)
scan_host_sound (c ∷ m) b n k ran = elim (Bool-cases (ends_host c b)) [
  | inl ends ↦ (0, ground arith)
  | inr more ↦
      let (j, count) = scan_host_sound m (bracket c b) (n + 1) k (ground arith) in
      (suc j, omega arith)
]

two_slashes_sound : (m : List ℕ) → two_slashes m ≡ done true → (r : List ℕ) × (m ≡ b'/' ∷ b'/' ∷ r)
unfolding two_slashes
two_slashes_sound [] ran = absurd (ground arith)
two_slashes_sound (c ∷ []) ran = absurd (ground arith)
two_slashes_sound (c ∷ d ∷ m) ran = (m, ap₂ (λ x y. x ∷ y ∷ m) (ground arith) (ground arith))

parse_schema_sound :
    (str : List ℕ) (u u1 : UrlImpl) (e e1 : RuntimeError) (n : ℕ)
    → parse_schema str 0 u e ≡ done (pos (suc n), u1, e1)
    → (s rest : List ℕ) × (str ≡ s ++ b':' ∷ rest)
      × (suc n ≡ length s)
      × HasNoColon s
      × (u1 ≡ record u { schema = s })
      × (e1 ≡ e)
unfolding parse_schema
parse_schema_sound str u u1 e e1 n ran = elim (Outcome-cases (scan_schema str 0)) [
  | inl stops ↦ absurd (ground (arith, stops))
  | inr (inl strays) ↦ absurd (ground (arith, strays))
  | inr (inr (none, found)) ↦ absurd (ground (arith, found))
  | inr (inr (some k, found)) ↦
      let (s, rest, is, count, clean) = scan_schema_sound str 0 k found in
      let k_is : k ≡ suc n = ground (arith, found) in
      let made : u1 ≡ record u { schema = take k str } = ground (arith, found) in
      (
        s,
        rest,
        is,
        omega arith,
        clean,
        made
            ∙ ap (λ t. record u { schema = t })
                (ap (λ x. take x str) {y = length s} (omega arith)
                  ∙ ap (take (length s)) is
                  ∙ take_append s (b':' ∷ rest)),
        ground (arith, found),
      )
]

parse_host_sound :
    (str : List ℕ) (at m : ℕ) (u u2 : UrlImpl) (e e2 : RuntimeError)
    → parse_host str at u e ≡ done (pos m, u2, e2)
    → (h : List ℕ) × (rest : List ℕ) × (drop at str ≡ b'/' ∷ b'/' ∷ (h ++ rest))
      × (drop (at + m) str ≡ rest)
      × (0 < m)
      × (u2 ≡ record u { host = h })
      × (e2 ≡ e)
unfolding parse_host
parse_host_sound str at m u u2 e e2 ran = elim (Outcome-cases (two_slashes (drop at str))) [
  | inl stops ↦ absurd (ground (arith, stops))
  | inr (inl strays) ↦ absurd (ground (arith, strays))
  | inr (inr (false, found)) ↦ absurd (ground (arith, found))
  | inr (inr (true, found)) ↦ elim (Outcome-cases (scan_host (drop (at + 2) str) (pos 0) 2)) [
    | inl stops ↦ absurd (ground (arith, found, stops))
    | inr (inl strays) ↦ absurd (ground (arith, found, strays))
    | inr (inr (k, counted)) ↦
        let (r, is) = two_slashes_sound (drop at str) found in
        let (j, k_is) = scan_host_sound (drop (at + 2) str) (pos 0) 2 k counted in
        let m_is : m ≡ k = ground (arith, found, counted) in
        let made : u2 ≡ record u { host = take (k - 2) (drop (at + 2) str) } =
          ground (arith, found, counted) in
        let behind : drop (at + 2) str ≡ r = drop-add at 2 str ∙ ap (drop 2) is in
        (
          take j r,
          drop j r,
          is ∙ ap (λ x. b'/' ∷ b'/' ∷ x) (sym (take-append-drop j r)),
          drop-add at m str ∙ ap₂ drop {y = suc (suc j)} (omega arith) is,
          omega arith,
          made ∙ ap (λ t. record u { host = t }) (ap₂ take {y = j} (omega arith) behind),
          ground (arith, found, counted),
        )
  ]
]

parse_rest_sound :
    (str rest : List ℕ) (n at : ℕ) (u u' : UrlImpl) (e e' : RuntimeError)
    → 0 < n
    → drop at str ≡ rest
    → parse_rest str n at u e ≡ done (true, u', e')
    → (u'.schema ≡ u.schema)
      × (u'.host ≡ u.host)
      × ((u'.port ≡ u.port) ⊎ ((r : List ℕ) × (rest ≡ b':' ∷ r) × (u'.port ≡ atoi r)))
      × (e' ≡ e)
unfolding parse_rest parse_port
parse_rest_sound str [] n at u u' e e' h is ran = absurd (ground (arith, is))
parse_rest_sound str (c ∷ r) n at u u' e e' h is ran = elim (Bool-cases (c == b':')) [
  | inl colon ↦
      let behind : drop (at + 1) str ≡ r = drop-add at 1 str ∙ ap (drop 1) is in
      elim (Outcome-cases (scan_port (drop (at + 1) str) 0)) [
        | inl stops ↦ absurd (ground (arith, is, stops))
        | inr (inl strays) ↦ absurd (ground (arith, is, strays))
        | inr (inr (k, counted)) ↦ (
          ground (arith, is, counted),
          ground (arith, is, counted),
          inr (r, ap (λ x. x ∷ r) (ground arith), ground (arith, is, counted) ∙ ap atoi behind),
          ground (arith, is, counted),
        )
      ]
  | inr other ↦
      (ground (arith, is), ground (arith, is), inl (ground (arith, is)), ground (arith, is))
]

-- The parts put together
joined :
    (str s rest h rest2 : List ℕ) (n : ℕ)
    → str ≡ s ++ b':' ∷ rest
    → n ≡ length s
    → drop (n + 1) str ≡ b'/' ∷ b'/' ∷ (h ++ rest2)
    → str ≡ s ++ (b':' ∷ b'/' ∷ b'/' ∷ (h ++ rest2))
joined str s rest h rest2 n is count is2 = is ∙ ap (λ x. s ++ b':' ∷ x) (sym behind ∙ is2)
  where
    behind : drop (n + 1) str ≡ rest
    behind =
        ap₂ drop {y = length s + 1} (omega arith) is
        ∙ drop-add (length s) 1 (s ++ b':' ∷ rest)
        ∙ ap (drop 1) (drop_append s (b':' ∷ rest))

-- When parse accepts a text, the text is the schema that it stored, a colon, two slashes, the host
-- that it stored, and a rest. The schema is not empty and holds neither a colon nor a terminator,
-- the error object is as it was, and the port is the old one unless the rest starts with a colon
-- and the port is what atoi makes of the text behind it.
pub parse_sound :
    (str : List ℕ) (u u' : UrlImpl) (e e' : RuntimeError)
    → parse str u e ≡ done (true, u', e')
    → (rest : List ℕ) × (str ≡ u'.schema ++ (b':' ∷ b'/' ∷ b'/' ∷ (u'.host ++ rest)))
      × (0 < length u'.schema)
      × HasNoColon u'.schema
      × ((u'.port ≡ u.port) ⊎ ((r : List ℕ) × (rest ≡ b':' ∷ r) × (u'.port ≡ atoi r)))
      × (e' ≡ e)
unfolding parse
parse_sound str u u' e e' ran = elim (Outcome-cases (parse_schema str 0 u e)) [
  | inl stops ↦ absurd (ground (arith, stops))
  | inr (inl strays) ↦ absurd (ground (arith, strays))
  | inr (inr ((negsuc n, u1, e1), found)) ↦ absurd (ground (arith, found))
  | inr (inr ((pos zero, u1, e1), found)) ↦ absurd (ground (arith, found))
  | inr (inr ((pos (suc n), u1, e1), found)) ↦
      elim (Outcome-cases (parse_host str (suc n + 1) u1 e1)) [
        | inl stops ↦ absurd (ground (arith, found, stops))
        | inr (inl strays) ↦ absurd (ground (arith, found, strays))
        | inr (inr ((negsuc m, u2, e2), hosted)) ↦ absurd (ground (arith, found, hosted))
        | inr (inr ((pos m, u2, e2), hosted)) ↦
            let (s, rest, is, count, clean, u1_is, e1_is) =
              parse_schema_sound str u u1 e e1 n found in
            let (h, rest2, is2, from, some_, u2_is, e2_is) =
              parse_host_sound str (suc n + 1) m u1 u2 e1 e2 hosted in
            let (schema_is, host_is, port_is, e_is) =
              parse_rest_sound str rest2 m (suc n + 1 + m) u2 u' e2 e' some_ from
                (ground (arith, found, hosted)) in
            let schema_kept : u'.schema ≡ s =
              schema_is ∙ ap UrlImpl.schema u2_is ∙ ap UrlImpl.schema u1_is in
            let host_kept : u'.host ≡ h = host_is ∙ ap UrlImpl.host u2_is in
            (
              rest2,
              joined str s rest h rest2 (suc n) is count is2
                  ∙ ap₂ (λ a b. a ++ (b':' ∷ b'/' ∷ b'/' ∷ (b ++ rest2))) (sym schema_kept)
                      (sym host_kept),
              omega (arith, ap length schema_kept, count),
              subst HasNoColon (sym schema_kept) clean,
              elim port_is [
                | inl old ↦ inl (old ∙ ap UrlImpl.port u2_is ∙ ap UrlImpl.port u1_is)
                | inr new ↦ inr new
              ],
              e_is ∙ e2_is ∙ e1_is,
            )
      ]
]
