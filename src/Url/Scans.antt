-- ===== src/Url/Scans.antt =====
-- That the loops of the parser in src/net/url.cpp come to an end inside the memory they are given.
use taurus.Shared.{
  ℕ, suc, ◌+◌, ◌<◌, ◌≡◌, subst, ap, ◌∙◌, ◌⊎◌, inl, inr, true, false, Bool-cases, List, [], ◌∷◌,
  drop, ◌==◌, leb, none, some, done, arith,
}
use taurus.Shared.Int.{ℤ}
use taurus.Url.{bracket, ends_host, scan_schema, scan_host, scan_port, two_slashes}

-- The memory has a byte above '9'.
abbrev pub HasStop : List ℕ → Type 0
HasStop [] = ⊥
HasStop (c ∷ m) = (b'9' < c) ⊎ HasStop m

-- The memory has a terminator, and a byte above '9' behind the first one.
abbrev pub HasTerm : List ℕ → Type 0
HasTerm [] = ⊥
HasTerm (c ∷ m) = elim (c == 0) [ true ↦ HasStop m | false ↦ HasTerm m ]

pub HasTerm-next : (c : ℕ) (m : List ℕ) → HasTerm (c ∷ m) → (c == 0) ≡ false → HasTerm m
HasTerm-next c m h other =
    subst (λ b. elim b as (λ _. Type 0) [ true ↦ HasStop m | false ↦ HasTerm m ]) other h

pub HasTerm-HasStop : (m : List ℕ) → HasTerm m → HasStop m
HasTerm-HasStop [] h = h
HasTerm-HasStop (c ∷ m) h = elim (Bool-cases (c == 0)) [
  | inl end ↦
      inr (subst (λ b. elim b as (λ _. Type 0) [ true ↦ HasStop m | false ↦ HasTerm m ]) end h)
  | inr other ↦ inr (HasTerm-HasStop m (HasTerm-next c m h other))
]

pub scan_port_total : (m : List ℕ) (n : ℕ) → HasStop m → (k : ℕ) × (scan_port m n ≡ done k)
unfolding scan_port
scan_port_total [] n h = absurd h
scan_port_total (c ∷ m) n (inl high) = (n, ground arith)
scan_port_total (c ∷ m) n (inr later) = elim (Bool-cases (leb c b'9')) [
  | inl low ↦ rw low (scan_port_total m (n + 1) later)
  | inr high ↦ (n, rw high)
]

pub scan_schema_total :
    (m : List ℕ) (n : ℕ)
    → HasTerm m
    → (scan_schema m n ≡ done none)
      ⊎ ((k : ℕ) × (scan_schema m n ≡ done (some (n + k))) × HasTerm (drop (suc k) m))
unfolding scan_schema
scan_schema_total [] n h = absurd h
scan_schema_total (c ∷ m) n h = elim (Bool-cases (c == 0)) [
  | inl end ↦ inl (rw end)
  | inr other ↦ elim (Bool-cases (c == b':')) [
    | inl colon ↦
        inr (0, rw (other, colon) (ap (λ k. done (some k)) (omega arith)), HasTerm-next c m h other)
    | inr more ↦
        rw (other, more)
          (elim (scan_schema_total m (n + 1) (HasTerm-next c m h other)) [
            | inl no_colon ↦ inl no_colon
            | inr (k, ran, rest) ↦ inr (suc k, ran ∙ ap (λ k. done (some k)) (omega arith), rest)
          ])
  ]
]

pub scan_host_total :
    (m : List ℕ) (b : ℤ) (n : ℕ)
    → HasTerm m
    → (k : ℕ) × (scan_host m b n ≡ done (n + k)) × HasTerm (drop k m)
unfolding scan_host
scan_host_total [] b n h = absurd h
scan_host_total (c ∷ m) b n h = elim (Bool-cases (ends_host c b)) [
  | inl ends ↦ (0, rw ends (ap done (omega arith)), h)
  | inr more ↦
      let (k, ran, rest) =
        scan_host_total m (bracket c b) (n + 1) (HasTerm-next c m h (ground arith)) in
      (suc k, rw more (ran ∙ ap done (omega arith)), rest)
]

pub two_slashes_total :
    (m : List ℕ)
    → HasTerm m
    → (two_slashes m ≡ done false) ⊎ ((two_slashes m ≡ done true) × HasTerm (drop 2 m))
unfolding two_slashes
two_slashes_total [] h = absurd h
two_slashes_total (c ∷ m) h = elim (Bool-cases (c == b'/')) [
  | inl first ↦ second m (HasTerm-next c m h (ground arith)) first
  | inr other ↦ inl (ground arith)
]
  where
    second :
        (m : List ℕ)
        → HasTerm m
        → (c == b'/') ≡ true
        → (two_slashes (c ∷ m) ≡ done false)
          ⊎ ((two_slashes (c ∷ m) ≡ done true) × HasTerm (drop 1 m))
    second [] h first = absurd h
    second (d ∷ m) h first = elim (Bool-cases (d == b'/')) [
      | inl again ↦ inr (ground arith, HasTerm-next d m h (ground arith))
      | inr other ↦ inl (ground arith)
    ]
