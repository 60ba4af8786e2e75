-- ===== src/Url/Ports.antt =====
-- Decimal numbers between `oss<<m_port` and atoi (src/net/url.cpp).
use taurus.Shared.{
  ℕ, zero, suc, ◌+◌, ◌/◌, ◌%◌, ◌≤◌, ◌<◌, ◌≡◌, ap, ◌∙◌, Bool-cases, inl, inr, true, false, List, [],
  ◌∷◌, ◌++◌, length, append_assoc, ltb, arith, digits, digits_from,
}
use taurus.Shared.Int.{pos}
use taurus.Url.{is_digit, digits_value, signed_value, atoi, scan_port}

digits_value-digits_from :
    (f n : ℕ) (m : List ℕ) → n < f → digits_value 0 (digits_from f n ++ m) ≡ digits_value n m
unfolding digits_from digits_value
digits_value-digits_from zero n m h = absurd (omega arith)
digits_value-digits_from (suc f) n m h = elim (Bool-cases (ltb n 10)) [
  | inl small ↦ ground arith
  | inr big ↦ ground (
    arith,
    append_assoc (digits_from f (n / 10)) ((b'0' + n % 10) ∷ []) m,
    digits_value-digits_from f (n / 10) ((b'0' + n % 10) ∷ m),
  )
]

-- A printed number begins with a digit.
digits_from-cons :
    (f n : ℕ) → n < f → (d : ℕ) × (ds : List ℕ) × (digits_from f n ≡ d ∷ ds) × (is_digit d ≡ true)
unfolding digits_from
digits_from-cons zero n h = absurd (omega arith)
digits_from-cons (suc f) n h = elim (Bool-cases (ltb n 10)) [
  | inl small ↦ (b'0' + n, [], rw small, ground arith)
  | inr big ↦
      let (d, ds, e, isd) = digits_from-cons f (n / 10) (ground arith) in
      (d, ds ++ (b'0' + n % 10) ∷ [], rw (big, e), isd)
]

atoi_of_digit :
    (d : ℕ) (m : List ℕ) → is_digit d ≡ true → atoi (d ∷ m) ≡ pos (digits_value 0 (d ∷ m))
unfolding atoi signed_value
atoi_of_digit d m h = ground arith

atoi_of_digits :
    (l m : List ℕ) (d : ℕ) (ds : List ℕ)
    → l ≡ d ∷ ds
    → is_digit d ≡ true
    → atoi (l ++ m) ≡ pos (digits_value 0 (l ++ m))
atoi_of_digits l m d ds e isd = rw e (atoi_of_digit d (ds ++ m) isd)

digits_value_stop : (n c : ℕ) (m : List ℕ) → is_digit c ≡ false → digits_value n (c ∷ m) ≡ n
unfolding digits_value
digits_value_stop n c m h = rw h

-- atoi() reads back the number that the stream printed, whatever follows it, if that is no digit.
pub atoi-digits : (n c : ℕ) (m : List ℕ) → is_digit c ≡ false → atoi (digits n ++ c ∷ m) ≡ pos n
unfolding digits
atoi-digits n c m h =
    let (d, ds, e, isd) = digits_from-cons (suc n) n (omega arith) in
    atoi_of_digits (digits_from (suc n) n) (c ∷ m) d ds e isd
    ∙ ap pos (digits_value-digits_from (suc n) n (c ∷ m) (omega arith) ∙ digits_value_stop n c m h)

-- Bytes over which the loop of parse_port runs on.
abbrev pub AreLow : List ℕ → Type 0
AreLow [] = Unit
AreLow (c ∷ m) = (c ≤ b'9') × AreLow m

pub AreLow-append : (xs ys : List ℕ) → AreLow xs → AreLow ys → AreLow (xs ++ ys)
AreLow-append [] ys h k = k
AreLow-append (x ∷ xs) ys h k = (h.0, AreLow-append xs ys h.1 k)

digits_from-AreLow : (f n : ℕ) → AreLow (digits_from f n)
unfolding digits_from
digits_from-AreLow zero n = tt
digits_from-AreLow (suc f) n = elim (Bool-cases (ltb n 10)) [
  | inl small ↦ rw small (ground arith, tt)
  | inr big ↦ rw big (
      AreLow-append (digits_from f (n / 10)) ((b'0' + n % 10) ∷ []) (digits_from-AreLow f (n / 10))
        (omega arith, tt))
]

pub digits-AreLow : (n : ℕ) → AreLow (digits n)
unfolding digits
digits-AreLow n = digits_from-AreLow (suc n) n

pub scan_port-AreLow :
    (low m : List ℕ) (n : ℕ) → AreLow low → scan_port (low ++ m) n ≡ scan_port m (n + length low)
unfolding scan_port
scan_port-AreLow [] m n h = ap (scan_port m) (omega arith)
scan_port-AreLow (c ∷ low) m n h = ground (arith, scan_port-AreLow low m (n + 1) h.1)
