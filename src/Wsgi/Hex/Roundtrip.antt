-- ===== src/Wsgi/Hex/Roundtrip.antt =====
-- A chunk size that is written in the format `X` is read back.
use gsyncio.Common.{
  ℕ, zero, suc, ◌+◌, ◌*◌, ◌/◌, ◌%◌, ◌≤◌, ◌<◌, ◌≡◌, refl, sym, ap, ◌∙◌, ◌⊎◌, inl, inr, Bool, true,
  false, some, List, [], ◌∷◌, ◌++◌, ltb, arith, All, pos, append_assoc, append-nil, Bool-cases,
}
use gsyncio.Wsgi.Hex.{
  digit, format_digits, format_hex, lstrip, rstrip, strip, hex_value, parse_digits, has_prefix,
  parse_unsigned, parse_signed, parse_int16,
}

-- The digits that the format writes.
abbrev pub IsDigit : ℕ → Type 0
IsDigit b = ((48 ≤ b) × (b ≤ 57)) ⊎ ((65 ≤ b) × (b ≤ 70))

digit-IsDigit : (d : ℕ) → d < 16 → IsDigit (digit d)
digit-IsDigit d lt = ground arith

hex_value-digit : (d : ℕ) → d < 16 → hex_value (digit d) ≡ some d
hex_value-digit d lt = ground arith

format_small : (fuel n : ℕ) → n < 16 → format_digits (suc fuel) n ≡ digit n ∷ []
unfolding format_digits
format_small fuel n lt = ground arith

format_large :
    (fuel n : ℕ)
    → 16 ≤ n
    → format_digits (suc fuel) n ≡ format_digits fuel (n / 16) ++ digit (n % 16) ∷ []
unfolding format_digits
format_large fuel n le = ground arith

parse_digit :
    (acc d : ℕ) (after_digit : Bool) (rest : List ℕ)
    → d < 16
    → parse_digits acc after_digit (digit d ∷ rest) ≡ parse_digits (acc * 16 + d) true rest
unfolding parse_digits
parse_digit acc d after_digit rest lt = rw (hex_value-digit d lt, parse_digits) refl

pub parse-format :
    (fuel n : ℕ) (after_digit : Bool) (rest : List ℕ)
    → n < fuel
    → parse_digits 0 after_digit (format_digits fuel n ++ rest) ≡ parse_digits n true rest
parse-format zero n after_digit rest lt = absurd (omega arith)
parse-format (suc fuel) n after_digit rest lt = elim (Bool-cases (ltb n 16)) [
  | inl small ↦
      let lt16 : n < 16 = ground arith in
      rw (format_small fuel n lt16)
        (parse_digit 0 n after_digit rest lt16 ∙ ap (λ k. parse_digits k true rest) (omega arith))
  | inr large ↦
      let le16 : 16 ≤ n = ground arith in
      rw
        (
          format_large fuel n le16,
          append_assoc (format_digits fuel (n / 16)) (digit (n % 16) ∷ []) rest,
        )
        (parse-format fuel (n / 16) after_digit (digit (n % 16) ∷ rest) (omega arith)
          ∙ (parse_digit (n / 16) (n % 16) true rest (omega arith)
              ∙ ap (λ k. parse_digits k true rest) (omega arith)))
]

All-append : (xs ys : List ℕ) → All IsDigit xs → All IsDigit ys → All IsDigit (xs ++ ys)
All-append [] ys h k = k
All-append (x ∷ xs) ys h k = (h.0, All-append xs ys h.1 k)

pub format-IsDigit : (fuel n : ℕ) → All IsDigit (format_digits fuel n)
unfolding format_digits
format-IsDigit zero n = tt
format-IsDigit (suc fuel) n = elim (Bool-cases (ltb n 16)) [
  | inl small ↦
      let lt16 : n < 16 = ground arith in rw (format_small fuel n lt16) (digit-IsDigit n lt16, tt)
  | inr large ↦
      let le16 : 16 ≤ n = ground arith in
      rw (format_large fuel n le16) (
        All-append (format_digits fuel (n / 16)) (digit (n % 16) ∷ [])
          (format-IsDigit fuel (n / 16)) (digit-IsDigit (n % 16) (omega arith), tt))
]

pub rstrip_digits : (xs : List ℕ) → All IsDigit xs → rstrip xs ≡ xs
unfolding rstrip
rstrip_digits [] h = refl
rstrip_digits (x ∷ xs) h = ground (arith, rstrip_digits xs h.1, h.0)

pub strip_digits : (xs : List ℕ) → All IsDigit xs → strip xs ≡ xs
unfolding strip lstrip
strip_digits [] h = rstrip_digits [] h
strip_digits (x ∷ xs) h =
    let kept : lstrip (x ∷ xs) ≡ x ∷ xs = ground (arith, h.0) in
    ap rstrip kept ∙ rstrip_digits (x ∷ xs) h

pub no_prefix : (xs : List ℕ) → All IsDigit xs → has_prefix xs ≡ false
no_prefix [] h = refl
no_prefix (x ∷ []) h = refl
no_prefix (x ∷ y ∷ xs) h = ground (arith, h.1.0)

no_sign :
    (xs : List ℕ) (n : ℕ)
    → All IsDigit xs
    → parse_digits 0 false xs ≡ some n
    → parse_signed xs ≡ some (pos n)
unfolding parse_signed parse_unsigned parse_digits
no_sign [] n h e = absurd (ground arith)
no_sign (x ∷ xs) n h e = ground (arith, h.0, no_prefix (x ∷ xs) h)

-- Every size is read back from its format.
pub format_hex_roundtrip : (n : ℕ) → parse_int16 (format_hex n) ≡ some (pos n)
unfolding parse_int16 format_hex parse_digits
format_hex_roundtrip n =
    let digits = format-IsDigit (suc n) n in
    let parsed =
      ap (parse_digits 0 false) (sym (append-nil (format_hex n)))
      ∙ parse-format (suc n) n false [] (omega arith) in
    ap parse_signed (strip_digits (format_hex n) digits) ∙ no_sign (format_hex n) n digits parsed
