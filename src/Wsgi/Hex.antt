-- ===== src/Wsgi/Hex.antt =====
-- What src/multiloop/wsgi.py uses of Python for chunk sizes: the format `X`, `bytes.strip`, and
-- `int(text, 16)` on bytes.
pub mod Roundtrip
use gsyncio.Common.{
  ℕ, zero, suc, ◌+◌, ◌-◌, ◌*◌, ◌/◌, ◌%◌, ◌≤◌, ◌<◌, ◌≡◌, refl, sym, ap, ◌∙◌, ◌⊎◌, inl, inr, Bool,
  true, false, ◌&&◌, ◌||◌, Option, none, some, List, [], ◌∷◌, ◌++◌, if◌then◌else◌, ltb, leb, ◌==◌,
  arith, length, is_empty, All, ℤ, pos, negsuc, append_assoc, append-nil, Bool-cases,
}

abbrev pub digit : ℕ → ℕ
digit d = if ltb d 10 then 48 + d else 55 + d

-- `f"{n:X}"`, with more fuel than the number.
unfoldable pub format_digits : (fuel n : ℕ) → List ℕ
format_digits zero n = []
format_digits (suc fuel) n =
    let front = format_digits fuel (n / 16) in
    if ltb n 16 then digit n ∷ [] else front ++ digit (n % 16) ∷ []

unfoldable pub format_hex : ℕ → List ℕ
format_hex n = format_digits (suc n) n

-- `strip`
abbrev pub is_space : ℕ → Bool
is_space b = (b == 32) || (leb 9 b && leb b 13)

unfoldable pub lstrip : List ℕ → List ℕ
lstrip [] = []
lstrip (b ∷ bs) = let rest = lstrip bs in if is_space b then rest else b ∷ bs

unfoldable pub rstrip : List ℕ → List ℕ
rstrip [] = []
rstrip (b ∷ bs) = let rest = rstrip bs in if is_space b && is_empty rest then [] else b ∷ rest

unfoldable pub strip : List ℕ → List ℕ
strip bs = rstrip (lstrip bs)

abbrev pub hex_value : ℕ → Option ℕ
hex_value b =
    if leb 48 b && leb b 57
    then some (b - 48)
    else (if leb 65 b && leb b 70
        then some (b - 55)
        else (if leb 97 b && leb b 102 then some (b - 87) else none))

-- The digits, with single underscores between them.
unfoldable pub parse_digits : (acc : ℕ) (after_digit : Bool) → List ℕ → Option ℕ
parse_digits acc after_digit [] = if after_digit then some acc else none
parse_digits acc after_digit (b ∷ bs) =
    let gap = parse_digits acc false bs in
    elim (hex_value b) [
      | some v ↦ parse_digits (acc * 16 + v) true bs
      | none ↦ if (b == 95) && after_digit then gap else none
    ]

-- One underscore may follow the prefix `0x`.
abbrev pub skip_underscore : List ℕ → List ℕ
skip_underscore [] = []
skip_underscore (b ∷ bs) = if b == 95 then bs else b ∷ bs

abbrev pub has_prefix : List ℕ → Bool
has_prefix (b ∷ c ∷ bs) = (b == 48) && ((c == 120) || (c == 88))
has_prefix (b ∷ []) = false
has_prefix [] = false

abbrev pub after_prefix : List ℕ → List ℕ
after_prefix (b ∷ c ∷ bs) = skip_underscore bs
after_prefix (b ∷ []) = []
after_prefix [] = []

unfoldable pub parse_unsigned : List ℕ → Option ℕ
parse_unsigned bs = parse_digits 0 false (if has_prefix bs then after_prefix bs else bs)

abbrev pub negated : ℕ → ℤ
negated zero = pos zero
negated (suc n) = negsuc n

unfoldable pub parse_signed : List ℕ → Option ℤ
parse_signed [] = none
parse_signed (b ∷ bs) =
    if b == 45
    then elim (parse_unsigned bs) [ some n ↦ some (negated n) | none ↦ none ]
    else elim (parse_unsigned (if b == 43 then bs else b ∷ bs)) [
      | some n ↦ some (pos n)
      | none ↦ none
    ]

-- `int(bs, 16)`; none stands for the ValueError.
unfoldable pub parse_int16 : List ℕ → Option ℤ
parse_int16 bs = parse_signed (strip bs)
