-- ===== src/Wsgi/Chunked/Signs.antt =====
-- _read_chunked_body on a size line with a minus sign.
use gsyncio.Common.{
  ℕ, suc, ◌+◌, ◌-◌, ◌≤◌, ◌≡◌, refl, sym, ap, ◌∙◌, true, false, some, List, [], ◌∷◌, ◌++◌, arith,
  length, take, drop, All, negsuc, ok, append-nil,
}
use gsyncio.Wsgi.Chunked.{
  find_crlf, wait_line, wait_bytes, before_semicolon, more, read_data, read_sized, read_chunk,
}
use gsyncio.Wsgi.Hex.{parse_int16, strip, format_hex}
use gsyncio.Wsgi.Hex.{lstrip, rstrip, parse_digits, parse_unsigned, parse_signed, format_digits}
use gsyncio.Wsgi.Hex.Roundtrip.{IsDigit, format-IsDigit, rstrip_digits, parse-format, no_prefix}
use gsyncio.Wsgi.Chunked.Arrival.{find_crlf_behind}
use gsyncio.Wsgi.Chunked.Roundtrip.{before_semicolon_digits, line_read}

strip_minus : (xs : List ℕ) → All IsDigit xs → strip (45 ∷ xs) ≡ 45 ∷ xs
unfolding strip lstrip rstrip
strip_minus xs d = ground (arith, rstrip_digits xs d)

take_size : (xs ys : List ℕ) → take (length xs) (xs ++ ys) ≡ xs
take_size [] ys = refl
take_size (x ∷ xs) ys = ap (x ∷◌) (take_size xs ys)

drop_size : (xs ys : List ℕ) → drop (length xs + 2) (xs ++ 13 ∷ 10 ∷ ys) ≡ ys
drop_size [] ys = refl
drop_size (x ∷ xs) ys =
    let size : suc (length xs) + 2 ≡ suc (length xs + 2) = omega arith in
    ap (λ k. drop k (x ∷ (xs ++ 13 ∷ 10 ∷ ys))) size ∙ drop_size xs ys

minus_digits : (xs : List ℕ) → All IsDigit xs → before_semicolon (strip (45 ∷ xs)) ≡ 45 ∷ xs
unfolding before_semicolon
minus_digits xs d =
    ap before_semicolon (strip_minus xs d) ∙ ap (45 ∷◌) (before_semicolon_digits xs d)

minus_parsed :
    (n : ℕ) → parse_int16 (before_semicolon (strip (45 ∷ format_hex (suc n)))) ≡ some (negsuc n)
unfolding parse_int16 parse_signed parse_unsigned parse_digits format_hex
minus_parsed n =
    let xs = format_digits (suc (suc n)) (suc n) in
    let digits = format-IsDigit (suc (suc n)) (suc n) in
    let parsed : parse_digits 0 false xs ≡ some (suc n) =
      ap (parse_digits 0 false) (sym (append-nil xs))
      ∙ parse-format (suc (suc n)) (suc n) false [] (omega arith) in
    ap parse_int16 (minus_digits xs digits)
    ∙ (ap parse_signed (strip_minus xs digits) ∙ ground (arith, parsed, no_prefix xs digits))

find_minus :
    (xs ys : List ℕ)
    → All IsDigit xs
    → find_crlf (45 ∷ (xs ++ 13 ∷ 10 ∷ ys)) ≡ some (suc (length xs))
unfolding find_crlf
find_minus xs ys d = ground (arith, find_crlf_behind xs ys d)

line_waits :
    (idx : ℕ) (buf : List ℕ) (pieces : List (List ℕ))
    → find_crlf buf ≡ some idx
    → wait_line pieces buf ≡ ok (idx, buf, pieces)
unfolding wait_line
line_waits idx buf [] found = ground arith
line_waits idx buf (piece ∷ pieces) found = ground arith

bytes_wait : (buf : List ℕ) (pieces : List (List ℕ)) → wait_bytes 0 pieces buf ≡ (true, buf, pieces)
unfolding wait_bytes
bytes_wait buf [] = ground arith
bytes_wait buf (piece ∷ pieces) = ground arith

negative_data :
    (n m : ℕ) (buf body : List ℕ) (pieces : List (List ℕ))
    → length body ≤ m
    → read_sized m (some (negsuc (suc (suc n)))) pieces buf body
      ≡ more (drop (length buf - (n + 1)) buf) (body ++ take (length buf - (n + 3)) buf) pieces
unfolding read_sized read_data
negative_data n m buf body pieces le = ground (arith, bytes_wait buf pieces)

-- While the body is within its limit, a size line that says -(n + 3) is accepted: all but the last
-- n + 3 bytes of the buffer become data, and the last n + 1 bytes stay in the buffer.
pub negative_size_accepted :
    (n m : ℕ) (rest body : List ℕ) (pieces : List (List ℕ))
    → length body ≤ m
    → read_chunk m pieces (45 ∷ (format_hex (n + 3) ++ 13 ∷ 10 ∷ rest)) body
      ≡ more (drop (length rest - (n + 1)) rest) (body ++ take (length rest - (n + 3)) rest) pieces
unfolding format_hex
negative_size_accepted n m rest body pieces le =
    let digits = format-IsDigit (suc (n + 3)) (n + 3) in
    let xs = format_hex (n + 3) in
    let three : n + 3 ≡ suc (suc (suc n)) = omega arith in
    let buf = 45 ∷ (xs ++ 13 ∷ 10 ∷ rest) in
    let waited = line_waits (suc (length xs)) buf pieces (find_minus xs rest digits) in
    let size : parse_int16 (before_semicolon (strip (45 ∷ take (length xs) (xs ++ 13 ∷ 10 ∷ rest))))
        ≡ some (negsuc (suc (suc n))) =
      ap (λ l. parse_int16 (before_semicolon (strip (45 ∷ l)))) (take_size xs (13 ∷ 10 ∷ rest))
      ∙ (ap (λ k. parse_int16 (before_semicolon (strip (45 ∷ format_hex k)))) three
          ∙ minus_parsed (suc (suc n))) in
    line_read m (suc (length xs)) (some (negsuc (suc (suc n)))) pieces pieces buf buf body waited
      size
    ∙ (ap (λ b. read_sized m (some (negsuc (suc (suc n)))) pieces b body) (drop_size (45 ∷ xs) rest)
        ∙ negative_data n m rest body pieces le)
