-- ===== src/Wsgi/Chunked.antt =====
-- src/multiloop/wsgi.py, _read_chunked_body, and the chunks that the response's writer makes. A
-- reader is what its reads of 4096 bytes give; an empty piece is the end, and so is the list's end.
pub mod Arrival
pub mod Roundtrip
pub mod Fuel
pub mod Signs
use gsyncio.Common.{
  ℕ, zero, suc, ◌+◌, ◌-◌, Bool, true, false, ◌&&◌, ◌||◌, Option, none, some, List, [], ◌∷◌, ◌++◌,
  if◌then◌else◌, ltb, leb, ◌==◌, length, take, drop, is_empty, ℤ, pos, negsuc, value_error,
  other_error, Result, ok, err, Exception,
}
use gsyncio.Wsgi.Hex.{format_hex, strip, parse_int16}

-- `buf.find(b"\r\n")`
abbrev pub starts_with : ℕ → List ℕ → Bool
starts_with b [] = false
starts_with b (x ∷ xs) = b == x

unfoldable pub find_crlf : List ℕ → Option ℕ
find_crlf [] = none
find_crlf (x ∷ xs) =
    let later = find_crlf xs in
    if (x == 13) && starts_with 10 xs
    then some 0
    else elim later [ none ↦ none | some i ↦ some (suc i) ]

-- The loop that waits for a line; a ConnectionResetError at the end of the stream.
unfoldable pub wait_line :
    (pieces : List (List ℕ)) (buf : List ℕ) → Result (ℕ × List ℕ × List (List ℕ))
wait_line [] buf = elim (find_crlf buf) [ some idx ↦ ok (idx, buf, []) | none ↦ err other_error ]
wait_line (piece ∷ pieces) buf =
    let rest = wait_line pieces (buf ++ piece) in
    elim (find_crlf buf) [
      | some idx ↦ ok (idx, buf, piece ∷ pieces)
      | none ↦ if is_empty piece then err other_error else rest
    ]

-- `while len(buf) < size`, where the end of the stream ends the loop: true if it was not reached.
unfoldable pub wait_bytes :
    (size : ℕ) (pieces : List (List ℕ)) (buf : List ℕ) → Bool × List ℕ × List (List ℕ)
wait_bytes size [] buf = (leb size (length buf), buf, [])
wait_bytes size (piece ∷ pieces) buf =
    let rest = wait_bytes size pieces (buf ++ piece) in
    if leb size (length buf)
    then (true, buf, piece ∷ pieces)
    else (if is_empty piece then (false, buf, pieces) else rest)

-- `strip().split(b";")[0]`
unfoldable pub before_semicolon : List ℕ → List ℕ
before_semicolon [] = []
before_semicolon (b ∷ bs) = let rest = before_semicolon bs in if b == 59 then [] else b ∷ rest

-- `buf[:k]` and `del buf[:k]`
abbrev pub slice_to : ℤ → List ℕ → List ℕ
slice_to (pos n) bs = take n bs
slice_to (negsuc n) bs = take (length bs - suc n) bs

abbrev pub slice_from : ℤ → List ℕ → List ℕ
slice_from (pos n) bs = drop n bs
slice_from (negsuc n) bs = drop (length bs - suc n) bs

-- `chunk_len + 2`
abbrev pub plus_two : ℤ → ℤ
plus_two (pos n) = pos (n + 2)
plus_two (negsuc zero) = pos 1
plus_two (negsuc (suc zero)) = pos 0
plus_two (negsuc (suc (suc n))) = negsuc n

-- The bytes that a negative number asks for are none.
abbrev pub to_ℕ : ℤ → ℕ
to_ℕ (pos n) = n
to_ℕ (negsuc n) = 0

-- `len(body) + chunk_len > self.max_request_body`
abbrev pub too_large : (max_request_body : ℕ) (size : ℕ) → ℤ → Bool
too_large max_request_body size (pos n) = ltb max_request_body (size + n)
too_large max_request_body size (negsuc n) = ltb (max_request_body + suc n) size

-- The buffer, the body and the reader after one round, or the end of the body.
pub data Round : Type 0 where
  more : (buf body : List ℕ) (pieces : List (List ℕ)) → Round
  complete : (body : List ℕ) (pieces : List (List ℕ)) → Round
  failed : Exception → Round

-- The data of a chunk behind its size line.
unfoldable pub read_data :
    (max_request_body : ℕ) (chunk_len : ℤ) (pieces : List (List ℕ)) (buf body : List ℕ) → Round
read_data max_request_body chunk_len pieces buf body =
    let (there, buf', pieces') = wait_bytes (to_ℕ (plus_two chunk_len)) pieces buf in
    if there
    then (if too_large max_request_body (length body) chunk_len
        then failed value_error
        else more (slice_from (plus_two chunk_len) buf') (body ++ slice_to chunk_len buf') pieces')
    else failed other_error

unfoldable pub read_sized :
    (max_request_body : ℕ) → Option ℤ → (pieces : List (List ℕ)) (buf body : List ℕ) → Round
read_sized max_request_body none pieces buf body = failed value_error
read_sized max_request_body (some (pos zero)) pieces buf body =
    complete body (wait_bytes 2 pieces buf).2
read_sized max_request_body (some (pos (suc n))) pieces buf body =
    read_data max_request_body (pos (suc n)) pieces buf body
read_sized max_request_body (some (negsuc n)) pieces buf body =
    read_data max_request_body (negsuc n) pieces buf body

-- One round of the outer loop.
unfoldable pub read_chunk :
    (max_request_body : ℕ) (pieces : List (List ℕ)) (buf body : List ℕ) → Round
read_chunk max_request_body pieces buf body = elim (wait_line pieces buf) [
  | err e ↦ failed e
  | ok (idx, buf', pieces') ↦
      read_sized max_request_body (parse_int16 (before_semicolon (strip (take idx buf')))) pieces'
        (drop (idx + 2) buf') body
]

-- `_read_chunked_body`, with what the reader has left; none if the fuel is not enough.
unfoldable pub read_chunked_body :
    (fuel max_request_body : ℕ) (pieces : List (List ℕ)) (buf body : List ℕ)
    → Option (Result (List ℕ × List (List ℕ)))
read_chunked_body zero max_request_body pieces buf body = none
read_chunked_body (suc fuel) max_request_body pieces buf body =
    elim (read_chunk max_request_body pieces buf body) [
      | more buf' body' pieces' ↦ read_chunked_body fuel max_request_body pieces' buf' body'
      | complete body' pieces' ↦ some (ok (body', pieces'))
      | failed e ↦ some (err e)
    ]

-- A chunk as the response's writer makes it, and the end of its chunks.
unfoldable pub encode_chunk : List ℕ → List ℕ
encode_chunk chunk = format_hex (length chunk) ++ (13 ∷ 10 ∷ (chunk ++ 13 ∷ 10 ∷ []))

abbrev pub last_chunk : List ℕ
last_chunk = 48 ∷ 13 ∷ 10 ∷ 13 ∷ 10 ∷ []
