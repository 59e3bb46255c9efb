-- ===== src/Wsgi/Chunked/Fuel.antt =====
-- _read_chunked_body ends: each round takes at least two bytes of what there is.
use gsyncio.Common.{
  ℕ, zero, suc, ◌+◌, ◌-◌, ◌≤◌, ◌<◌, ◌≡◌, refl, ◌∙◌, inl, inr, Option, none, some, List, [], ◌∷◌,
  ◌++◌, arith, length, length-append, length-drop, take, drop, is_empty, ℤ, pos, negsuc, Result, ok,
  err, Result-cases, Exception, Bool-cases, Option-cases,
}
use gsyncio.Wsgi.Stream.{total}
use gsyncio.Wsgi.Chunked.{
  find_crlf, wait_line, wait_bytes, before_semicolon, slice_from, plus_two, to_ℕ, Round, more,
  complete, failed, read_data, read_sized, read_chunk, read_chunked_body,
}
use gsyncio.Wsgi.Hex.{parse_int16, strip}

pub find_crlf-lt : (xs : List ℕ) (i : ℕ) → find_crlf xs ≡ some i → i + 2 ≤ length xs
unfolding find_crlf
find_crlf-lt [] i h = absurd (ground arith)
find_crlf-lt (x ∷ []) i h = absurd (ground arith)
find_crlf-lt (x ∷ y ∷ xs) i h = elim (Option-cases (find_crlf (y ∷ xs))) [
  | inl later ↦ ground arith
  | inr (j, later) ↦ ground (arith, find_crlf-lt (y ∷ xs) j later)
]

-- A line that was waited for is in the buffer, and no byte is lost.
wait_line_lem :
    (pieces : List (List ℕ)) (buf : List ℕ) (idx : ℕ) (buf' : List ℕ) (pieces' : List (List ℕ))
    → wait_line pieces buf ≡ ok (idx, buf', pieces')
    → (find_crlf buf' ≡ some idx) × (length buf' + total pieces' ≡ length buf + total pieces)
unfolding wait_line
wait_line_lem [] buf idx buf' pieces' e = elim (Option-cases (find_crlf buf)) [
  | inl absent ↦ absurd (ground arith)
  | inr (i, found) ↦ ground arith
]
wait_line_lem (piece ∷ pieces) buf idx buf' pieces' e = elim (Option-cases (find_crlf buf)) [
  | inl absent ↦ elim (Bool-cases (is_empty piece)) [
    | inl over ↦ absurd (ground arith)
    | inr on ↦ ground (
      arith,
      wait_line_lem pieces (buf ++ piece) idx buf' pieces' (ground arith),
      length-append buf piece,
    )
  ]
  | inr (i, found) ↦ ground arith
]

wait_bytes_lem :
    (size : ℕ) (pieces : List (List ℕ)) (buf : List ℕ)
    → length (wait_bytes size pieces buf).1 + total (wait_bytes size pieces buf).2
      ≤ length buf + total pieces
unfolding wait_bytes
wait_bytes_lem size [] buf = omega arith
wait_bytes_lem size (piece ∷ pieces) buf =
    ground (arith, wait_bytes_lem size pieces (buf ++ piece), length-append buf piece)

length-drop_le : (n : ℕ) (xs : List ℕ) → length (drop n xs) ≤ length xs
length-drop_le n xs = omega (arith, length-drop n xs)

length-slice_from : (k : ℤ) (xs : List ℕ) → length (slice_from k xs) ≤ length xs
length-slice_from (pos n) xs = length-drop_le n xs
length-slice_from (negsuc n) xs = length-drop_le (length xs - suc n) xs

read_data_lem :
    (m : ℕ) (k : ℤ) (pieces : List (List ℕ)) (buf body : List ℕ) (pieces' : List (List ℕ))
    (buf' body' : List ℕ)
    → read_data m k pieces buf body ≡ more buf' body' pieces'
    → length buf' + total pieces' ≤ length buf + total pieces
unfolding read_data
read_data_lem m k pieces buf body pieces' buf' body' e = ground (
  arith,
  wait_bytes_lem (to_ℕ (plus_two k)) pieces buf,
  length-slice_from (plus_two k) (wait_bytes (to_ℕ (plus_two k)) pieces buf).1,
)

read_sized_lem :
    (m : ℕ) (k : Option ℤ) (pieces : List (List ℕ)) (buf body : List ℕ) (pieces' : List (List ℕ))
    (buf' body' : List ℕ)
    → read_sized m k pieces buf body ≡ more buf' body' pieces'
    → length buf' + total pieces' ≤ length buf + total pieces
unfolding read_sized
read_sized_lem m none pieces buf body pieces' buf' body' e = absurd (ground arith)
read_sized_lem m (some (pos zero)) pieces buf body pieces' buf' body' e = absurd (ground arith)
read_sized_lem m (some (pos (suc n))) pieces buf body pieces' buf' body' e =
    read_data_lem m (pos (suc n)) pieces buf body pieces' buf' body' e
read_sized_lem m (some (negsuc n)) pieces buf body pieces' buf' body' e =
    read_data_lem m (negsuc n) pieces buf body pieces' buf' body' e

read_chunk_lem :
    (m : ℕ) (pieces : List (List ℕ)) (buf body : List ℕ) (pieces' : List (List ℕ))
    (buf' body' : List ℕ)
    → read_chunk m pieces buf body ≡ more buf' body' pieces'
    → length buf' + total pieces' < length buf + total pieces
unfolding read_chunk
read_chunk_lem m pieces buf body pieces' buf' body' e = elim (Result-cases (wait_line pieces buf)) [
  | inl (ex, failure) ↦ absurd (ground arith)
  | inr ((idx, buf1, pieces1), line) ↦
      let w = wait_line_lem pieces buf idx buf1 pieces1 line in
      let fits = find_crlf-lt buf1 idx w.0 in
      let k = parse_int16 (before_semicolon (strip (take idx buf1))) in
      let sized : read_sized m k pieces1 (drop (idx + 2) buf1) body ≡ more buf' body' pieces' =
        ground arith in
      omega (
        arith,
        w.1,
        length-drop (idx + 2) buf1,
        read_sized_lem m k pieces1 (drop (idx + 2) buf1) body pieces' buf' body' sized,
      )
]

data Rounds (r : Round) : Type 0 where
  goes_on : (buf body : List ℕ) (pieces : List (List ℕ)) → r ≡ more buf body pieces → Rounds r
  ends : (body : List ℕ) (pieces : List (List ℕ)) → r ≡ complete body pieces → Rounds r
  fails : (e : Exception) → r ≡ failed e → Rounds r

Round-cases : (r : Round) → Rounds r
Round-cases (more buf body pieces) = goes_on buf body pieces refl
Round-cases (complete body pieces) = ends body pieces refl
Round-cases (failed e) = fails e refl

-- What the outer loop does with each outcome of a round.
pub body_goes_on :
    (fuel m : ℕ) (pieces pieces' : List (List ℕ)) (buf body buf' body' : List ℕ)
    → read_chunk m pieces buf body ≡ more buf' body' pieces'
    → read_chunked_body (suc fuel) m pieces buf body ≡ read_chunked_body fuel m pieces' buf' body'
unfolding read_chunked_body
body_goes_on fuel m pieces pieces' buf body buf' body' e = rw (e, read_chunked_body) refl

pub body_complete :
    (fuel m : ℕ) (pieces pieces' : List (List ℕ)) (buf body body' : List ℕ)
    → read_chunk m pieces buf body ≡ complete body' pieces'
    → read_chunked_body (suc fuel) m pieces buf body ≡ some (ok (body', pieces'))
unfolding read_chunked_body
body_complete fuel m pieces pieces' buf body body' e = rw (e, read_chunked_body) refl

body_fails :
    (fuel m : ℕ) (pieces : List (List ℕ)) (buf body : List ℕ) (ex : Exception)
    → read_chunk m pieces buf body ≡ failed ex
    → read_chunked_body (suc fuel) m pieces buf body ≡ some (err ex)
unfolding read_chunked_body
body_fails fuel m pieces buf body ex e = rw (e, read_chunked_body) refl

-- With more fuel than bytes in the buffer and to come, the reading of a chunked body ends, in a
-- result or an exception.
pub chunked_body_ends :
    (fuel m : ℕ) (pieces : List (List ℕ)) (buf body : List ℕ)
    → length buf + total pieces < fuel
    → (r : Result (List ℕ × List (List ℕ))) × (read_chunked_body fuel m pieces buf body ≡ some r)
chunked_body_ends zero m pieces buf body lt = absurd (omega arith)
chunked_body_ends (suc fuel) m pieces buf body lt =
    elim (Round-cases (read_chunk m pieces buf body)) [
      | goes_on buf' body' pieces' e ↦
          let (r, rest) =
            chunked_body_ends fuel m pieces' buf' body'
              (omega (arith, read_chunk_lem m pieces buf body pieces' buf' body' e)) in
          (r, body_goes_on fuel m pieces pieces' buf body buf' body' e ∙ rest)
      | ends body' pieces' e ↦
          (ok (body', pieces'), body_complete fuel m pieces pieces' buf body body' e)
      | fails ex e ↦ (err ex, body_fails fuel m pieces buf body ex e)
    ]
