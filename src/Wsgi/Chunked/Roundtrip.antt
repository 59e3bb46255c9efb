-- ===== src/Wsgi/Chunked/Roundtrip.antt =====
-- A body in chunks is read back from any pieces in which it arrives.
use gsyncio.Common.{
  ℕ, zero, suc, ◌+◌, ◌≤◌, ◌<◌, ◌≡◌, refl, sym, ap, subst, ◌∙◌, true, false, Option, some, List, [],
  ◌∷◌, ◌++◌, arith, length, length-append, take, drop, is_empty, All, ℤ, pos, ok, append_assoc,
  append-nil,
}
use gsyncio.Wsgi.Stream.{total}
use gsyncio.Wsgi.Chunked.{
  wait_line, wait_bytes, before_semicolon, more, complete, read_data, read_sized, read_chunk,
  read_chunked_body, encode_chunk, last_chunk,
}
use gsyncio.Wsgi.Hex.{parse_int16, strip, format_hex, format_digits}
use gsyncio.Wsgi.Chunked.Fuel.{find_crlf-lt, body_goes_on, body_complete}
use gsyncio.Wsgi.Hex.Roundtrip.{IsDigit, format_hex_roundtrip, format-IsDigit, strip_digits}
use gsyncio.Wsgi.Stream.Whole.{concat}
use gsyncio.Wsgi.Chunked.Arrival.{Holds, line_arrives, bytes_arrive, take_front, drop_front}

front-Holds :
    (front rest buf : List ℕ) (pieces : List (List ℕ))
    → Holds (front ++ rest) buf pieces
    → length front ≤ length buf
    → (take (length front) buf ≡ front) × Holds rest (drop (length front) buf) pieces
front-Holds front rest buf pieces h le = (
  take_front buf front rest (concat pieces) h.together le,
  record { together = drop_front buf front rest (concat pieces) h.together le; no_end = h.no_end },
)

-- A front and its line break are cut.
cut-Holds :
    (front rest buf : List ℕ) (pieces : List (List ℕ))
    → Holds (front ++ 13 ∷ 10 ∷ rest) buf pieces
    → length front + 2 ≤ length buf
    → (take (length front) buf ≡ front) × Holds rest (drop (length front + 2) buf) pieces
cut-Holds front rest buf pieces h le =
    let size : length (front ++ 13 ∷ 10 ∷ []) ≡ length front + 2 =
      length-append front (13 ∷ 10 ∷ []) in
    let split : front ++ 13 ∷ 10 ∷ rest ≡ (front ++ 13 ∷ 10 ∷ []) ++ rest =
      sym (append_assoc front (13 ∷ 10 ∷ []) rest) in
    let cut =
      front-Holds (front ++ 13 ∷ 10 ∷ []) rest buf pieces (subst (λ w. Holds w buf pieces) split h)
        (omega (arith, size, le)) in
    (
      (front-Holds front (13 ∷ 10 ∷ rest) buf pieces h (omega (arith, le))).0,
      subst (λ k. Holds rest (drop k buf) pieces) size cut.1,
    )

pub before_semicolon_digits : (xs : List ℕ) → All IsDigit xs → before_semicolon xs ≡ xs
unfolding before_semicolon
before_semicolon_digits [] h = refl
before_semicolon_digits (x ∷ xs) h = ground (arith, before_semicolon_digits xs h.1, h.0)

size_line : (n : ℕ) → parse_int16 (before_semicolon (strip (format_hex n))) ≡ some (pos n)
unfolding format_hex
size_line n =
    let digits = format-IsDigit (suc n) n in
    ap (λ l. parse_int16 (before_semicolon l)) (strip_digits (format_hex n) digits)
    ∙ (ap parse_int16 (before_semicolon_digits (format_hex n) digits) ∙ format_hex_roundtrip n)

data_read :
    (m n : ℕ) (pieces pieces' : List (List ℕ)) (buf buf' body : List ℕ)
    → wait_bytes (suc n + 2) pieces buf ≡ (true, buf', pieces')
    → length body + suc n ≤ m
    → read_sized m (some (pos (suc n))) pieces buf body
      ≡ more (drop (suc n + 2) buf') (body ++ take (suc n) buf') pieces'
unfolding read_sized read_data
data_read m n pieces pieces' buf buf' body waited fits = ground arith

-- A round behind the size line of a chunk.
data_arrives :
    (m c : ℕ) (cs rest buf body : List ℕ) (pieces : List (List ℕ))
    → length body + length (c ∷ cs) ≤ m
    → Holds ((c ∷ cs) ++ 13 ∷ 10 ∷ rest) buf pieces
    → (buf' : List ℕ) × (pieces' : List (List ℕ)) × (read_sized m
          (some (pos (length (c ∷ cs))))
          pieces
          buf
          body
        ≡ more buf' (body ++ c ∷ cs) pieces')
      × Holds rest buf' pieces'
data_arrives m c cs rest buf body pieces fits h =
    let there : suc (length cs) + 2 ≤ length ((c ∷ cs) ++ 13 ∷ 10 ∷ rest) =
      omega (arith, length-append (c ∷ cs) (13 ∷ 10 ∷ rest)) in
    let (buf', pieces', waited, enough, h') =
      bytes_arrive (suc (length cs) + 2) ((c ∷ cs) ++ 13 ∷ 10 ∷ rest) buf pieces there h in
    let (data_here, left) = cut-Holds (c ∷ cs) rest buf' pieces' h' enough in
    (
      drop (suc (length cs) + 2) buf',
      pieces',
      data_read m (length cs) pieces pieces' buf buf' body waited fits
          ∙ ap (λ d. more (drop (suc (length cs) + 2) buf') (body ++ d) pieces') data_here,
      left,
    )

pub line_read :
    (m idx : ℕ) (k : Option ℤ) (pieces pieces' : List (List ℕ)) (buf buf' body : List ℕ)
    → wait_line pieces buf ≡ ok (idx, buf', pieces')
    → parse_int16 (before_semicolon (strip (take idx buf'))) ≡ k
    → read_chunk m pieces buf body ≡ read_sized m k pieces' (drop (idx + 2) buf') body
unfolding read_chunk
line_read m idx k pieces pieces' buf buf' body waited size =
    rw (waited, read_chunk) (ap (λ j. read_sized m j pieces' (drop (idx + 2) buf') body) size)

-- A round whose size line arrives with its line break.
sized_round :
    (m n : ℕ) (rest buf body : List ℕ) (pieces : List (List ℕ))
    → Holds (format_hex n ++ 13 ∷ 10 ∷ rest) buf pieces
    → (buf' : List ℕ) × (pieces' : List (List ℕ)) × (read_chunk m pieces buf body
        ≡ read_sized m (some (pos n)) pieces' buf' body)
      × Holds rest buf' pieces'
unfolding format_hex
sized_round m n rest buf body pieces h =
    let digits = format-IsDigit (suc n) n in
    let (buf', pieces', waited, found, h') = line_arrives (format_hex n) rest buf pieces digits h in
    let (line, left) =
      cut-Holds (format_hex n) rest buf' pieces' h'
        (find_crlf-lt buf' (length (format_hex n)) found) in
    let size = ap (λ l. parse_int16 (before_semicolon (strip l))) line ∙ size_line n in
    (
      drop (length (format_hex n) + 2) buf',
      pieces',
      line_read m (length (format_hex n)) (some (pos n)) pieces pieces' buf buf' body waited size,
      left,
    )

-- The chunks and the end of them, as the response's writer makes them.
abbrev pub encode_chunks : List (List ℕ) → List ℕ
encode_chunks [] = last_chunk
encode_chunks (c ∷ cs) = encode_chunk c ++ encode_chunks cs

chunk_round :
    (m : ℕ) (c rest buf body : List ℕ) (pieces : List (List ℕ))
    → is_empty c ≡ false
    → length body + length c ≤ m
    → Holds (encode_chunk c ++ rest) buf pieces
    → (buf' : List ℕ) × (pieces' : List (List ℕ)) × (read_chunk m pieces buf body
        ≡ more buf' (body ++ c) pieces')
      × Holds rest buf' pieces'
unfolding encode_chunk
chunk_round m [] rest buf body pieces some_data fits h = absurd (ground arith)
chunk_round m (c ∷ cs) rest buf body pieces some_data fits h =
    let size = format_hex (length (c ∷ cs)) in
    let split : encode_chunk (c ∷ cs) ++ rest ≡ size ++ 13 ∷ 10 ∷ ((c ∷ cs) ++ 13 ∷ 10 ∷ rest) =
      append_assoc size (13 ∷ 10 ∷ ((c ∷ cs) ++ 13 ∷ 10 ∷ [])) rest
      ∙ ap (λ d. size ++ 13 ∷ 10 ∷ d) (append_assoc (c ∷ cs) (13 ∷ 10 ∷ []) rest) in
    let (buf1, pieces1, sized, h1) =
      sized_round m (length (c ∷ cs)) ((c ∷ cs) ++ 13 ∷ 10 ∷ rest) buf body pieces
        (subst (λ w. Holds w buf pieces) split h) in
    let (buf2, pieces2, data_read', h2) = data_arrives m c cs rest buf1 body pieces1 fits h1 in
    (buf2, pieces2, sized ∙ data_read', h2)

last_round :
    (m : ℕ) (buf body : List ℕ) (pieces : List (List ℕ))
    → Holds last_chunk buf pieces
    → (left : List (List ℕ)) × (read_chunk m pieces buf body ≡ complete body left)
unfolding read_sized format_hex format_digits
last_round m buf body pieces h =
    let (buf', pieces', sized, h') = sized_round m 0 (13 ∷ 10 ∷ []) buf body pieces h in
    ((wait_bytes 2 pieces' buf').2, sized)

-- For every list of chunks of at least one byte, at most `max_request_body` bytes together: when
-- the bytes that the response's writer makes of them arrive, in whatever pieces, and there is more
-- fuel than chunks, the body that is read is the chunks joined.
pub chunked_roundtrip :
    (fuel m : ℕ) (chunks : List (List ℕ)) (pieces : List (List ℕ)) (buf body : List ℕ)
    → All (λ chunk. is_empty chunk ≡ false) chunks
    → All (λ piece. is_empty piece ≡ false) pieces
    → length body + total chunks ≤ m
    → length chunks < fuel
    → buf ++ concat pieces ≡ encode_chunks chunks
    → (left : List (List ℕ)) × (read_chunked_body fuel m pieces buf body
        ≡ some (ok (body ++ concat chunks, left)))
chunked_roundtrip zero m chunks pieces buf body some_data no_end fits lt e = absurd (omega arith)
chunked_roundtrip (suc fuel) m [] pieces buf body some_data no_end fits lt e =
    let (left, last) = last_round m buf body pieces (record { together = e; no_end = no_end }) in
    (
      left,
      body_complete fuel m pieces left buf body body last
          ∙ ap (λ b. some (ok (b, left))) (sym (append-nil body)),
    )
chunked_roundtrip (suc fuel) m (c ∷ cs) pieces buf body some_data no_end fits lt e =
    let (buf', pieces', round, h) =
      chunk_round m c (encode_chunks cs) buf body pieces some_data.0 (omega arith)
        (record { together = e; no_end = no_end }) in
    let (left, rest) =
      chunked_roundtrip fuel m cs pieces' buf' (body ++ c) some_data.1 h.no_end
        (omega (arith, length-append body c)) (omega arith) h.together in
    (
      left,
      body_goes_on fuel m pieces pieces' buf body buf' (body ++ c) round
          ∙ (rest ∙ ap (λ b. some (ok (b, left))) (append_assoc body c (concat cs))),
    )
