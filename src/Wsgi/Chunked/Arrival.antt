-- ===== src/Wsgi/Chunked/Arrival.antt =====
-- The waits of _read_chunked_body for bytes that are on their way.
use gsyncio.Common.{
  ℕ, ◌≤◌, ◌≡◌, refl, sym, ap, ◌∙◌, inl, inr, true, false, some, List, [], ◌∷◌, ◌++◌, leb, arith,
  length, take, drop, is_empty, All, ok, append_assoc, append-nil, Bool-cases, Option-cases,
}
use gsyncio.Wsgi.Chunked.{find_crlf, wait_line, wait_bytes}
use gsyncio.Wsgi.Hex.Roundtrip.{IsDigit}
use gsyncio.Wsgi.Stream.Whole.{concat}

-- A line break is found where it is, behind a size.
pub find_crlf_behind :
    (xs ys : List ℕ) → All IsDigit xs → find_crlf (xs ++ 13 ∷ 10 ∷ ys) ≡ some (length xs)
unfolding find_crlf
find_crlf_behind [] ys h = refl
find_crlf_behind (x ∷ xs) ys h = ground (arith, find_crlf_behind xs ys h.1, h.0)

-- What is found in a buffer is found in what it begins.
pub find_crlf_more :
    (xs ys : List ℕ) (i : ℕ) → find_crlf xs ≡ some i → find_crlf (xs ++ ys) ≡ some i
unfolding find_crlf
find_crlf_more [] ys i h = absurd (ground arith)
find_crlf_more (x ∷ []) ys i h = absurd (ground arith)
find_crlf_more (x ∷ y ∷ xs) ys i h = elim (Option-cases (find_crlf (y ∷ xs))) [
  | inl later ↦ ground arith
  | inr (j, later) ↦ ground (arith, find_crlf_more (y ∷ xs) ys j later)
]

-- A front of known length.
pub take_front :
    (xs zs ys us : List ℕ) → xs ++ us ≡ zs ++ ys → length zs ≤ length xs → take (length zs) xs ≡ zs
take_front xs [] ys us e le = refl
take_front [] (z ∷ zs) ys us e le = absurd (omega arith)
take_front (x ∷ xs) (z ∷ zs) ys us e le =
    ground (arith, take_front xs zs ys us (ground arith) (omega arith))

pub drop_front :
    (xs zs ys us : List ℕ)
    → xs ++ us ≡ zs ++ ys
    → length zs ≤ length xs
    → drop (length zs) xs ++ us ≡ ys
drop_front xs [] ys us e le = e
drop_front [] (z ∷ zs) ys us e le = absurd (omega arith)
drop_front (x ∷ xs) (z ∷ zs) ys us e le = drop_front xs zs ys us (ground arith) (omega arith)

-- The bytes in the buffer and in the pieces to come, none of which is empty.
pub record Holds (wire : List ℕ) (buf : List ℕ) (pieces : List (List ℕ)) : Type 0 where
  pub together : buf ++ concat pieces ≡ wire
  pub no_end : All (λ piece. is_empty piece ≡ false) pieces

taken-Holds :
    (wire buf piece : List ℕ) (pieces : List (List ℕ))
    → Holds wire buf (piece ∷ pieces)
    → Holds wire (buf ++ piece) pieces
taken-Holds wire buf piece pieces h = record {
  together = append_assoc buf piece (concat pieces) ∙ h.together;
  no_end = h.no_end.1;
}

-- A size line arrives.
pub line_arrives :
    (line rest buf : List ℕ) (pieces : List (List ℕ))
    → All IsDigit line
    → Holds (line ++ 13 ∷ 10 ∷ rest) buf pieces
    → (buf' : List ℕ) × (pieces' : List (List ℕ)) × (wait_line pieces buf
        ≡ ok (length line, buf', pieces'))
      × (find_crlf buf' ≡ some (length line))
      × Holds (line ++ 13 ∷ 10 ∷ rest) buf' pieces'
unfolding wait_line
line_arrives line rest buf [] d h =
    let found : find_crlf buf ≡ some (length line) =
      ap find_crlf (sym (append-nil buf) ∙ h.together) ∙ find_crlf_behind line rest d in
    (buf, [], rw (found, wait_line) refl, found, h)
line_arrives line rest buf (piece ∷ pieces) d h = elim (Option-cases (find_crlf buf)) [
  | inl absent ↦
      let (buf', pieces', waited, found, h') =
        line_arrives line rest (buf ++ piece) pieces d (taken-Holds _ buf piece pieces h) in
      (buf', pieces', ground (arith, waited, h.no_end.0), found, h')
  | inr (i, found) ↦
      let same : find_crlf (line ++ 13 ∷ 10 ∷ rest) ≡ some i =
        ap find_crlf (sym h.together) ∙ find_crlf_more buf (concat (piece ∷ pieces)) i found in
      let there : find_crlf buf ≡ some (length line) =
        found ∙ (sym same ∙ find_crlf_behind line rest d) in
      (buf, piece ∷ pieces, ground (arith, there), there, h)
]

-- Bytes that are to come arrive.
pub bytes_arrive :
    (size : ℕ) (wire buf : List ℕ) (pieces : List (List ℕ))
    → size ≤ length wire
    → Holds wire buf pieces
    → (buf' : List ℕ) × (pieces' : List (List ℕ)) × (wait_bytes size pieces buf
        ≡ (true, buf', pieces'))
      × (size ≤ length buf')
      × Holds wire buf' pieces'
unfolding wait_bytes
bytes_arrive size wire buf [] le h =
    let enough : size ≤ length buf = ground (arith, h.together, append-nil buf) in
    (buf, [], ground arith, enough, h)
bytes_arrive size wire buf (piece ∷ pieces) le h = elim (Bool-cases (leb size (length buf))) [
  | inl enough ↦ (buf, piece ∷ pieces, ground arith, ground arith, h)
  | inr short ↦
      let (buf', pieces', waited, enough, h') =
        bytes_arrive size wire (buf ++ piece) pieces le (taken-Holds wire buf piece pieces h) in
      (buf', pieces', ground (arith, waited, h.no_end.0), enough, h')
]
