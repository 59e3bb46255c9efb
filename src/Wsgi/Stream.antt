-- ===== src/Wsgi/Stream.antt =====
-- src/multiloop/wsgi.py, SyncStreamReader. A channel is what its `recv_sync` will give: the chunks
-- that come, and then an exception.
pub mod Refine
pub mod Lines
pub mod Whole
use gsyncio.Common.{
  ℕ, zero, suc, ◌+◌, ◌-◌, min, Bool, true, false, not, ◌&&◌, ◌||◌, Option, none, some, List, [],
  ◌∷◌, ◌++◌, if◌then◌else◌, ltb, leb, ◌==◌, length, take, drop, is_empty, ℤ, pos, negsuc,
}
use gsyncio.Wsgi.Bytes.{find}
use gsyncio.Wsgi.Bytes

-- `_bio` is what is left to read of it.
pub record SyncStreamReader : Type 0 where
  pub bio : Option (List ℕ)
  pub buffer : List ℕ
  pub channel : Option (List (List ℕ))
  pub eof : Bool

-- `__init__`
unfoldable pub init : Option (List ℕ) → Option (List (List ℕ)) → SyncStreamReader
init none none = record { bio = some []; buffer = []; channel = none; eof = true }
init none (some chunks) = record { bio = none; buffer = []; channel = some chunks; eof = false }
init (some given) none = record {
  bio = some given;
  buffer = [];
  channel = none;
  eof = is_empty given;
}
init (some given) (some chunks) = record {
  bio = none;
  buffer = given;
  channel = some chunks;
  eof = false;
}

-- One more chunk: an empty one and an exception are the end of the stream.
unfoldable pub receive : (chunks : List (List ℕ)) → SyncStreamReader → SyncStreamReader
receive [] s = record s { eof = true }
receive ([] ∷ chunks) s = record s { channel = some chunks; eof = true }
receive ((b ∷ bs) ∷ chunks) s = record s { buffer = s.buffer ++ b ∷ bs; channel = some chunks }

-- The loops of `read`: until the buffer has the wanted size, if there is one, or the stream ends.
abbrev pub has_enough : Option ℕ → List ℕ → Bool
has_enough none buffer = false
has_enough (some size) buffer = leb size (length buffer)

unfoldable pub fill : Option ℕ → List (List ℕ) → SyncStreamReader → SyncStreamReader
fill want [] s = if has_enough want s.buffer || s.eof then s else receive [] s
fill want (chunk ∷ chunks) s =
    let rest = fill want chunks (receive (chunk ∷ chunks) s) in
    if has_enough want s.buffer || s.eof then s else rest

unfoldable pub filled : Option ℕ → SyncStreamReader → SyncStreamReader
filled want s = elim s.channel [ none ↦ s | some chunks ↦ fill want chunks s ]

-- Bytes are taken from the front of the buffer.
unfoldable pub cut : ℕ → SyncStreamReader → List ℕ × SyncStreamReader
cut n s = (take n s.buffer, record s { buffer = drop n s.buffer })

abbrev pub cut_all : SyncStreamReader → List ℕ × SyncStreamReader
cut_all s = (s.buffer, record s { buffer = [] })

-- `read`
unfoldable pub read_channel : ℤ → SyncStreamReader → List ℕ × SyncStreamReader
read_channel (negsuc n) s = cut_all (filled none s)
read_channel (pos zero) s = ([], s)
read_channel (pos (suc n)) s = cut (suc n) (filled (some (suc n)) s)

unfoldable pub read : ℤ → SyncStreamReader → List ℕ × SyncStreamReader
read size s = elim s.bio [
  | some left ↦ ((Bytes.read size left).0, record s { bio = some (Bytes.read size left).1 })
  | none ↦ read_channel size s
]

-- `size if (size is not None and size > 0) else None`
unfoldable pub max_len : Option ℤ → Option ℕ
max_len (some (pos (suc n))) = some (suc n)
max_len (some (pos zero)) = none
max_len (some (negsuc n)) = none
max_len none = none

-- A line that the buffer holds: it ends with a newline or is as long as it may be.
unfoldable pub line_end : Option ℕ → List ℕ → Option ℕ
line_end limit buffer = elim (find 10 buffer) [
  | some nl_idx ↦ elim limit [ none ↦ some (nl_idx + 1) | some m ↦ some (min (nl_idx + 1) m) ]
  | none ↦ elim limit [ none ↦ none | some m ↦ if leb m (length buffer) then some m else none ]
]

-- The loop of `readline`, which ends with the stream.
unfoldable pub line_loop : Option ℕ → List (List ℕ) → SyncStreamReader → List ℕ × SyncStreamReader
line_loop limit [] s = elim (line_end limit s.buffer) [
  | some end ↦ cut end s
  | none ↦ cut_all (if s.eof then s else receive [] s)
]
line_loop limit (chunk ∷ chunks) s =
    let s' = receive (chunk ∷ chunks) s in
    let rest = line_loop limit chunks s' in
    elim (line_end limit s.buffer) [
      | some end ↦ cut end s
      | none ↦ if s.eof then cut_all s else (if s'.eof then cut_all s' else rest)
    ]

unfoldable pub readline_channel : Option ℤ → SyncStreamReader → List ℕ × SyncStreamReader
readline_channel size s = elim s.channel [
  | some chunks ↦ line_loop (max_len size) chunks s
  | none ↦ elim (line_end (max_len size) s.buffer) [ some end ↦ cut end s | none ↦ cut_all s ]
]

-- The limit of a BytesIO's `readline`: none if the size is negative or not given.
abbrev pub bio_limit : Option ℤ → Option ℕ
bio_limit none = none
bio_limit (some (negsuc n)) = none
bio_limit (some (pos n)) = some n

unfoldable pub readline : Option ℤ → SyncStreamReader → List ℕ × SyncStreamReader
readline size s = elim s.bio [
  | some left ↦
      let line = Bytes.readline (bio_limit size) left in (line.0, record s { bio = some line.1 })
  | none ↦ readline_channel size s
]

-- The sizes of the lines together.
abbrev pub total : List (List ℕ) → ℕ
total [] = 0
total (line ∷ lines) = length line + total lines

-- `hint > 0 and sum(...) >= hint`
abbrev pub reached : ℤ → List (List ℕ) → Bool
reached (pos hint) lines = ltb 0 hint && leb hint (total lines)
reached (negsuc n) lines = false

-- The loop of `readlines`; none if the fuel is not enough.
unfoldable pub readlines_loop :
    (fuel : ℕ)
    → ℤ
    → (lines : List (List ℕ)) → SyncStreamReader
    → Option (List (List ℕ) × SyncStreamReader)
readlines_loop zero hint lines s = none
readlines_loop (suc fuel) hint lines s =
    let (line, s') = readline none s in
    let lines' = lines ++ line ∷ [] in
    let rest = readlines_loop fuel hint lines' s' in
    if is_empty line
    then some (lines, s')
    else (if reached hint lines' then some (lines', s') else rest)
