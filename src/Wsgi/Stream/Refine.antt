-- ===== src/Wsgi/Stream/Refine.antt =====
-- SyncStreamReader on a channel answers as a BytesIO on all that the channel brings.
use gsyncio.Common.{
  ℕ, zero, suc, ◌≤◌, ◌≡◌, refl, sym, ap, subst, ◌∙◌, ◌⊎◌, inl, inr, Bool, true, false, ◌||◌, Option,
  none, some, List, [], ◌∷◌, ◌++◌, if◌then◌else◌, arith, length, take, drop, ℤ, pos, negsuc,
  append_assoc, append-nil, Bool-cases, Option-cases,
}
use gsyncio.Wsgi.Bytes.{find, first_line, up_to, find-lt, first_line_found, first_line_on}
use gsyncio.Wsgi.Bytes
use gsyncio.Wsgi.Stream.{
  SyncStreamReader, receive, has_enough, fill, filled, cut, read_channel, read,
}

-- The bytes that a channel brings: those before the first empty chunk.
abbrev pub arriving : List (List ℕ) → List ℕ
arriving [] = []
arriving ([] ∷ chunks) = []
arriving ((b ∷ bs) ∷ chunks) = (b ∷ bs) ++ arriving chunks

-- What a stream has still to give.
abbrev pub to_come : SyncStreamReader → List ℕ
to_come s = if s.eof then [] else elim s.channel [ none ↦ [] | some chunks ↦ arriving chunks ]

abbrev pub content : SyncStreamReader → List ℕ
content s = elim s.bio [ some left ↦ left | none ↦ s.buffer ++ to_come s ]

pub receive-content :
    (chunks : List (List ℕ)) (s : SyncStreamReader)
    → s.channel ≡ some chunks
    → s.eof ≡ false
    → (receive chunks s).buffer ++ to_come (receive chunks s) ≡ s.buffer ++ to_come s
unfolding receive
receive-content [] s c e = ground arith
receive-content ([] ∷ chunks) s c e = ground arith
receive-content ((b ∷ bs) ∷ chunks) s c e =
    ground (arith, append_assoc s.buffer (b ∷ bs) (arriving chunks))

-- The fields that filling leaves alone, and what it achieves.
record Filled (want : Option ℕ) (s t : SyncStreamReader) : Type 0 where
  same : t.buffer ++ to_come t ≡ s.buffer ++ to_come s
  bio_same : t.bio ≡ s.bio
  enough : (has_enough want t.buffer ≡ true) ⊎ (to_come t ≡ [])

pub receive_channel :
    (chunk : List ℕ) (chunks : List (List ℕ)) (s : SyncStreamReader)
    → ((receive (chunk ∷ chunks) s).channel ≡ some chunks)
      × ((receive (chunk ∷ chunks) s).bio ≡ s.bio)
unfolding receive
receive_channel [] chunks s = (refl, refl)
receive_channel (b ∷ bs) chunks s = (refl, refl)

stopped-Filled :
    (want : Option ℕ) (s : SyncStreamReader)
    → (has_enough want s.buffer || s.eof) ≡ true
    → Filled want s s
stopped-Filled want s h = elim (Bool-cases (has_enough want s.buffer)) [
  | inl p ↦ record { same = refl; bio_same = refl; enough = inl p }
  | inr n ↦ ground arith
]

fill_stops :
    (want : Option ℕ) (chunks : List (List ℕ)) (s : SyncStreamReader)
    → (has_enough want s.buffer || s.eof) ≡ true
    → s ≡ fill want chunks s
unfolding fill
fill_stops want [] s stop = rw stop refl
fill_stops want (chunk ∷ chunks) s stop = rw stop refl

pub goes_on : (a b : Bool) → (a || b) ≡ false → b ≡ false
goes_on a b h = ground arith

last-Filled :
    (want : Option ℕ) (s : SyncStreamReader)
    → s.channel ≡ some []
    → (has_enough want s.buffer || s.eof) ≡ false
    → Filled want s (fill want [] s)
unfolding fill receive
last-Filled want s c go =
    let opened = goes_on _ _ go in
    rw (go) (record { same = receive-content [] s c opened; bio_same = refl; enough = inr refl })

fill-Filled :
    (want : Option ℕ) (chunks : List (List ℕ)) (s : SyncStreamReader)
    → s.channel ≡ some chunks
    → Filled want s (fill want chunks s)
unfolding fill
fill-Filled want [] s c = elim (Bool-cases (has_enough want s.buffer || s.eof)) [
  | inl stop ↦ subst (Filled want s) (fill_stops want [] s stop) (stopped-Filled want s stop)
  | inr go ↦ last-Filled want s c go
]
fill-Filled want (chunk ∷ chunks) s c = elim (Bool-cases (has_enough want s.buffer || s.eof)) [
  | inl stop ↦
      subst (Filled want s) (fill_stops want (chunk ∷ chunks) s stop) (stopped-Filled want s stop)
  | inr go ↦
      let opened = goes_on _ _ go in
      let next = receive_channel chunk chunks s in
      let rest = fill-Filled want chunks (receive (chunk ∷ chunks) s) next.0 in
      rw go (record {
        same = rest.same ∙ receive-content (chunk ∷ chunks) s c opened;
        bio_same = rest.bio_same ∙ next.1;
        enough = rest.enough;
      })
]

filled_open :
    (want : Option ℕ) (chunks : List (List ℕ)) (s : SyncStreamReader)
    → s.channel ≡ some chunks
    → fill want chunks s ≡ filled want s
unfolding filled
filled_open want chunks s c = ground arith

filled_shut : (want : Option ℕ) (s : SyncStreamReader) → s.channel ≡ none → s ≡ filled want s
unfolding filled
filled_shut want s c = ground arith

filled-Filled : (want : Option ℕ) (s : SyncStreamReader) → Filled want s (filled want s)
filled-Filled want s = elim (Option-cases s.channel) [
  | inl shut ↦
      subst (Filled want s) (filled_shut want s shut)
        (record { same = refl; bio_same = refl; enough = inr (ground arith) })
  | inr (chunks, c) ↦
      subst (Filled want s) (filled_open want chunks s c) (fill-Filled want chunks s c)
]

-- Bytes within the buffer are taken from the front of the content.
pub take_within : (n : ℕ) (xs ys : List ℕ) → n ≤ length xs → take n (xs ++ ys) ≡ take n xs
take_within zero xs ys h = refl
take_within (suc n) [] ys h = absurd (omega arith)
take_within (suc n) (x ∷ xs) ys h = ap (x ∷◌) (take_within n xs ys (omega arith))

pub drop_within : (n : ℕ) (xs ys : List ℕ) → n ≤ length xs → drop n (xs ++ ys) ≡ drop n xs ++ ys
drop_within zero xs ys h = refl
drop_within (suc n) [] ys h = absurd (omega arith)
drop_within (suc n) (x ∷ xs) ys h = drop_within n xs ys (omega arith)

-- A cut is one of the content, if the buffer is long enough or nothing else comes.
pub cut-content :
    (n : ℕ) (s : SyncStreamReader)
    → s.bio ≡ none
    → (n ≤ length s.buffer) ⊎ (to_come s ≡ [])
    → ((cut n s).0 ≡ take n (content s)) × (content (cut n s).1 ≡ drop n (content s))
unfolding cut
cut-content n s b (inl le) =
    rw b (sym (take_within n s.buffer (to_come s) le), sym (drop_within n s.buffer (to_come s) le))
cut-content n s b (inr end) = ground (arith, append-nil s.buffer, append-nil (drop n s.buffer))

content-filled :
    (want : Option ℕ) (s : SyncStreamReader)
    → s.bio ≡ none
    → ((filled want s).bio ≡ none) × (content (filled want s) ≡ content s)
content-filled want s b =
    let f = filled-Filled want s in
    let still : (filled want s).bio ≡ none = f.bio_same ∙ b in (still, ground (arith, f.same))

-- What an operation is to give and to leave.
unfoldable pub Answers : List ℕ × SyncStreamReader → List ℕ × List ℕ → Type 0
Answers r spec = (r.0 ≡ spec.0) × (content r.1 ≡ spec.1)

read_channel-Answers :
    (size : ℤ) (s : SyncStreamReader)
    → s.bio ≡ none
    → Answers (read_channel size s) (Bytes.read size (content s))
unfolding Answers read_channel Bytes.read
read_channel-Answers (pos zero) s b = (refl, refl)
read_channel-Answers (pos (suc n)) s b =
    let f = filled-Filled (some (suc n)) s in
    let same = content-filled (some (suc n)) s b in
    let enough : (suc n ≤ length (filled (some (suc n)) s).buffer)
        ⊎ (to_come (filled (some (suc n)) s) ≡ []) =
      ground (arith, f.enough) in
    rw⁻¹ (same.1) (cut-content (suc n) (filled (some (suc n)) s) same.0 enough)
read_channel-Answers (negsuc n) s b =
    let f = filled-Filled none s in
    let same = content-filled none s b in
    let enough : to_come (filled none s) ≡ [] = ground (arith, f.enough) in
    ground (arith, same, append-nil (filled none s).buffer)

read_by_channel :
    (size : ℤ) (s : SyncStreamReader) → s.bio ≡ none → read_channel size s ≡ read size s
unfolding read
read_by_channel size s b = ground arith

-- For every size and stream, what `read` returns is what a BytesIO on the content of the stream
-- returns, and the content that is left is what the BytesIO has left.
pub read_refines :
    (size : ℤ) (s : SyncStreamReader)
    → ((read size s).0 ≡ (Bytes.read size (content s)).0)
      × (content (read size s).1 ≡ (Bytes.read size (content s)).1)
unfolding read Answers
read_refines size s = elim (Option-cases s.bio) [
  | inr (left, b) ↦ rw b (refl, refl)
  | inl b ↦
      subst (λ r. Answers r (Bytes.read size (content s))) (read_by_channel size s b)
        (read_channel-Answers size s b)
]
