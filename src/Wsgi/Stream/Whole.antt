-- ===== src/Wsgi/Stream/Whole.antt =====
-- SyncStreamReader: `readline` and `readlines` against a BytesIO on the content of the stream.
use gsyncio.Common.{
  ℕ, zero, suc, ◌<◌, ◌≡◌, ◌≢◌, refl, sym, ap, subst, ◌∙◌, ◌⊎◌, inl, inr, Option, none, some, List,
  [], ◌∷◌, ◌++◌, arith, length, length-append, drop, is_empty, is_empty-nil, ℤ, pos, negsuc,
  append_assoc, append-nil, Bool-cases, Option-cases,
}
use gsyncio.Wsgi.Bytes.{first_line, up_to}
use gsyncio.Wsgi.Bytes
use gsyncio.Wsgi.Stream.{
  SyncStreamReader, bio_limit, max_len, readline_channel, readline, readlines_loop,
}
use gsyncio.Wsgi.Stream.Refine.{content, Answers}
use gsyncio.Wsgi.Stream.Lines.{readline_channel-Answers}

same_limit : (size : Option ℤ) → size ≢ some (pos 0) → max_len size ≡ bio_limit size
unfolding max_len
same_limit none h = refl
same_limit (some (pos zero)) h = absurd (h refl)
same_limit (some (pos (suc n))) h = refl
same_limit (some (negsuc n)) h = refl

by_channel :
    (size : Option ℤ) (s : SyncStreamReader)
    → s.bio ≡ none
    → readline_channel size s ≡ readline size s
unfolding readline
by_channel size s b = ground arith

-- For every size but 0, and every stream, what `readline` returns is what a BytesIO on the content
-- of the stream returns, and the content that is left is what the BytesIO has left.
pub readline_refines :
    (size : Option ℤ) (s : SyncStreamReader)
    → size ≢ some (pos 0)
    → ((readline size s).0 ≡ (Bytes.readline (bio_limit size) (content s)).0)
      × (content (readline size s).1 ≡ (Bytes.readline (bio_limit size) (content s)).1)
unfolding readline Answers
readline_refines size s h = elim (Option-cases s.bio) [
  | inr (left, b) ↦ rw b (refl, refl)
  | inl b ↦
      subst (λ r. Answers r (Bytes.readline (bio_limit size) (content s))) (by_channel size s b)
        (subst (λ l. Answers (readline_channel size s) (Bytes.readline l (content s)))
          (same_limit size h) (readline_channel-Answers size s b))
]

-- A `readline(0)` on a channel reads as one without a size.
zero_reads_line :
    (s : SyncStreamReader) → s.bio ≡ none → readline (some (pos 0)) s ≡ readline none s
unfolding readline readline_channel max_len
zero_reads_line s b = ground arith

first_line_whole : (xs : List ℕ) → first_line xs ++ drop (length (first_line xs)) xs ≡ xs
unfolding first_line
first_line_whole [] = refl
first_line_whole (x ∷ xs) = ground (arith, first_line_whole xs)

first_line-nil : (xs : List ℕ) → first_line xs ≡ [] → xs ≡ []
unfolding first_line
first_line-nil [] h = refl
first_line-nil (x ∷ xs) h = absurd (ground arith)

-- A line read without a limit: it comes before what is left, and is empty only at the end.
line_read :
    (s : SyncStreamReader)
    → ((readline none s).0 ++ content (readline none s).1 ≡ content s)
      × ((content s ≡ []) ⊎ ((readline none s).0 ≢ []))
unfolding Bytes.readline
line_read s =
    let r = readline_refines none s (λ e. absurd (ground arith)) in
    ground (arith, r, first_line_whole (content s), first_line-nil (content s))

abbrev pub concat : List (List ℕ) → List ℕ
concat [] = []
concat (xs ∷ rest) = xs ++ concat rest

readlines_stop :
    (fuel n : ℕ) (lines : List (List ℕ)) (s : SyncStreamReader)
    → (readline none s).0 ≡ []
    → readlines_loop (suc fuel) (negsuc n) lines s ≡ some (lines, (readline none s).1)
unfolding readlines_loop
readlines_stop fuel n lines s h = ground arith

readlines_on :
    (fuel n : ℕ) (lines : List (List ℕ)) (s : SyncStreamReader)
    → (readline none s).0 ≢ []
    → readlines_loop (suc fuel) (negsuc n) lines s
      ≡ readlines_loop fuel (negsuc n) (lines ++ (readline none s).0 ∷ []) (readline none s).1
unfolding readlines_loop
readlines_on fuel n lines s h = ground arith

pub non-nil-length : (xs : List ℕ) → xs ≢ [] → 0 < length xs
non-nil-length [] h = absurd (h refl)
non-nil-length (x ∷ xs) h = omega arith

-- With more fuel than bytes to come and without a hint, the loop of `readlines` returns: it appends
-- lines that make up the content of the stream, in order, and leaves nothing.
pub readlines_whole :
    (fuel n : ℕ) (lines : List (List ℕ)) (s : SyncStreamReader)
    → length (content s) < fuel
    → (more : List (List ℕ)) × (s' : SyncStreamReader) × (readlines_loop fuel (negsuc n) lines s
        ≡ some (lines ++ more, s'))
      × (concat more ≡ content s)
      × (content s' ≡ [])
readlines_whole zero n lines s lt = absurd (omega arith)
readlines_whole (suc fuel) n lines s lt =
    let (whole, shrinks) = line_read s in
    let (line, s') = readline none s in
    elim (Bool-cases (is_empty line)) [
      | inl over ↦
          let over' = is_empty-nil line over in
          (
            [],
            s',
            readlines_stop fuel n lines s over' ∙ ap (λ l. some (l, s')) (sym (append-nil lines)),
            ground arith,
            ground arith,
          )
      | inr more ↦
          let line_some : line ≢ [] = λ e. absurd (ground arith) in
          let shorter : length (content s') < fuel =
            ground (arith, whole, length-append line (content s'), non-nil-length line line_some) in
          let (lines', s'', e, same, nothing) =
            readlines_whole fuel n (lines ++ line ∷ []) s' shorter in
          (
            line ∷ lines',
            s'',
            readlines_on fuel n lines s line_some
                ∙ (e ∙ ap (λ l. some (l, s'')) (append_assoc lines (line ∷ []) lines')),
            ap (line ++◌) same ∙ whole,
            nothing,
          )
    ]
