-- ===== src/Wsgi/Stream/Lines.antt =====
-- `readline` on a channel answers as a BytesIO on all that the channel brings.
use gsyncio.Common.{
  ℕ, zero, suc, ◌≤◌, min, ◌≡◌, refl, ap, subst, ◌∙◌, ◌⊎◌, inl, inr, true, false, Option, none, some,
  List, [], ◌∷◌, ◌++◌, leb, arith, length, length-take, drop-length, take, ℤ, append-nil,
  Bool-cases, Option-cases,
}
use gsyncio.Wsgi.Bytes.{find, first_line, up_to, find-lt, first_line_found, first_line_on}
use gsyncio.Wsgi.Bytes
use gsyncio.Wsgi.Stream.{
  SyncStreamReader, receive, cut, cut_all, max_len, line_end, line_loop, readline_channel,
}
use gsyncio.Wsgi.Stream.Refine.{
  to_come, content, receive-content, Answers, take_within, drop_within,
}

take_more : (n : ℕ) (xs : List ℕ) → length xs ≤ n → take n xs ≡ xs
take_more zero [] h = refl
take_more (suc n) [] h = refl
take_more zero (x ∷ xs) h = absurd (omega arith)
take_more (suc n) (x ∷ xs) h = ap (x ∷◌) (take_more n xs (omega arith))

take_shorter : (m n : ℕ) (xs : List ℕ) → m ≤ n → take m (take n xs) ≡ take m xs
take_shorter zero n xs h = refl
take_shorter (suc m) zero xs h = absurd (omega arith)
take_shorter (suc m) (suc n) [] h = refl
take_shorter (suc m) (suc n) (x ∷ xs) h = ap (x ∷◌) (take_shorter m n xs (omega arith))

length-take_le : (n : ℕ) (xs : List ℕ) → length (take n xs) ≤ n
length-take_le zero xs = omega arith
length-take_le (suc n) [] = omega arith
length-take_le (suc n) (x ∷ xs) = omega (arith, length-take_le n xs)

take-min : (m n : ℕ) (xs : List ℕ) → take m (take n xs) ≡ take (min n m) xs
take-min m n xs = elim (Bool-cases (leb m n)) [
  | inl le ↦ take_shorter m n xs (ground arith) ∙ ap (λ k. take k xs) (ground arith)
  | inr gt ↦
      let lt : n ≤ m = ground arith in
      take_more m (take n xs) (omega (arith, length-take_le n xs))
      ∙ ap (λ k. take k xs) (omega arith)
]

-- A line that the buffer holds is the first line of all that comes.
Held : Option ℕ → List ℕ → List ℕ → ℕ → Type 0
Held limit buffer more end =
    (up_to limit (first_line (buffer ++ more)) ≡ take end buffer) × (end ≤ length buffer)

line-Held :
    (limit : Option ℕ) (buffer more : List ℕ) (end : ℕ)
    → line_end limit buffer ≡ some end
    → Held limit buffer more end
unfolding line_end Held
line-Held none buffer more end h = elim (Option-cases (find 10 buffer)) [
  | inl absent ↦ absurd (ground arith)
  | inr (i, found) ↦ ground (arith, first_line_found buffer more i found, find-lt 10 buffer i found)
]
line-Held (some m) buffer more end h = elim (Option-cases (find 10 buffer)) [
  | inl absent ↦ ground (
    arith,
    first_line_on buffer more absent,
    take_within m buffer (first_line more) (ground arith),
  )
  | inr (i, found) ↦ ground (
    arith,
    first_line_found buffer more i found,
    find-lt 10 buffer i found,
    take-min m (suc i) buffer,
  )
]

-- When nothing else comes, a buffer without a line is the last one.
last_line :
    (limit : Option ℕ) (buffer : List ℕ)
    → line_end limit buffer ≡ none
    → up_to limit (first_line (buffer ++ [])) ≡ buffer
unfolding line_end first_line
last_line none buffer h = elim (Option-cases (find 10 buffer)) [
  | inl absent ↦ ground (arith, first_line_on buffer [] absent, append-nil buffer)
  | inr (i, found) ↦ absurd (ground arith)
]
last_line (some m) buffer h = elim (Option-cases (find 10 buffer)) [
  | inl absent ↦
      ground (
        arith,
        first_line_on buffer [] absent,
        append-nil buffer,
        take_more m buffer (ground arith),
      )
  | inr (i, found) ↦ absurd (ground arith)
]

cut_held :
    (limit : Option ℕ) (s : SyncStreamReader) (end : ℕ)
    → s.bio ≡ none
    → line_end limit s.buffer ≡ some end
    → Answers (cut end s) (Bytes.readline limit (content s))
unfolding cut Answers Bytes.readline Held
cut_held limit s end b h =
    let held = line-Held limit s.buffer (to_come s) end h in
    let size = length-take end s.buffer held.1 in
    let rest = drop_within end s.buffer (to_come s) held.1 in ground (arith, held, size, rest)

cut_last :
    (limit : Option ℕ) (s : SyncStreamReader)
    → s.bio ≡ none
    → line_end limit s.buffer ≡ none
    → to_come s ≡ []
    → Answers (cut_all s) (Bytes.readline limit (content s))
unfolding Answers Bytes.readline
cut_last limit s b h nothing =
    ground (arith, last_line limit s.buffer h, append-nil s.buffer, drop-length s.buffer)

loop_held :
    (limit : Option ℕ) (chunks : List (List ℕ)) (s : SyncStreamReader) (end : ℕ)
    → line_end limit s.buffer ≡ some end
    → cut end s ≡ line_loop limit chunks s
unfolding line_loop
loop_held limit [] s end h = rw (h, line_loop) refl
loop_held limit (chunk ∷ chunks) s end h = rw (h, line_loop) refl

loop_over :
    (limit : Option ℕ) (chunks : List (List ℕ)) (s : SyncStreamReader)
    → line_end limit s.buffer ≡ none
    → s.eof ≡ true
    → cut_all s ≡ line_loop limit chunks s
unfolding line_loop
loop_over limit [] s h e = ground arith
loop_over limit (chunk ∷ chunks) s h e = ground arith

loop_on :
    (limit : Option ℕ) (chunk : List ℕ) (chunks : List (List ℕ)) (s : SyncStreamReader)
    → line_end limit s.buffer ≡ none
    → s.eof ≡ false
    → (receive (chunk ∷ chunks) s).eof ≡ false
    → line_loop limit chunks (receive (chunk ∷ chunks) s) ≡ line_loop limit (chunk ∷ chunks) s
unfolding line_loop
loop_on limit chunk chunks s h e e' = ground arith

-- The stream ends with an exception or an empty chunk: the buffer is the last line.
loop_raises :
    (limit : Option ℕ) (s : SyncStreamReader)
    → line_end limit s.buffer ≡ none
    → s.eof ≡ false
    → cut_all (receive [] s) ≡ line_loop limit [] s
unfolding line_loop
loop_raises limit s h e = ground arith

loop_empty :
    (limit : Option ℕ) (chunks : List (List ℕ)) (s : SyncStreamReader)
    → line_end limit s.buffer ≡ none
    → s.eof ≡ false
    → cut_all (receive ([] ∷ chunks) s) ≡ line_loop limit ([] ∷ chunks) s
unfolding line_loop receive
loop_empty limit chunks s h e = ground arith

content_received :
    (chunks : List (List ℕ)) (s : SyncStreamReader)
    → s.bio ≡ none
    → s.channel ≡ some chunks
    → s.eof ≡ false
    → ((receive chunks s).bio ≡ none) × (content (receive chunks s) ≡ content s)
unfolding receive
content_received [] s b c e = ground (arith, receive-content [] s c e)
content_received ([] ∷ chunks) s b c e = ground (arith, receive-content ([] ∷ chunks) s c e)
content_received ((x ∷ xs) ∷ chunks) s b c e =
    ground (arith, receive-content ((x ∷ xs) ∷ chunks) s c e)

-- Equal answers for equal contents.
equal-Answers :
    (limit : Option ℕ) {r r' : List ℕ × SyncStreamReader} {c c' : List ℕ}
    → r ≡ r'
    → c' ≡ c
    → Answers r (Bytes.readline limit c')
    → Answers r' (Bytes.readline limit c)
equal-Answers limit {r} {r'} {c} {c'} same kept h =
    subst (λ q. Answers q (Bytes.readline limit c)) same
      (subst (λ k. Answers r (Bytes.readline limit k)) kept h)

-- The loop ends at once, or goes on with a chunk.
line_loop_cases :
    (limit : Option ℕ) (chunks : List (List ℕ)) (s : SyncStreamReader)
    → s.bio ≡ none
    → Answers (line_loop limit chunks s) (Bytes.readline limit (content s))
      ⊎ ((line_end limit s.buffer ≡ none) × (s.eof ≡ false))
line_loop_cases limit chunks s b = elim (Option-cases (line_end limit s.buffer)) [
  | inr (end, held) ↦
      inl
        (equal-Answers limit (loop_held limit chunks s end held) refl (cut_held limit s end b held))
  | inl no_line ↦ elim (Bool-cases s.eof) [
    | inl over ↦ inl (
        equal-Answers limit (loop_over limit chunks s no_line over) refl
          (cut_last limit s b no_line (ground arith)))
    | inr opened ↦ inr (no_line, opened)
  ]
]

pub line_loop-Answers :
    (limit : Option ℕ) (chunks : List (List ℕ)) (s : SyncStreamReader)
    → s.bio ≡ none
    → s.channel ≡ some chunks
    → Answers (line_loop limit chunks s) (Bytes.readline limit (content s))
unfolding receive
line_loop-Answers limit [] s b c = elim (line_loop_cases limit [] s b) [
  | inl done ↦ done
  | inr (no_line, opened) ↦
      let kept = content_received [] s b c opened in
      equal-Answers limit (loop_raises limit s no_line opened) kept.1
        (cut_last limit (receive [] s) kept.0 no_line refl)
]
line_loop-Answers limit ([] ∷ chunks) s b c = elim (line_loop_cases limit ([] ∷ chunks) s b) [
  | inl done ↦ done
  | inr (no_line, opened) ↦
      let kept = content_received ([] ∷ chunks) s b c opened in
      equal-Answers limit (loop_empty limit chunks s no_line opened) kept.1
        (cut_last limit (receive ([] ∷ chunks) s) kept.0 no_line refl)
]
line_loop-Answers limit ((x ∷ xs) ∷ chunks) s b c =
    elim (line_loop_cases limit ((x ∷ xs) ∷ chunks) s b) [
      | inl done ↦ done
      | inr (no_line, opened) ↦
          let kept = content_received ((x ∷ xs) ∷ chunks) s b c opened in
          equal-Answers limit (loop_on limit (x ∷ xs) chunks s no_line opened opened) kept.1
            (line_loop-Answers limit chunks (receive ((x ∷ xs) ∷ chunks) s) kept.0 refl)
    ]

open_channel :
    (size : Option ℤ) (chunks : List (List ℕ)) (s : SyncStreamReader)
    → s.channel ≡ some chunks
    → line_loop (max_len size) chunks s ≡ readline_channel size s
unfolding readline_channel
open_channel size chunks s c = ground arith

shut_held :
    (size : Option ℤ) (s : SyncStreamReader) (end : ℕ)
    → s.channel ≡ none
    → line_end (max_len size) s.buffer ≡ some end
    → cut end s ≡ readline_channel size s
unfolding readline_channel
shut_held size s end c h = ground arith

shut_last :
    (size : Option ℤ) (s : SyncStreamReader)
    → s.channel ≡ none
    → line_end (max_len size) s.buffer ≡ none
    → cut_all s ≡ readline_channel size s
unfolding readline_channel
shut_last size s c h = ground arith

pub readline_channel-Answers :
    (size : Option ℤ) (s : SyncStreamReader)
    → s.bio ≡ none
    → Answers (readline_channel size s) (Bytes.readline (max_len size) (content s))
readline_channel-Answers size s b = elim (Option-cases s.channel) [
  | inr (chunks, c) ↦
      equal-Answers (max_len size) (open_channel size chunks s c) refl
        (line_loop-Answers (max_len size) chunks s b c)
  | inl shut ↦ elim (Option-cases (line_end (max_len size) s.buffer)) [
    | inr (end, held) ↦
        equal-Answers (max_len size) (shut_held size s end shut held) refl
          (cut_held (max_len size) s end b held)
    | inl no_line ↦
        equal-Answers (max_len size) (shut_last size s shut no_line) refl
          (cut_last (max_len size) s b no_line (ground arith))
  ]
]
