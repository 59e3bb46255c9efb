-- ===== src/Wsgi/Feed.antt =====
-- src/multiloop/wsgi.py: the task `_feed_body`, which brings a request's body to the channel that
-- SyncStreamReader reads.
use gsyncio.Common.{
  ℕ, zero, suc, ◌-◌, ◌≤◌, ◌<◌, min, ◌≡◌, ◌≢◌, refl, sym, ap, ◌∙◌, ◌⊎◌, inl, inr, Option, none, some,
  List, [], ◌∷◌, ◌++◌, if◌then◌else◌, ◌==◌, arith, length, take, is_empty, is_empty-nil, negsuc,
  Bool-cases,
}
use gsyncio.Wsgi.Bytes
use gsyncio.Wsgi.Stream.{SyncStreamReader, init}
use gsyncio.Wsgi.Stream
use gsyncio.Wsgi.Stream.Refine.{arriving, read_refines}
use gsyncio.Wsgi.Stream.Whole.{non-nil-length}
use gsyncio.Wsgi.Network.{read, read-Piece}

-- What it sends, the empty chunk at the end included; none if the fuel is not enough.
unfoldable pub feed_body : (fuel rem : ℕ) → List (List ℕ) → Option (List (List ℕ))
feed_body zero rem pieces = none
feed_body (suc fuel) rem pieces =
    let (chunk, pieces') = read (min rem 65536) pieces in
    let rest = feed_body fuel (rem - length chunk) pieces' in
    if rem == 0
    then some ([] ∷ [])
    else (if is_empty chunk
        then some ([] ∷ [])
        else elim rest [ none ↦ none | some sent ↦ some (chunk ∷ sent) ])

take_front :
    (n : ℕ) (xs ys : List ℕ) → length xs ≤ n → xs ++ take (n - length xs) ys ≡ take n (xs ++ ys)
take_front n [] ys h = ap (λ k. take k ys) (omega arith)
take_front zero (x ∷ xs) ys h = absurd (omega arith)
take_front (suc n) (x ∷ xs) ys h =
    ap (x ∷◌) (ap (λ k. xs ++ take k ys) (omega arith) ∙ take_front n xs ys (omega arith))

arriving_some :
    (chunk : List ℕ) (sent : List (List ℕ))
    → chunk ≢ []
    → arriving (chunk ∷ sent) ≡ chunk ++ arriving sent
arriving_some [] sent h = absurd (h refl)
arriving_some (b ∷ bs) sent h = refl

feed_body_stops :
    (fuel rem : ℕ) (pieces : List (List ℕ))
    → (rem ≡ 0) ⊎ ((read (min rem 65536) pieces).0 ≡ [])
    → feed_body (suc fuel) rem pieces ≡ some ([] ∷ [])
unfolding feed_body
feed_body_stops fuel rem pieces h = ground arith

feed_body_on :
    (fuel rem : ℕ) (pieces sent : List (List ℕ))
    → 0 < rem
    → (read (min rem 65536) pieces).0 ≢ []
    → feed_body fuel (rem - length (read (min rem 65536) pieces).0) (read (min rem 65536) pieces).1
      ≡ some sent
    → feed_body (suc fuel) rem pieces ≡ some ((read (min rem 65536) pieces).0 ∷ sent)
unfolding feed_body
feed_body_on fuel rem pieces sent lt h e = ground arith

Fed : (fuel rem : ℕ) → List (List ℕ) → Type 0
Fed fuel rem pieces =
    (sent : List (List ℕ)) × (feed_body fuel rem pieces ≡ some sent)
    × (arriving sent ≡ take rem (arriving pieces))

take_nothing : (n : ℕ) (xs : List ℕ) → xs ≡ [] → [] ≡ take n xs
take_nothing zero xs h = refl
take_nothing (suc n) [] h = refl
take_nothing (suc n) (x ∷ xs) h = absurd (ground arith)

-- One more piece is passed on.
feed-Piece :
    (fuel rem : ℕ) (pieces : List (List ℕ))
    → 0 < rem
    → (read (min rem 65536) pieces).0 ≢ []
    → Fed fuel (rem - length (read (min rem 65536) pieces).0) (read (min rem 65536) pieces).1
    → Fed (suc fuel) rem pieces
unfolding Fed
feed-Piece fuel rem pieces lt some_chunk (sent, e, same) =
    let (chunk, pieces') = read (min rem 65536) pieces in
    let p = read-Piece (min rem 65536) pieces (omega arith) in
    let front : arriving pieces ≡ chunk ++ arriving pieces' = ground (arith, p.front) in
    let le : length chunk ≤ rem = omega (arith, p.within) in
    (
      chunk ∷ sent,
      feed_body_on fuel rem pieces sent lt some_chunk e,
      arriving_some chunk sent some_chunk
          ∙ (ap (chunk ++◌) same
              ∙ (take_front rem chunk (arriving pieces') le ∙ ap (λ a. take rem a) (sym front))),
    )

feed-Fed : (fuel rem : ℕ) (pieces : List (List ℕ)) → rem < fuel → Fed fuel rem pieces
unfolding Fed
feed-Fed zero rem pieces lt = absurd (omega arith)
feed-Fed (suc fuel) rem pieces lt = elim (Bool-cases (rem == 0)) [
  | inl all ↦
      let nothing : rem ≡ 0 = ground arith in
      (
        [] ∷ [],
        feed_body_stops fuel rem pieces (inl nothing),
        ap (λ n. take n (arriving pieces)) (sym nothing),
      )
  | inr more ↦
      let positive : 0 < rem = ground arith in
      let p = read-Piece (min rem 65536) pieces (omega arith) in
      elim (Bool-cases (is_empty (read (min rem 65536) pieces).0)) [
        | inl over ↦
            let over' = is_empty-nil (read (min rem 65536) pieces).0 over in
            (
              [] ∷ [],
              feed_body_stops fuel rem pieces (inr over'),
              take_nothing rem (arriving pieces) (ground (arith, p.ended)),
            )
        | inr some_chunk ↦
            let some_chunk' : (read (min rem 65536) pieces).0 ≢ [] = λ e. absurd (ground arith) in
            let size = non-nil-length (read (min rem 65536) pieces).0 some_chunk' in
            feed-Piece fuel rem pieces positive some_chunk' (
              feed-Fed fuel (rem - length (read (min rem 65536) pieces).0)
                (read (min rem 65536) pieces).1 (omega arith))
      ]
]

-- For a request whose body is longer than what came with its head: with more fuel than bytes
-- missing, the feeder ends, and `read(-1)` on the stream gives the first `content_length` bytes of
-- all that arrives, or all of it if the client sends less.
pub body_is_read :
    (fuel content_length : ℕ) (initial_body : List ℕ) (pieces : List (List ℕ))
    → length initial_body < content_length
    → content_length - length initial_body < fuel
    → (sent : List (List ℕ)) × (feed_body fuel (content_length - length initial_body) pieces
        ≡ some sent)
      × ((Stream.read (negsuc 0) (init (some initial_body) (some sent))).0
          ≡ take content_length (initial_body ++ arriving pieces))
unfolding Fed Bytes.read init
body_is_read fuel content_length initial_body pieces long lt =
    let (sent, e, same) = feed-Fed fuel (content_length - length initial_body) pieces lt in
    (
      sent,
      e,
      (read_refines (negsuc 0) (init (some initial_body) (some sent))).0
          ∙ (ap (initial_body ++◌) same
              ∙ take_front content_length initial_body (arriving pieces) (omega arith)),
    )
