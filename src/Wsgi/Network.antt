-- ===== src/Wsgi/Network.antt =====
-- The asyncio.StreamReader that src/multiloop/wsgi.py reads from: the pieces that arrive, the end of
-- the stream behind them. An empty piece is the end, too. A read that times out is left out.
use gsyncio.Common.{
  ℕ, ◌-◌, ◌≤◌, ◌<◌, ◌≡◌, ◌≢◌, refl, sym, ap, ◌∙◌, length-take, length-drop, take-append-drop,
  append_assoc, ◌⊎◌, inl, inr, List, [], ◌∷◌, ◌++◌, if◌then◌else◌, leb, arith, length, take, drop,
  Bool-cases,
}
use gsyncio.Wsgi.Stream.Refine.{arriving}

-- `await reader.read(size)`: at most so many bytes.
unfoldable pub read : ℕ → List (List ℕ) → List ℕ × List (List ℕ)
read size [] = ([], [])
read size (piece ∷ pieces) =
    if leb (length piece) size then (piece, pieces) else (take size piece, drop size piece ∷ pieces)

arriving_cons :
    (xs : List ℕ) (pieces : List (List ℕ))
    → 0 < length xs
    → arriving (xs ∷ pieces) ≡ xs ++ arriving pieces
arriving_cons [] pieces lt = absurd (omega arith)
arriving_cons (x ∷ xs) pieces lt = refl

-- What a read gives: nothing at the end, else the front of what arrives, which goes on behind it.
pub record Piece (size : ℕ) (pieces : List (List ℕ)) (chunk : List ℕ) (rest : List (List ℕ))
    : Type 0 where
  pub front : (chunk ≡ []) ⊎ (arriving pieces ≡ chunk ++ arriving rest)
  pub ended : (chunk ≢ []) ⊎ (arriving pieces ≡ [])
  pub within : length chunk ≤ size

-- A piece that is too long is split.
split-Piece :
    (size : ℕ) (piece : List ℕ) (pieces : List (List ℕ))
    → 0 < size
    → size < length piece
    → Piece size (piece ∷ pieces) (take size piece) (drop size piece ∷ pieces)
split-Piece size piece pieces lt long =
    let taken : length (take size piece) ≡ size = length-take size piece (omega arith) in
    let left : length (drop size piece) ≡ length piece - size = length-drop size piece in
    record {
      front = inr (
          arriving_cons piece pieces (omega arith)
          ∙ (ap (◌++ arriving pieces) (sym (take-append-drop size piece))
              ∙ (append_assoc (take size piece) (drop size piece) (arriving pieces)
                  ∙ ap (take size piece ++◌)
                      (sym (arriving_cons (drop size piece) pieces (omega arith))))));
      ended = inl (λ e. absurd (omega (arith, ap length e)));
      within = omega arith;
    }

pub read-Piece :
    (size : ℕ) (pieces : List (List ℕ))
    → 0 < size
    → Piece size pieces (read size pieces).0 (read size pieces).1
unfolding read
read-Piece size [] lt = ground arith
read-Piece size ([] ∷ pieces) lt = ground arith
read-Piece size ((b ∷ bs) ∷ pieces) lt = elim (Bool-cases (leb (length (b ∷ bs)) size)) [
  | inl fits ↦ ground arith
  | inr long ↦ rw long (split-Piece size (b ∷ bs) pieces lt (ground arith))
]
