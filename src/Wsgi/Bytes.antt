-- ===== src/Wsgi/Bytes.antt =====
-- What src/multiloop/wsgi.py uses of Python's bytes and of io.BytesIO; a byte is its number.
use gsyncio.Common.{
  ℕ, suc, ◌<◌, ◌≡◌, refl, inl, inr, Option, none, some, List, [], ◌∷◌, ◌++◌, if◌then◌else◌, ◌==◌,
  arith, length, take, drop, ℤ, pos, negsuc, Option-cases,
}

-- `data.find(bytes([b]))`
unfoldable pub find : ℕ → List ℕ → Option ℕ
find b [] = none
find b (x ∷ xs) =
    let later = find b xs in
    if b == x then some 0 else elim later [ none ↦ none | some i ↦ some (suc i) ]

-- Up to the first newline, which belongs to it.
unfoldable pub first_line : List ℕ → List ℕ
first_line [] = []
first_line (x ∷ xs) = let later = first_line xs in if 10 == x then x ∷ [] else x ∷ later

-- At most so many bytes, if there is a limit.
abbrev pub up_to : Option ℕ → List ℕ → List ℕ
up_to none bytes = bytes
up_to (some n) bytes = take n bytes

-- `BytesIO.read` and `BytesIO.readline` on what is left, with what they leave.
unfoldable pub read : ℤ → List ℕ → List ℕ × List ℕ
read (pos n) bytes = (take n bytes, drop n bytes)
read (negsuc n) bytes = (bytes, [])

unfoldable pub readline : Option ℕ → List ℕ → List ℕ × List ℕ
readline limit bytes = let line = up_to limit (first_line bytes) in (line, drop (length line) bytes)

pub find-lt : (b : ℕ) (xs : List ℕ) (i : ℕ) → find b xs ≡ some i → i < length xs
unfolding find
find-lt b [] i h = absurd (ground arith)
find-lt b (x ∷ xs) i h = elim (Option-cases (find b xs)) [
  | inl later ↦ ground arith
  | inr (j, later) ↦ ground (arith, find-lt b xs j later)
]

-- The first line ends behind a newline that is found,
pub first_line_found :
    (xs ys : List ℕ) (i : ℕ) → find 10 xs ≡ some i → first_line (xs ++ ys) ≡ take (suc i) xs
unfolding find first_line
first_line_found [] ys i h = absurd (ground arith)
first_line_found (x ∷ xs) ys i h = elim (Option-cases (find 10 xs)) [
  | inl later ↦ ground arith
  | inr (j, later) ↦ ground (arith, first_line_found xs ys j later)
]

-- and goes on behind bytes without one.
pub first_line_on :
    (xs ys : List ℕ) → find 10 xs ≡ none → first_line (xs ++ ys) ≡ xs ++ first_line ys
unfolding find first_line
first_line_on [] ys h = refl
first_line_on (x ∷ xs) ys h = ground (arith, first_line_on xs ys)
