-- ===== src/Common/Lists.antt =====
-- Lists measured by native numbers, membership and removal of numbers.
use Prim.Native.Nat.{ℕ, zero, suc, ◌+◌, ◌≤◌, ◌-◌}
use mathlib.Core.Path.{◌≡◌, refl, ap}
use mathlib.Core.Logic.{◌⊎◌, inl, inr}
use mathlib.Core.Bool.{Bool, true, false, ◌||◌}
use mathlib.Core.List.{List, [], ◌∷◌, ◌++◌}
use native.Mathlib.Omega.{arith}
use Prim.Native.String.{String}
use Prim.Native.Char.{code}
use gsyncio.Common.Tests.{◌==◌, if◌then◌else◌}

module _ {ℓ} {A : Type ℓ} where
  abbrev pub length : List A → ℕ
  length [] = 0
  length (x ∷ xs) = suc (length xs)

  pub length-append : (xs ys : List A) → length (xs ++ ys) ≡ length xs + length ys
  length-append [] ys = omega arith
  length-append (x ∷ xs) ys = omega (arith, length-append xs ys)

  pub List-cases : (xs : List A) → (xs ≡ []) ⊎ ((x : A) × (rest : List A) × (xs ≡ x ∷ rest))
  List-cases [] = inl refl
  List-cases (x ∷ rest) = inr (x, rest, refl)

  abbrev pub is_empty : List A → Bool
  is_empty [] = true
  is_empty (x ∷ xs) = false

  pub is_empty-nil : (xs : List A) → is_empty xs ≡ true → xs ≡ []
  is_empty-nil [] h = refl
  is_empty-nil (x ∷ xs) h = absurd (ground arith)

  pub is_empty-middle : (xs : List A) (y : A) (ys : List A) → is_empty (xs ++ y ∷ ys) ≡ false
  is_empty-middle [] y ys = refl
  is_empty-middle (x ∷ xs) y ys = refl

  abbrev pub get_or : List A → ℕ → A → A
  get_or [] i d = d
  get_or (x ∷ xs) zero d = x
  get_or (x ∷ xs) (suc i) d = get_or xs i d

  abbrev pub replicate : ℕ → A → List A
  replicate zero a = []
  replicate (suc n) a = a ∷ replicate n a

  abbrev pub take : ℕ → List A → List A
  take zero xs = []
  take (suc n) [] = []
  take (suc n) (x ∷ xs) = x ∷ take n xs

  abbrev pub drop : ℕ → List A → List A
  drop zero xs = xs
  drop (suc n) [] = []
  drop (suc n) (x ∷ xs) = drop n xs

  pub take-append-drop : (n : ℕ) (xs : List A) → take n xs ++ drop n xs ≡ xs
  take-append-drop zero xs = refl
  take-append-drop (suc n) [] = refl
  take-append-drop (suc n) (x ∷ xs) = rw (take-append-drop n xs)

  pub length-drop : (n : ℕ) (xs : List A) → length (drop n xs) ≡ length xs - n
  length-drop zero xs = omega arith
  length-drop (suc n) [] = omega arith
  length-drop (suc n) (x ∷ xs) = omega (arith, length-drop n xs)

  pub length-take : (n : ℕ) (xs : List A) → n ≤ length xs → length (take n xs) ≡ n
  length-take zero xs h = refl
  length-take (suc n) [] h = absurd (omega arith)
  length-take (suc n) (x ∷ xs) h = omega (arith, length-take n xs)

  pub length-eq-zero : (xs : List A) → length xs ≡ 0 → xs ≡ []
  length-eq-zero [] h = refl
  length-eq-zero (x ∷ xs) h = absurd (omega arith)

  pub take-length : (xs : List A) → take (length xs) xs ≡ xs
  take-length [] = refl
  take-length (x ∷ xs) = ap (◌∷◌ x) (take-length xs)

  pub drop-length : (xs : List A) → drop (length xs) xs ≡ []
  drop-length [] = refl
  drop-length (x ∷ xs) = drop-length xs

-- Every entry satisfies a predicate.
abbrev pub All {ℓ κ} : {A : Type ℓ} → (A → Type κ) → List A → Type κ
All P [] = Unit
All P (x ∷ xs) = P x × All P xs

-- `a in xs`
unfoldable pub contains : ℕ → List ℕ → Bool
contains a [] = false
contains a (x ∷ xs) = (a == x) || contains a xs

-- The first occurrence goes.
unfoldable pub remove : ℕ → List ℕ → List ℕ
remove a [] = []
remove a (x ∷ xs) = if a == x then xs else x ∷ remove a xs

pub length-remove :
    (a : ℕ) (xs : List ℕ) → contains a xs ≡ true → suc (length (remove a xs)) ≡ length xs
unfolding contains remove
length-remove a [] h = ground arith
length-remove a (x ∷ xs) h = ground (arith, length-remove a xs)

-- `retain`, and a comprehension that leaves one value out.
unfoldable pub retain : ℕ → List ℕ → List ℕ
retain a [] = []
retain a (x ∷ xs) = let rest = retain a xs in if a == x then rest else x ∷ rest

pub length-retain : (a : ℕ) (xs : List ℕ) → length (retain a xs) ≤ length xs
unfolding retain
length-retain a [] = omega arith
length-retain a (x ∷ xs) = ground (arith, length-retain a xs)

pub retain-nil : (a : ℕ) (xs : List ℕ) → xs ≡ [] → retain a xs ≡ []
unfolding retain
retain-nil a xs h = rw h

-- The code points of a text: its bytes, if it is ASCII.
abbrev pub codes : String → List ℕ
codes String.[] = []
codes (String.◌∷◌ c s) = code c ∷ codes s

pub contains-append-left :
    (a : ℕ) (xs ys : List ℕ) → contains a xs ≡ true → contains a (xs ++ ys) ≡ true
unfolding contains
contains-append-left a [] ys h = absurd (ground arith)
contains-append-left a (x ∷ xs) ys h = ground (arith, contains-append-left a xs ys)

pub contains-append-right :
    (a : ℕ) (xs ys : List ℕ) → contains a ys ≡ true → contains a (xs ++ ys) ≡ true
unfolding contains
contains-append-right a [] ys h = h
contains-append-right a (x ∷ xs) ys h = ground (arith, contains-append-right a xs ys h)
