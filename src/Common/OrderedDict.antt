-- ===== src/Common/OrderedDict.antt =====
-- `collections.OrderedDict` keyed by object identities, oldest entry first.
use Prim.Native.Nat.{ℕ, suc, ◌+◌, ◌≤◌}
use mathlib.Core.Path.{◌≡◌, refl}
use mathlib.Core.Logic.{◌⊎◌, inl, inr}
use mathlib.Core.Bool.{Bool, true, false, ◌||◌}
use mathlib.Core.List.{List, [], ◌∷◌, ◌++◌}
use native.Mathlib.Omega.{arith}
use gsyncio.Common.Tests.{◌==◌, if◌then◌else◌}
use gsyncio.Common.Lists.{length}

module _ {ℓ} {V : Type ℓ} where
  -- `d[key] = v`: a known key keeps its place.
  unfoldable pub set_item : ℕ → V → List (ℕ × V) → List (ℕ × V)
  set_item key v [] = (key, v) ∷ []
  set_item key v ((k, w) ∷ d) = if key == k then (k, v) ∷ d else (k, w) ∷ set_item key v d

  -- `key in d`
  unfoldable pub has_key : ℕ → List (ℕ × V) → Bool
  has_key key [] = false
  has_key key ((k, w) ∷ d) = (key == k) || has_key key d

  -- `d.pop(key, None)`
  unfoldable pub pop : ℕ → List (ℕ × V) → List (ℕ × V)
  pop key [] = []
  pop key ((k, w) ∷ d) = if key == k then d else (k, w) ∷ pop key d

  -- A fresh key goes to the end.
  pub set_item_fresh :
      (key : ℕ) (v : V) (d : List (ℕ × V))
      → has_key key d ≡ false
      → set_item key v d ≡ d ++ (key, v) ∷ []
  unfolding set_item has_key
  set_item_fresh key v [] h = refl
  set_item_fresh key v ((k, w) ∷ d) h = ground (arith, set_item_fresh key v d)

  pub pop-absent : (key : ℕ) (d : List (ℕ × V)) → has_key key d ≡ false → pop key d ≡ d
  unfolding pop has_key
  pop-absent key [] h = refl
  pop-absent key ((k, w) ∷ d) h = ground (arith, pop-absent key d)

  pub pop-nil : (key : ℕ) (d : List (ℕ × V)) → d ≡ [] → pop key d ≡ []
  unfolding pop
  pop-nil key d h = rw h

  pub length-pop :
      (key : ℕ) (d : List (ℕ × V)) → has_key key d ≡ true → suc (length (pop key d)) ≡ length d
  unfolding pop has_key
  length-pop key [] h = ground arith
  length-pop key ((k, w) ∷ d) h = ground (arith, length-pop key d)

  pub length-set_item-le :
      (key : ℕ) (v : V) (d : List (ℕ × V)) → length (set_item key v d) ≤ length d + 1
  unfolding set_item
  length-set_item-le key v [] = omega arith
  length-set_item-le key v ((k, w) ∷ d) = ground (arith, length-set_item-le key v d)

  -- No key occurs twice.
  abbrev pub Distinct : List (ℕ × V) → Type 0
  Distinct [] = Unit
  Distinct ((k, w) ∷ d) = (has_key k d ≡ false) × Distinct d

  pub has_key-pop :
      (key j : ℕ) (d : List (ℕ × V)) → has_key j (pop key d) ≡ true → has_key j d ≡ true
  unfolding has_key pop
  has_key-pop key j [] h = h
  has_key-pop key j ((k, w) ∷ d) h = ground (arith, has_key-pop key j d)

  pub pop-Distinct : (key : ℕ) (d : List (ℕ × V)) → Distinct d → Distinct (pop key d)
  unfolding pop
  pop-Distinct key [] h = tt
  pop-Distinct key ((k, w) ∷ d) h = ground (arith, pop-Distinct key d h.1, has_key-pop key k d)

  pub has_key-pop_self : (key : ℕ) (d : List (ℕ × V)) → Distinct d → has_key key (pop key d) ≡ false
  unfolding has_key pop
  has_key-pop_self key [] h = refl
  has_key-pop_self key ((k, w) ∷ d) h = ground (arith, has_key-pop_self key d h.1)

  pub has_key-set_item :
      (key j : ℕ) (v : V) (d : List (ℕ × V))
      → has_key j (set_item key v d) ≡ ((j == key) || has_key j d)
  unfolding has_key set_item
  has_key-set_item key j v [] = refl
  has_key-set_item key j v ((k, w) ∷ d) = ground (arith, has_key-set_item key j v d)

  pub set_item-Distinct :
      (key : ℕ) (v : V) (d : List (ℕ × V)) → Distinct d → Distinct (set_item key v d)
  unfolding set_item has_key
  set_item-Distinct key v [] h = (refl, tt)
  set_item-Distinct key v ((k, w) ∷ d) h =
      ground (arith, set_item-Distinct key v d h.1, has_key-set_item key k v d)

-- The entry (key, v) is in a dictionary with numbers for values.
abbrev pub Entry : ℕ → ℕ → List (ℕ × ℕ) → Type 0
Entry key v [] = ⊥
Entry key v ((k, w) ∷ d) = ((key ≡ k) × (v ≡ w)) ⊎ Entry key v d

pub Entry-has_key : (key v : ℕ) (d : List (ℕ × ℕ)) → Entry key v d → has_key key d ≡ true
unfolding has_key
Entry-has_key key v [] h = elim h [ ]
Entry-has_key key v ((k, w) ∷ d) (inl e) = ground arith
Entry-has_key key v ((k, w) ∷ d) (inr h) = ground (arith, Entry-has_key key v d h)

pub Entry-pop : (j key v : ℕ) (d : List (ℕ × ℕ)) → Entry key v (pop j d) → Entry key v d
unfolding pop
Entry-pop j key v [] h = h
Entry-pop j key v ((k, w) ∷ d) h = ground (arith, Entry-pop j key v d)

pub Entry-set_item :
    (j u key v : ℕ) (d : List (ℕ × ℕ))
    → Entry key v (set_item j u d)
    → ((key ≡ j) × (v ≡ u)) ⊎ Entry key v d
unfolding set_item
Entry-set_item j u key v [] h = h
Entry-set_item j u key v ((k, w) ∷ d) h = ground (arith, Entry-set_item j u key v d)
