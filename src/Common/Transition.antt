-- ===== src/Common/Transition.antt =====
-- A system as an executable step function: an action that is not enabled gives `none`. What is
-- reachable is an inductive family, so an invariant is proved once for all interleavings.
use mathlib.Core.Path.{◌≡◌}
use mathlib.Core.List.{List, [], ◌∷◌}
use mathlib.Core.Option.{Option, none, some}

module _ {S A : Type 0} (step : A → S → Option S) where
  pub data Reach (s : S) : S → Type 0 where
    start : Reach s s
    next : {t u : S} (a : A) → Reach s t → step a t ≡ some u → Reach s u

  pub Reach-invariant :
      (P : S → Type 0)
      → ((a : A) (s t : S) → step a s ≡ some t → P s → P t)
      → {s t : S} → P s
      → Reach s t
      → P t
  Reach-invariant P keep p start = p
  Reach-invariant P keep p (next {t} {u} a r e) = keep a t u e (Reach-invariant P keep p r)

  -- A schedule: the actions in turn.
  unfoldable pub run : List A → S → Option S
  run [] s = some s
  run (a ∷ rest) s = elim (step a s) [ none ↦ none | some t ↦ run rest t ]
