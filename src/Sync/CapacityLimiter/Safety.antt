-- ===== src/Sync/CapacityLimiter/Safety.antt =====
-- The borrowed tokens are accounted for, and lending stays within the capacity.
use gsyncio.Common.{
  ℕ, ◌+◌, ◌≤◌, ◌≡◌, refl, Bool, some, List, [], ◌∷◌, ◌⊎◌, inr, arith, length, length-remove,
  length-append,
}
use gsyncio.Common.OrderedDict.{pop, pop-absent, pop-nil}
use gsyncio.Common.Transition
use gsyncio.Sync.Wake.{wake_first-none, wake_first-nil}
use gsyncio.Sync.CapacityLimiter.{fill, acquire, forward, cancel_waiter, release, set_total_tokens}
use gsyncio.Sync.CapacityLimiter.System.{
  System, Action, acquires, resumes, cancels, releases, resizes, step, fresh, Reachable,
}

-- The setter lends up to the capacity and no further, and stops only when nobody is left.
pub record Filled (capacity borrowed : ℕ) (r : ℕ × List (ℕ × ℕ) × List ℕ) : Type 0 where
  pub lent : r.0 ≡ borrowed + length r.2
  pub within : (r.0 ≤ capacity) ⊎ (r.0 ≡ borrowed)
  pub no_idle : (capacity ≤ r.0) ⊎ (r.1 ≡ [])

fill-Filled :
    (closed : ℕ → Bool) (capacity borrowed : ℕ) (ws : List (ℕ × ℕ))
    → Filled capacity borrowed (fill closed capacity borrowed ws)
unfolding fill
fill-Filled closed capacity borrowed [] = ground arith
fill-Filled closed capacity borrowed ((event, loop) ∷ ws) =
    ground (
      arith,
      fill-Filled closed capacity borrowed ws,
      fill-Filled closed capacity (borrowed + 1) ws,
    )

module _ {F : Type 0} (int : F → ℕ) (is_positive : F → Bool) where
  pub record Inv (s : System F) : Type 0 where
    pub accounted : s.borrowed ≡ length s.granted + s.held
    pub no_idle : (int s.total_tokens ≤ s.borrowed) ⊎ (s.waiters ≡ [])

  Step-Inv : (a : Action F) (s t : System F) → step int is_positive a s ≡ some t → Inv s → Inv t
  unfolding step acquire cancel_waiter forward release set_total_tokens
  Step-Inv (acquires event loop) s t e v = ground arith
  Step-Inv (resumes event) s t e v = ground (arith, length-remove event s.granted)
  Step-Inv (cancels closed event) s t e v = ground (
    arith,
    wake_first-none closed (pop event s.waiters),
    wake_first-nil closed (pop event s.waiters),
    pop-absent event s.waiters,
    pop-nil event s.waiters,
    length-remove event s.granted,
  )
  Step-Inv (releases closed) s t e v =
      ground (arith, wake_first-none closed s.waiters, wake_first-nil closed s.waiters)
  Step-Inv (resizes closed value) s t e v = ground (
    arith,
    fill-Filled closed (int value) s.borrowed s.waiters,
    length-append (fill closed (int value) s.borrowed s.waiters).2 s.granted,
  )

  Inv-fresh : (total : F) → Inv (fresh int is_positive total)
  Inv-fresh total = record { accounted = omega arith; no_idle = inr refl }

  pub Reachable-Inv : (total : F) (s : System F) → Reachable int is_positive total s → Inv s
  Reachable-Inv total s r =
      Transition.Reach-invariant (step int is_positive) Inv Step-Inv (Inv-fresh total) r

  -- In every state that tasks can reach by any interleaving of acquisitions, resumptions,
  -- cancellations, releases and resizings, with any loops closed at any time: the borrowed tokens
  -- are those held and those handed to tasks that have not resumed, and while a task is queued the
  -- whole capacity is borrowed.
  pub tokens_accounted :
      (total : F) (s : System F)
      → Reachable int is_positive total s
      → (s.borrowed ≡ length s.granted + s.held)
        × ((int s.total_tokens ≤ s.borrowed) ⊎ (s.waiters ≡ []))
  tokens_accounted total s r = let v = Reachable-Inv total s r in (v.accounted, v.no_idle)

  -- A step never raises the number of borrowed tokens beyond the capacity after it, also while a
  -- lowered capacity is exceeded.
  pub lending_within_capacity :
      (a : Action F) (s t : System F)
      → step int is_positive a s ≡ some t
      → (t.borrowed ≤ s.borrowed) ⊎ (t.borrowed ≤ int t.total_tokens)
  unfolding step acquire cancel_waiter forward release set_total_tokens
  lending_within_capacity (acquires event loop) s t e = ground arith
  lending_within_capacity (resumes event) s t e = ground arith
  lending_within_capacity (cancels closed event) s t e = ground arith
  lending_within_capacity (releases closed) s t e = ground arith
  lending_within_capacity (resizes closed value) s t e =
      ground (arith, fill-Filled closed (int value) s.borrowed s.waiters)
