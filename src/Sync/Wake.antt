-- ===== src/Sync/Wake.antt =====
-- The wake-up loop that the primitives of _sync.py share: waiters leave the queue oldest first
-- until `call_soon_threadsafe` accepts one. `closed loop` says that it raises RuntimeError there.
use gsyncio.Common.{
  ℕ, ◌≡◌, refl, Bool, true, false, Option, none, some, List, [], ◌∷◌, ◌++◌, inl, inr, arith,
  if◌then◌else◌, length, All, ◌≤◌, contains,
}
use gsyncio.Common.OrderedDict.{Entry}

unfoldable pub wake_first : (ℕ → Bool) → List (ℕ × ℕ) → Option ℕ × List (ℕ × ℕ)
wake_first closed [] = (none, [])
wake_first closed ((event, loop) ∷ waiters) =
    if closed loop then wake_first closed waiters else (some event, waiters)

-- Nobody is woken only if nobody is left.
pub wake_first-none :
    (closed : ℕ → Bool) (ws : List (ℕ × ℕ))
    → (wake_first closed ws).0 ≡ none
    → (wake_first closed ws).1 ≡ []
unfolding wake_first
wake_first-none closed [] h = refl
wake_first-none closed ((event, loop) ∷ ws) h = ground (arith, wake_first-none closed ws)

pub wake_first-nil :
    (closed : ℕ → Bool) (ws : List (ℕ × ℕ)) → ws ≡ [] → wake_first closed ws ≡ (none, [])
unfolding wake_first
wake_first-nil closed ws h = rw h

pub wake_first-length :
    (closed : ℕ → Bool) (ws : List (ℕ × ℕ)) → length (wake_first closed ws).1 ≤ length ws
unfolding wake_first
wake_first-length closed [] = omega arith
wake_first-length closed ((event, loop) ∷ ws) = ground (arith, wake_first-length closed ws)

-- The waiters before the first one with an open loop are dropped; it is woken.
pub wake_first-open :
    (closed : ℕ → Bool) (dead : List (ℕ × ℕ)) (event loop : ℕ) (rest : List (ℕ × ℕ))
    → All (λ w. closed w.1 ≡ true) dead
    → closed loop ≡ false
    → wake_first closed (dead ++ (event, loop) ∷ rest) ≡ (some event, rest)
unfolding wake_first
wake_first-open closed [] event loop rest d o = ground arith
wake_first-open closed ((e, l) ∷ dead) event loop rest d o =
    ground (arith, wake_first-open closed dead event loop rest d.1)

-- The events of the entries whose loop is open: those that a wake-up of all entries schedules.
unfoldable pub wake_open : (ℕ → Bool) → List (ℕ × ℕ) → List ℕ
wake_open closed [] = []
wake_open closed ((event, loop) ∷ waiters) =
    let woken = wake_open closed waiters in if closed loop then woken else event ∷ woken

-- Every entry with an open loop is woken.
pub wake_open_complete :
    (closed : ℕ → Bool) (event loop : ℕ) (ws : List (ℕ × ℕ))
    → Entry event loop ws
    → closed loop ≡ false
    → contains event (wake_open closed ws) ≡ true
unfolding wake_open contains
wake_open_complete closed event loop [] h o = elim h [ ]
wake_open_complete closed event loop ((e, l) ∷ ws) (inl h) o = ground arith
wake_open_complete closed event loop ((e, l) ∷ ws) (inr h) o =
    ground (arith, wake_open_complete closed event loop ws h o)
