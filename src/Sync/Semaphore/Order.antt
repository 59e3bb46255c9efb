-- ===== src/Sync/Semaphore/Order.antt =====
-- Who gets a permit.
use gsyncio.Common.{
  ℕ, ◌≡◌, Bool, true, false, some, List, ◌∷◌, ◌++◌, ok, arith, All, is_empty-middle,
}
use gsyncio.Sync.Wake.{wake_first-open}
use gsyncio.Sync.Semaphore.{Semaphore, hand_over, release}

hand_over_open :
    (closed : ℕ → Bool) (s : Semaphore) (dead : List (ℕ × ℕ)) (event loop : ℕ) (rest : List (ℕ × ℕ))
    → s.waiters ≡ dead ++ (event, loop) ∷ rest
    → All (λ w. closed w.1 ≡ true) dead
    → closed loop ≡ false
    → hand_over closed s ≡ (record s { waiters = rest }, some event)
unfolding hand_over
hand_over_open closed s dead event loop rest e d o =
    ground (arith, wake_first-open closed dead event loop rest)

-- `release` hands its permit to the task that has waited longest among those whose loop is open,
-- drops the queue entries before it, keeps the order of the others, and leaves the count alone.
pub release_longest_waiting :
    (closed : ℕ → Bool) (s : Semaphore) (dead : List (ℕ × ℕ)) (event loop : ℕ) (rest : List (ℕ × ℕ))
    → s.waiters ≡ dead ++ (event, loop) ∷ rest
    → All (λ w. closed w.1 ≡ true) dead
    → closed loop ≡ false
    → release closed s ≡ ok (record s { waiters = rest }, some event)
unfolding release
release_longest_waiting closed s dead event loop rest e d o = ground (
  arith,
  is_empty-middle dead (event, loop) rest,
  hand_over_open closed s dead event loop rest e d o,
)
