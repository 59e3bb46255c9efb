-- ===== src/Sync/Semaphore/Safety.antt =====
-- Permits are neither lost nor made up, whatever the interleaving and the cancellations.
use gsyncio.Common.{ℕ, ◌+◌, ◌≡◌, ◌≢◌, some, [], ◌⊎◌, arith, length, length-remove}
use gsyncio.Common.OrderedDict.{pop, pop-absent, pop-nil}
use gsyncio.Common.Transition
use gsyncio.Sync.Wake.{wake_first-none}
use gsyncio.Sync.Semaphore.{acquire, hand_over, cancel_waiter, release}
use gsyncio.Sync.Semaphore.System.{
  System, Action, acquires, resumes, cancels, releases, step, fresh, Reachable,
}

-- `n` permits are free, on their way to a waiter, or held; nobody waits while one is free.
pub record Inv (n : ℕ) (s : System) : Type 0 where
  pub conserved : s.value + length s.granted + s.held ≡ n
  pub capacity : s.max_value ≡ n
  pub no_idle : (s.value ≡ 0) ⊎ (s.waiters ≡ [])

Step-Inv : (n : ℕ) (a : Action) (s t : System) → step a s ≡ some t → Inv n s → Inv n t
unfolding step acquire cancel_waiter release hand_over
Step-Inv n (acquires event loop) s t e v = ground arith
Step-Inv n (resumes event) s t e v = ground (arith, length-remove event s.granted)
Step-Inv n (cancels closed event) s t e v = ground (
  arith,
  wake_first-none closed (pop event s.waiters),
  pop-absent event s.waiters,
  pop-nil event s.waiters,
  length-remove event s.granted,
)
Step-Inv n (releases closed) s t e v = ground (arith, wake_first-none closed s.waiters)

Inv-fresh : (n : ℕ) → Inv n (fresh n)
Inv-fresh n = ground arith

pub Reachable-Inv : (n : ℕ) (s : System) → Reachable n s → Inv n s
Reachable-Inv n s r = Transition.Reach-invariant step (Inv n) (Step-Inv n) (Inv-fresh n) r

-- In every state that tasks can reach from a semaphore with `n` permits, by any interleaving of
-- acquisitions, resumptions, cancellations and releases, with any loops closed at any time: the
-- free permits, those handed to tasks that have not resumed, and those held add up to `n`.
pub permits_conserved :
    (n : ℕ) (s : System) → Reachable n s → s.value + length s.granted + s.held ≡ n
permits_conserved n s r = (Reachable-Inv n s r).conserved

-- In every reachable state in which a task is queued, no permit is free: all `n` are held or on
-- their way to a task.
pub no_idle_permit :
    (n : ℕ) (s : System)
    → Reachable n s
    → s.waiters ≢ []
    → (s.value ≡ 0) × (length s.granted + s.held ≡ n)
no_idle_permit n s r waiting = ground (arith, Reachable-Inv n s r)
