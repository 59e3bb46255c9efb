-- ===== src/Sync/Lock/Order.antt =====
-- Who gets the lock next.
use gsyncio.Common.{ℕ, ◌≡◌, true, false, some, List, [], ◌∷◌, ◌++◌, ok, arith, ◌||◌, All}
use gsyncio.Sync.Lock.{Lock, Env, next_live, release_locked, release_task, release}

-- A waiter that can no longer be woken.
abbrev pub IsLost : Env → ℕ × ℕ → Type 0
IsLost env w = (env.done w.1 || env.closed (env.get_loop w.1)) ≡ true

next_live-first :
    (env : Env) (lost : List (ℕ × ℕ)) (event task : ℕ) (rest : List (ℕ × ℕ))
    → All (IsLost env) lost
    → env.done task ≡ false
    → env.closed (env.get_loop task) ≡ false
    → next_live env (lost ++ (event, task) ∷ rest) ≡ (some (event, task), rest)
unfolding next_live
next_live-first env [] event task rest l d o = ground arith
next_live-first env ((e, t) ∷ lost) event task rest l d o =
    ground (arith, next_live-first env lost event task rest l.1)

module _ (env : Env) (s : Lock) (owner : ℕ) (lost : List (ℕ × ℕ)) (event task : ℕ)
    (rest : List (ℕ × ℕ)) (owned : s.owner ≡ some owner)
    (queue : s.waiters ≡ lost ++ (event, task) ∷ rest) (gone : All (IsLost env) lost)
    (live : env.done task ≡ false) (open_loop : env.closed (env.get_loop task) ≡ false) where
  release_locked-first :
      release_locked env s ≡ (record { owner = some task; waiters = rest }, some event)
  unfolding release_locked
  release_locked-first = ground (arith, next_live-first env lost event task rest)

  -- When the owner releases, the lock passes to the task that has waited longest among those that
  -- are not done and whose loop is open; the queue entries before it are dropped, and the order of
  -- the others is kept.
  pub lock_to_longest_waiting :
      release env (some owner) s ≡ ok (record { owner = some task; waiters = rest }, some event)
  unfolding release_task
  lock_to_longest_waiting = ground (arith, release_locked-first)
