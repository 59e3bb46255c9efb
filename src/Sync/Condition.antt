-- ===== src/Sync/Condition.antt =====
-- src/multiloop/_sync.py, class Condition: a condition variable over a Lock. A waiter is known by
-- the asyncio event that it awaits, and its loop.
pub mod Notify
pub mod Waiting
use gsyncio.Common.{
  ℕ, Bool, true, false, Option, none, some, List, [], ◌∷◌, Result, ok, err, runtime_error, ℤ, pos,
  negsuc, length, min, take, drop, if◌then◌else◌, is_some_eq, not, ◌||◌, ◌==◌,
}
use gsyncio.Common.OrderedDict.{set_item, has_key, pop}
use gsyncio.Sync.Wake.{wake_first, wake_open}
use gsyncio.Sync.Lock.{Lock, Env, locked, acquire, release}

pub record Condition : Type 0 where
  pub lock : Lock
  pub waiters : List (ℕ × ℕ)

-- `_pop_waiters`: the entries popped, and those left.
unfoldable pub pop_waiters : ℕ → List (ℕ × ℕ) → List (ℕ × ℕ) × List (ℕ × ℕ)
pop_waiters n waiters =
    let count = min n (length waiters) in (take count waiters, drop count waiters)

-- `notify`, with the events that it schedules; a closed loop's RuntimeError is passed over.
unfoldable pub notify : (ℕ → Bool) → ℤ → Condition → Condition × List ℕ
notify closed (negsuc n) c = (c, [])
notify closed (pos n) c =
    let (popped, left) = pop_waiters n c.waiters in
    if n == 0 then (c, []) else (record c { waiters = left }, wake_open closed popped)

-- `notify_all`
unfoldable pub notify_all : (ℕ → Bool) → Condition → Condition × List ℕ
notify_all closed c = notify closed (pos (length c.waiters)) c

-- `_forward_notify`
unfoldable pub forward_notify : (ℕ → Bool) → Condition → Condition × Option ℕ
forward_notify closed c =
    let (woken, left) = wake_first closed c.waiters in (record c { waiters = left }, woken)

-- `wait` up to its `await`: the task is registered on `event`, then the lock is released, which
-- may schedule the event of the next owner.
unfoldable pub wait : Env → Option ℕ → ℕ → ℕ → Condition → Result (Condition × Option ℕ)
wait env none event loop c = err runtime_error
wait env (some task) event loop c =
    let waiters = set_item event loop c.waiters in
    if not (locked c.lock) || not (is_some_eq c.lock.owner task)
    then err runtime_error
    else elim (release env (some task) c.lock) [
      | err e ↦ err e
      | ok (lock', woken) ↦ ok (record { lock = lock'; waiters = waiters }, woken)
    ]

-- The `except BaseException` branch of `wait`, before the lock is taken again: a task that was
-- already notified passes the notification on.
unfoldable pub cancel_wait : (ℕ → Bool) → ℕ → Condition → Condition × Option ℕ
cancel_wait closed event c =
    let was_present = has_key event c.waiters in
    let c' = record c { waiters = pop event c.waiters } in
    if was_present then (c', none) else forward_notify closed c'

-- One answer of the lock in `_reacquire_lock`: `acquire` returned, was cancelled, or raised.
pub data Attempt : Type 0 where
  acquired : Attempt
  cancelled : Attempt
  raised : Attempt

-- `_reacquire_lock` over the outcomes of its calls of `acquire`: it goes on until one is no
-- cancellation. `none`: the outcomes given do not end the loop.
unfoldable pub reacquire_lock : Bool → List Attempt → Option (Result Bool)
reacquire_lock was_cancelled [] = none
reacquire_lock was_cancelled (acquired ∷ attempts) = some (ok was_cancelled)
reacquire_lock was_cancelled (raised ∷ attempts) = some (err runtime_error)
reacquire_lock was_cancelled (cancelled ∷ attempts) = reacquire_lock true attempts
