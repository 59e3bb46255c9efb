-- ===== src/Sync/Lock.antt =====
-- src/multiloop/_sync.py, class Lock. Tasks, events and loops are numbers (object identities). An
-- operation runs with `_lock` held, so it is one atomic step; it returns the event that it schedules.
pub mod System
pub mod Invariant
pub mod Steps
pub mod Safety
pub mod Order
mod Examples
use gsyncio.Common.{
  ℕ, Bool, true, false, Option, none, some, List, [], ◌∷◌, Result, ok, err, runtime_error, ◌&&◌,
  not, ◌||◌, if◌then◌else◌, is_some_eq,
}
use gsyncio.Common.OrderedDict.{set_item, has_key, pop}

pub record Lock : Type 0 where
  pub owner : Option ℕ
  pub waiters : List (ℕ × ℕ)

-- What asyncio answers: `task.done()`, `task.get_loop()`, and whether `call_soon_threadsafe` raises.
pub record Env : Type 0 where
  pub done : ℕ → Bool
  pub get_loop : ℕ → ℕ
  pub closed : ℕ → Bool

-- `locked`
unfoldable pub locked : Lock → Bool
locked s = elim s.owner [ none ↦ false | some t ↦ true ]

-- The loop of `_release_locked`: the first waiter that is not done and whose loop is open.
unfoldable pub next_live : Env → List (ℕ × ℕ) → Option (ℕ × ℕ) × List (ℕ × ℕ)
next_live env [] = (none, [])
next_live env ((event, task) ∷ waiters) =
    if env.done task || env.closed (env.get_loop task)
    then next_live env waiters
    else (some (event, task), waiters)

-- `_release_locked`
unfoldable pub release_locked : Env → Lock → Lock × Option ℕ
unfolding next_live
release_locked env s =
    let (found, rest) = next_live env s.waiters in
    elim found [
      | none ↦ (record { owner = none; waiters = rest }, none)
      | some (event, task) ↦ (record { owner = some task; waiters = rest }, some event)
    ]

-- The recovery in `acquire`: an owner that is done has lost its lock.
unfoldable pub recover : Env → Lock → Lock × Option ℕ
recover env s = elim s.owner [
  | none ↦ (s, none)
  | some owner ↦ if env.done owner then release_locked env s else (s, none)
]

-- `acquire` in a task, up to its `await`: whether the lock was taken, and the event that recovery scheduled.
unfoldable pub acquire_task : Env → ℕ → ℕ → Lock → Result (Lock × Bool × Option ℕ)
acquire_task env task event s =
    if is_some_eq s.owner task
    then err runtime_error
    else (let (r, woken) = recover env s in
        ok (elim r.owner [
          | none ↦ (record r { owner = some task }, true, woken)
          | some owner ↦ (record r { waiters = set_item event task r.waiters }, false, woken)
        ]))

-- The `except BaseException` branch of `acquire`.
unfoldable pub cancel_wait : Env → ℕ → ℕ → Lock → Lock × Option ℕ
cancel_wait env task event s =
    let was_waiter = has_key event s.waiters in
    let s' = record s { waiters = pop event s.waiters } in
    if is_some_eq s.owner task && not was_waiter then release_locked env s' else (s', none)

-- `release` in a task.
unfoldable pub release_task : Env → ℕ → Lock → Result (Lock × Option ℕ)
release_task env task s =
    if is_some_eq s.owner task then ok (release_locked env s) else err runtime_error

-- `acquire` and `release`: outside a task there is no current task, and they raise.
abbrev pub acquire : Env → Option ℕ → ℕ → Lock → Result (Lock × Bool × Option ℕ)
acquire env none event s = err runtime_error
acquire env (some task) event s = acquire_task env task event s

abbrev pub release : Env → Option ℕ → Lock → Result (Lock × Option ℕ)
release env none s = err runtime_error
release env (some task) s = release_task env task s
