-- ===== src/Sync/Semaphore.antt =====
-- src/multiloop/_sync.py, class Semaphore. Events and event loops are numbers (object identities).
-- A permit goes to a waiter by scheduling its event; `release` and `_cancel_waiter` return that event.
pub mod System
pub mod Safety
pub mod Order
mod Examples
use gsyncio.Common.{
  ℕ, ◌+◌, ◌-◌, Bool, true, false, Option, none, some, List, [], ◌∷◌, Result, ok, err, value_error,
  ℤ, pos, negsuc, if◌then◌else◌, ltb, leb, is_empty,
}
use gsyncio.Common.OrderedDict.{set_item, has_key, pop}
use gsyncio.Sync.Wake.{wake_first}

pub record Semaphore : Type 0 where
  pub value : ℕ
  pub max_value : ℕ
  pub waiters : List (ℕ × ℕ)

-- `__init__`
unfoldable pub init : ℤ → Result Semaphore
init (pos n) = ok (record { value = n; max_value = n; waiters = [] })
init (negsuc n) = err value_error

-- `acquire` up to its `await`: true if it returned with a permit, false if it waits on `event`.
unfoldable pub acquire : ℕ → ℕ → Semaphore → Semaphore × Bool
acquire event loop s =
    if ltb 0 s.value
    then (record s { value = s.value - 1 }, true)
    else (record s { waiters = set_item event loop s.waiters }, false)

-- The loop of `release` and of `_cancel_waiter`, with the increment behind it.
unfoldable pub hand_over : (ℕ → Bool) → Semaphore → Semaphore × Option ℕ
unfolding wake_first
hand_over closed s =
    let (woken, rest) = wake_first closed s.waiters in
    elim woken [
      | none ↦ (record s { value = s.value + 1; waiters = rest }, none)
      | some event ↦ (record s { waiters = rest }, some event)
    ]

-- `_cancel_waiter`: the `except BaseException` branch of `acquire`.
unfoldable pub cancel_waiter : (ℕ → Bool) → ℕ → Semaphore → Semaphore × Option ℕ
cancel_waiter closed event s =
    let was_present = has_key event s.waiters in
    let s' = record s { waiters = pop event s.waiters } in
    if was_present then (s', none) else hand_over closed s'

-- `release`
unfoldable pub release : (ℕ → Bool) → Semaphore → Result (Semaphore × Option ℕ)
release closed s =
    if is_empty s.waiters
    then (if leb s.max_value s.value
        then err value_error
        else ok (record s { value = s.value + 1 }, none))
    else ok (hand_over closed s)
