-- ===== src/Sync/CapacityLimiter.antt =====
-- src/multiloop/_sync.py, class CapacityLimiter. `total_tokens` is a float: its type `F`, the
-- conversion `int` and the sign test are parameters. A token goes to a waiter by scheduling its event.
pub mod System
pub mod Safety
mod Examples
use gsyncio.Common.{
  ℕ, ◌+◌, ◌-◌, Bool, true, false, Option, none, some, List, [], ◌∷◌, Result, ok, err, value_error,
  if◌then◌else◌, ltb, leb,
}
use gsyncio.Common.OrderedDict.{set_item, has_key, pop}
use gsyncio.Sync.Wake.{wake_first}

pub record CapacityLimiter (F : Type 0) : Type 0 where
  pub total_tokens : F
  pub borrowed : ℕ
  pub waiters : List (ℕ × ℕ)

-- The loop of the `total_tokens` setter: the borrowed tokens, the queue, and the events scheduled.
unfoldable pub fill : (ℕ → Bool) → ℕ → ℕ → List (ℕ × ℕ) → ℕ × List (ℕ × ℕ) × List ℕ
fill closed capacity borrowed [] = (borrowed, [], [])
fill closed capacity borrowed ((event, loop) ∷ waiters) =
    let (borrowed', rest, woken) =
      fill closed capacity (if closed loop then borrowed else borrowed + 1) waiters in
    if ltb borrowed capacity
    then (borrowed', rest, if closed loop then woken else event ∷ woken)
    else (borrowed, (event, loop) ∷ waiters, [])

module _ {F : Type 0} (int : F → ℕ) where
  -- `available_capacity`
  unfoldable pub available_capacity : CapacityLimiter F → ℕ
  available_capacity s = int s.total_tokens - s.borrowed

  -- `acquire` up to its `await`: true if it returned with a token, false if it waits on `event`.
  unfoldable pub acquire : ℕ → ℕ → CapacityLimiter F → CapacityLimiter F × Bool
  acquire event loop s =
      if ltb s.borrowed (int s.total_tokens)
      then (record s { borrowed = s.borrowed + 1 }, true)
      else (record s { waiters = set_item event loop s.waiters }, false)

  -- The loop of `_cancel_waiter`, with the decrement behind it. The caller was lent a token, so
  -- `borrowed` is positive there.
  unfoldable pub forward : (ℕ → Bool) → CapacityLimiter F → CapacityLimiter F × Option ℕ
  forward closed s =
      let (woken, rest) = wake_first closed s.waiters in
      if leb s.borrowed (int s.total_tokens)
      then elim woken [
        | none ↦ (record s { waiters = rest; borrowed = s.borrowed - 1 }, none)
        | some next ↦ (record s { waiters = rest }, some next)
      ]
      else (record s { borrowed = s.borrowed - 1 }, none)

  -- `_cancel_waiter`: the `except BaseException` branch of `acquire`.
  unfoldable pub cancel_waiter : (ℕ → Bool) → ℕ → CapacityLimiter F → CapacityLimiter F × Option ℕ
  cancel_waiter closed event s =
      let s' = record s { waiters = pop event s.waiters } in
      if has_key event s.waiters then (s', none) else forward closed s'

  -- `release`
  unfoldable pub release : (ℕ → Bool) → CapacityLimiter F → Result (CapacityLimiter F × Option ℕ)
  release closed s =
      let borrowed = s.borrowed - 1 in
      let (woken, rest) = wake_first closed s.waiters in
      if leb s.borrowed 0
      then err value_error
      else (if ltb borrowed (int s.total_tokens)
          then elim woken [
            | none ↦ ok (record s { borrowed = borrowed; waiters = rest }, none)
            | some event ↦ ok (record s { borrowed = borrowed + 1; waiters = rest }, some event)
          ]
          else ok (record s { borrowed = borrowed }, none))

  module _ (is_positive : F → Bool) where
    -- `__init__`
    unfoldable pub init : F → Result (CapacityLimiter F)
    init total_tokens =
        if is_positive total_tokens
        then ok (record { total_tokens = total_tokens; borrowed = 0; waiters = [] })
        else err value_error

    -- The setter of `total_tokens`, with the events that it schedules.
    unfoldable pub set_total_tokens :
        (ℕ → Bool) → F → CapacityLimiter F → Result (CapacityLimiter F × List ℕ)
    set_total_tokens closed value s =
        let (borrowed, rest, woken) = fill closed (int value) s.borrowed s.waiters in
        if is_positive value
        then ok (record { total_tokens = value; borrowed = borrowed; waiters = rest }, woken)
        else err value_error
