-- ===== src/Sync/Event.antt =====
-- src/multiloop/_sync.py, class Event: set once, never cleared. A task that waits is known by the
-- asyncio event that it awaits, and its loop.
pub mod Laws
mod Examples
use gsyncio.Common.{ℕ, Bool, true, false, List, [], ◌∷◌, if◌then◌else◌}
use gsyncio.Common.OrderedDict.{set_item, pop}
use gsyncio.Sync.Wake.{wake_open}

pub record Event : Type 0 where
  pub flag : Bool
  pub waiters : List (ℕ × ℕ)

-- `__init__`
abbrev pub init : Event
init = record { flag = false; waiters = [] }

-- `is_set`
abbrev pub is_set : Event → Bool
is_set s = s.flag

-- `set`, with the events that it schedules.
unfoldable pub set : (ℕ → Bool) → Event → Event × List ℕ
set closed s = (record { flag = true; waiters = [] }, wake_open closed s.waiters)

-- `wait` up to its `await`: true if it returned, false if it waits on `event`.
unfoldable pub wait : ℕ → ℕ → Event → Event × Bool
wait event loop s =
    if s.flag then (s, true) else (record s { waiters = set_item event loop s.waiters }, false)

-- The `except BaseException` branch of `wait`.
unfoldable pub cancel_wait : ℕ → Event → Event
cancel_wait event s = record s { waiters = pop event s.waiters }

-- The calls of any tasks, and the cancellations of their waits.
pub data Call : Type 0 where
  sets : (closed : ℕ → Bool) → Call
  waits : (event loop : ℕ) → Call
  cancels : (event : ℕ) → Call

unfoldable pub step : Event → Call → Event
step s (sets closed) = (set closed s).0
step s (waits event loop) = (wait event loop s).0
step s (cancels event) = cancel_wait event s

unfoldable pub run : Event → List Call → Event
run s [] = s
run s (c ∷ calls) = run (step s c) calls
