-- ===== src/WaitGroup.antt =====
-- src/multiloop/primitives.py, class AsyncWaitGroup, on src/waitgroup.rs. A task that waits is known
-- by its future and its loop.
pub mod Waiting
pub mod Track
mod Examples
use gsyncio.Common.{
  ℕ, ◌+◌, ◌-◌, ◌^◌, ◌%◌, Bool, true, false, Option, none, some, List, [], ◌∷◌, ◌++◌, if◌then◌else◌,
  ◌==◌, ltb, ℤ, pos, negsuc, Result, ok, err, runtime_error,
}
use gsyncio.Sync.Wake.{wake_open}

-- `WaitGroupInner`
pub record WaitGroup : Type 0 where
  pub counter : ℕ
  pub generation : ℕ
  pub waiters : List (ℕ × ℕ)

-- `RawAsyncWaitGroup::new`
abbrev pub init : WaitGroup
init = record { counter = 0; generation = 0; waiters = [] }

-- The counter is lowered; at zero the waiters leave, and those on open loops are woken.
unfoldable pub lower : (closed : ℕ → Bool) → ℕ → WaitGroup → WaitGroup × List ℕ
lower closed n w =
    let zero_reached : WaitGroup = record {
      counter = 0;
      generation = (w.generation + 1) % 2 ^ 64;
      waiters = [];
    } in
    if w.counter - n == 0
    then (zero_reached, wake_open closed w.waiters)
    else (record w { counter = w.counter - n }, [])

-- `add`, with the futures that it wakes.
unfoldable pub add : (closed : ℕ → Bool) → ℤ → WaitGroup → Result (WaitGroup × List ℕ)
add closed (negsuc k) w =
    if ltb w.counter (k + 1) then err runtime_error else ok (lower closed (k + 1) w)
add closed (pos n) w =
    if ltb (w.counter + n) (2 ^ 64)
    then ok (record w { counter = w.counter + n }, [])
    else err runtime_error

-- `done`
unfoldable pub done : (closed : ℕ → Bool) → WaitGroup → Result (WaitGroup × List ℕ)
done closed w = if w.counter == 0 then err runtime_error else ok (lower closed 1 w)

-- `wait` up to its `await`: true if it returned.
unfoldable pub wait : (fut loop : ℕ) → WaitGroup → WaitGroup × Bool
wait fut loop w =
    if w.counter == 0
    then (w, true)
    else (record w { waiters = w.waiters ++ (fut, loop) ∷ [] }, false)

-- `unregister_waiter`
unfoldable pub without : (fut : ℕ) → List (ℕ × ℕ) → List (ℕ × ℕ)
without fut [] = []
without fut ((f, loop) ∷ waiters) =
    let rest = without fut waiters in if fut == f then rest else (f, loop) ∷ rest

-- The `except BaseException` branch of `wait`.
unfoldable pub cancel_wait : (fut : ℕ) → WaitGroup → WaitGroup
cancel_wait fut w = record w { waiters = without fut w.waiters }
