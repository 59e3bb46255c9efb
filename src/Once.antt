-- ===== src/Once.antt =====
-- src/multiloop/primitives.py, class AsyncOnce. A task that waits is known by its future. Exceptions
-- are those of the shared type; V is the type of results.
pub mod System
pub mod Safety
mod Examples
use gsyncio.Common.{
  ℕ, Bool, true, false, Option, none, some, List, [], if◌then◌else◌, Exception, cancelled_error,
  runtime_error, Result, ok, err,
}
use gsyncio.Common.OrderedDict.{set_item, pop}
use gsyncio.Sync.Wake.{wake_open}

-- The attributes; a `_result` of None is none.
pub record Once (V : Type 0) : Type 0 where
  pub done : Bool
  pub result : Option V
  pub exc : Option Exception
  pub waiters : List (ℕ × ℕ)
  pub executing : Bool

-- `__init__`
abbrev pub init : {V : Type 0} → Once V
init = record { done = false; result = none; exc = none; waiters = []; executing = false }

-- How `do` begins: it has an outcome, the task leads, or it waits.
pub data Entry (V : Type 0) : Type 0 where
  settled : Result (Option V) → Entry V
  leads waits : Entry V

-- The stored outcome: `raise self._exc` or `return self._result`.
unfoldable pub outcome : {V : Type 0} → Once V → Result (Option V)
outcome s = elim s.exc [ some e ↦ err e | none ↦ ok s.result ]

-- `do` up to the call of `fn`, or to the `await` of the future.
unfoldable pub enter : {V : Type 0} → (fut loop : ℕ) → Once V → Once V × Entry V
enter fut loop s =
    if s.done
    then (s, settled (outcome s))
    else (if s.executing
        then (record s { waiters = set_item fut loop s.waiters }, waits)
        else (record s { executing = true }, leads))

-- The exception that is stored for others.
abbrev pub stored : Exception → Exception
stored cancelled_error = runtime_error
stored e = e

-- The leader's call has ended with a result or an exception; the futures that are woken.
unfoldable pub finish : {V : Type 0} → (closed : ℕ → Bool) → Result V → Once V → Once V × List ℕ
finish closed (ok v) s =
    (record s { result = some v; done = true; waiters = [] }, wake_open closed s.waiters)
finish closed (err e) s =
    (record s { exc = some (stored e); done = true; waiters = [] }, wake_open closed s.waiters)

-- `do` after the `await`.
unfoldable pub resume : {V : Type 0} → (fut : ℕ) → Once V → Once V × Result (Option V)
resume fut s = (record s { waiters = pop fut s.waiters }, outcome s)

-- A cancellation of the `await`.
unfoldable pub cancel_wait : {V : Type 0} → (fut : ℕ) → Once V → Once V
cancel_wait fut s = record s { waiters = pop fut s.waiters }
