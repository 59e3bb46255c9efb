-- ===== src/RwLock.antt =====
-- src/multiloop/rwlock.py, class AsyncRWMutex, on the state machine of src/rwlock.rs. A task waits
-- for one thing at a time, so the future that it waits for is known by the task.
pub mod Raw
pub mod System
pub mod Invariant
pub mod Safety
mod Examples
use gsyncio.Common.{
  ℕ, ◌+◌, ◌-◌, Bool, true, false, Option, none, some, List, [], ◌∷◌, if◌then◌else◌, ltb, ◌==◌,
  is_some_eq, Result, ok, err, runtime_error,
}
use gsyncio.Common.OrderedDict.{set_item, has_key, pop}
use gsyncio.RwLock.Raw.{
  RwMutexInner, new, try_acquire_read, acquire_read_or_register, release_read, try_acquire_write,
  acquire_write_or_register, release_write, remove_waiter,
}

-- `_raw`, `_reader_depth`, `_writer_task`
pub record RwMutex : Type 0 where
  pub raw : RwMutexInner
  pub reader_depth : List (ℕ × ℕ)
  pub writer_task : Option ℕ

-- `__init__`
abbrev pub init : RwMutex
init = record { raw = new; reader_depth = []; writer_task = none }

-- `_reader_depth.get(task, 0)`
unfoldable pub depth_of : ℕ → List (ℕ × ℕ) → ℕ
depth_of task [] = 0
depth_of task ((k, depth) ∷ d) = if task == k then depth else depth_of task d

-- The attempts of `reader()`, and whether the task has entered; else it waits.
unfoldable pub attempt_read : ℕ → RwMutex → RwMutex × Bool
attempt_read task m =
    let (raw', acquired) = try_acquire_read m.raw in
    let (raw'', registered) = acquire_read_or_register task m.raw in
    if acquired
    then (record m { raw = raw'; reader_depth = set_item task 1 m.reader_depth }, true)
    else (if registered
        then (record m { raw = raw''; reader_depth = set_item task 1 m.reader_depth }, true)
        else (record m { raw = raw'' }, false))

-- `reader()` up to its `await`.
unfoldable pub enter_read : ℕ → RwMutex → Result (RwMutex × Bool)
enter_read task m =
    let depth = depth_of task m.reader_depth in
    if is_some_eq m.writer_task task
    then err runtime_error
    else (if ltb 0 depth
        then ok (record m { reader_depth = set_item task (depth + 1) m.reader_depth }, true)
        else ok (attempt_read task m))

-- `reader()` after its `await`.
unfoldable pub resume_read : ℕ → RwMutex → RwMutex
resume_read task m = record m { reader_depth = set_item task 1 m.reader_depth }

-- The `except BaseException` branch of `reader()`, with the futures that it wakes.
unfoldable pub cancel_read : ℕ → RwMutex → RwMutex × Option (List ℕ)
cancel_read task m =
    let (raw', wakers) = remove_waiter task false m.raw in (record m { raw = raw' }, wakers)

-- The `finally` branch of `reader()`.
unfoldable pub exit_read : ℕ → RwMutex → RwMutex × Option (List ℕ)
exit_read task m =
    let depth = depth_of task m.reader_depth in
    let (raw', wakers) = release_read m.raw in
    if ltb 1 depth
    then (record m { reader_depth = set_item task (depth - 1) m.reader_depth }, none)
    else (record m { raw = raw'; reader_depth = pop task m.reader_depth }, wakers)

-- The attempts of `writer()`.
unfoldable pub attempt_write : ℕ → RwMutex → RwMutex × Bool
attempt_write task m =
    let (raw', acquired) = try_acquire_write m.raw in
    let (raw'', registered) = acquire_write_or_register task m.raw in
    if acquired
    then (record m { raw = raw'; writer_task = some task }, true)
    else (if registered
        then (record m { raw = raw''; writer_task = some task }, true)
        else (record m { raw = raw'' }, false))

-- `writer()` up to its `await`.
unfoldable pub enter_write : ℕ → RwMutex → Result (RwMutex × Bool)
enter_write task m =
    if has_key task m.reader_depth
    then err runtime_error
    else (if is_some_eq m.writer_task task then err runtime_error else ok (attempt_write task m))

-- `writer()` after its `await`.
unfoldable pub resume_write : ℕ → RwMutex → RwMutex
resume_write task m = record m { writer_task = some task }

-- The `except BaseException` branch of `writer()`.
unfoldable pub cancel_write : ℕ → RwMutex → RwMutex × Option (List ℕ)
cancel_write task m =
    let (raw', wakers) = remove_waiter task true m.raw in (record m { raw = raw' }, wakers)

-- The `finally` branch of `writer()`.
unfoldable pub exit_write : RwMutex → RwMutex × Option (List ℕ)
exit_write m =
    let (raw', wakers) = release_write m.raw in
    (record m { raw = raw'; writer_task = none }, wakers)
