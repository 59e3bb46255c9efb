-- ===== src/RwLock/Raw.antt =====
-- src/rwlock.rs, RawAsyncRWMutex: each method runs under the mutex of the state.
use gsyncio.Common.{
  retain, ℕ, ◌+◌, ◌-◌, Bool, true, false, not, ◌&&◌, Option, none, some, List, [], ◌∷◌, ◌++◌,
  if◌then◌else◌, leb, ◌==◌, length,
}

-- `RWMutexInner`
pub record RwMutexInner : Type 0 where
  pub readers : ℕ
  pub writer : Bool
  pub pending_writers : ℕ
  pub read_waiters : List ℕ
  pub write_waiters : List ℕ

abbrev pub new : RwMutexInner
new = record {
  readers = 0;
  writer = false;
  pending_writers = 0;
  read_waiters = [];
  write_waiters = [];
}

unfoldable pub try_acquire_read : RwMutexInner → RwMutexInner × Bool
try_acquire_read s =
    if not s.writer && (s.pending_writers == 0)
    then (record s { readers = s.readers + 1 }, true)
    else (s, false)

unfoldable pub acquire_read_or_register : ℕ → RwMutexInner → RwMutexInner × Bool
acquire_read_or_register fut s =
    if not s.writer && (s.pending_writers == 0)
    then (record s { readers = s.readers + 1 }, true)
    else (record s { read_waiters = s.read_waiters ++ fut ∷ [] }, false)

-- The first waiting writer is granted the lock; a count at 0 stays there.
unfoldable pub grant_writer : ℕ → List ℕ → RwMutexInner → RwMutexInner × Option (List ℕ)
grant_writer next_writer rest s = (
  record s { writer = true; write_waiters = rest; pending_writers = s.pending_writers - 1 },
  some (next_writer ∷ []),
)

-- All waiting readers are granted the lock.
unfoldable pub grant_readers : RwMutexInner → RwMutexInner × Option (List ℕ)
grant_readers s = (
  record s { readers = s.readers + length s.read_waiters; read_waiters = [] },
  some s.read_waiters,
)

unfoldable pub release_read : RwMutexInner → RwMutexInner × Option (List ℕ)
release_read s =
    let s' = record s { readers = s.readers - 1 } in
    if s'.readers == 0
    then elim s.write_waiters [ [] ↦ (s', none) | w ∷ rest ↦ grant_writer w rest s' ]
    else (s', none)

unfoldable pub try_acquire_write : RwMutexInner → RwMutexInner × Bool
try_acquire_write s =
    if not s.writer && (s.readers == 0) && (s.pending_writers == 0)
    then (record s { writer = true }, true)
    else (s, false)

unfoldable pub acquire_write_or_register : ℕ → RwMutexInner → RwMutexInner × Bool
acquire_write_or_register fut s =
    if not s.writer && (s.readers == 0) && (s.pending_writers == 0)
    then (record s { writer = true }, true)
    else (
      record s {
        pending_writers = s.pending_writers + 1;
        write_waiters = s.write_waiters ++ fut ∷ [];
      },
      false,
    )

-- Readers are granted the lock if any waits.
unfoldable pub wake_readers : RwMutexInner → RwMutexInner × Option (List ℕ)
wake_readers s = elim s.read_waiters [ [] ↦ (s, none) | w ∷ rest ↦ grant_readers s ]

unfoldable pub release_write : RwMutexInner → RwMutexInner × Option (List ℕ)
release_write s =
    let s' = record s { writer = false } in
    elim s.write_waiters [ [] ↦ wake_readers s' | w ∷ rest ↦ grant_writer w rest s' ]

-- The writers' part of `remove_waiter`: the count goes down by those removed, if it can.
unfoldable pub remove_writer : ℕ → RwMutexInner → RwMutexInner
remove_writer fut s =
    let left = retain fut s.write_waiters in
    let removed = length s.write_waiters - length left in
    record s {
      write_waiters = left;
      pending_writers =
          if leb removed s.pending_writers then s.pending_writers - removed else s.pending_writers;
    }

unfoldable pub remove_waiter :
    ℕ → (is_writer : Bool) → RwMutexInner → RwMutexInner × Option (List ℕ)
remove_waiter fut false s = (record s { read_waiters = retain fut s.read_waiters }, none)
remove_waiter fut true s =
    let s' = remove_writer fut s in
    if (s'.pending_writers == 0) && not s'.writer then wake_readers s' else (s', none)
