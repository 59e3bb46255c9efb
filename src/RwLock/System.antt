-- ===== src/RwLock/System.antt =====
-- Tasks on one AsyncRWMutex: what they hold, what they have been granted, and what was lost.
use gsyncio.Common.{
  ℕ, ◌+◌, Bool, not, ◌&&◌, ◌||◌, Option, none, some, List, [], ◌++◌, if◌then◌else◌, contains,
  remove, is_some_eq, Result, ok, err,
}
use gsyncio.Common.Transition
use gsyncio.Common.OrderedDict.{has_key}
use gsyncio.RwLock.{
  RwMutex, init, enter_read, resume_read, cancel_read, exit_read, enter_write, resume_write,
  cancel_write, exit_write,
}

-- The lock, the tasks whose futures are set and that have not resumed, and how often a task was
-- cancelled in that position.
pub record System : Type 0 where
  pub mutex : RwMutex
  pub read_granted : List ℕ
  pub write_granted : List ℕ
  pub lost_reads : ℕ
  pub lost_writes : ℕ

abbrev pub fresh : System
fresh = record {
  mutex = init;
  read_granted = [];
  write_granted = [];
  lost_reads = 0;
  lost_writes = 0;
}

pub data Action : Type 0 where
  enters_read resumes_read cancels_read exits_read : (task : ℕ) → Action
  enters_write resumes_write cancels_write exits_write : (task : ℕ) → Action

-- Futures that are woken: of writers, or of readers.
unfoldable pub wake_writers : Option (List ℕ) → System → System
wake_writers none s = s
wake_writers (some futures) s = record s { write_granted = s.write_granted ++ futures }

unfoldable pub wake_read : Option (List ℕ) → System → System
wake_read none s = s
wake_read (some futures) s = record s { read_granted = s.read_granted ++ futures }

-- `release_write` wakes a writer exactly if it leaves the lock with one.
unfoldable pub wake : Option (List ℕ) → System → System
wake futures s = if s.mutex.raw.writer then wake_writers futures s else wake_read futures s

-- An attempt to enter; an error changes nothing.
abbrev pub entered : System → Result (RwMutex × Bool) → Option System
entered s (ok (m, acquired)) = some (record s { mutex = m })
entered s (err e) = some s

-- A task that waits, or is woken and has not resumed, does nothing else.
unfoldable pub is_waiting : ℕ → System → Bool
is_waiting task s =
    contains task s.mutex.raw.read_waiters
    || contains task s.mutex.raw.write_waiters
    || contains task s.read_granted
    || contains task s.write_granted

-- A task that resumes in `reader()` is not inside another one: it would not have had to wait.
unfoldable pub step : Action → System → Option System
step (enters_read task) s = if is_waiting task s then none else entered s (enter_read task s.mutex)
step (resumes_read task) s =
    if contains task s.read_granted && not (has_key task s.mutex.reader_depth)
    then some
        (record s { mutex = resume_read task s.mutex; read_granted = remove task s.read_granted })
    else none
step (cancels_read task) s =
    let (m, wakers) = cancel_read task s.mutex in
    let s' = wake_read wakers (record s { mutex = m }) in
    if contains task s.read_granted
    then some
        (record s' { read_granted = remove task s.read_granted; lost_reads = s.lost_reads + 1 })
    else (if contains task s.mutex.raw.read_waiters then some s' else none)
step (exits_read task) s =
    let (m, wakers) = exit_read task s.mutex in
    if has_key task s.mutex.reader_depth
    then some (wake_writers wakers (record s { mutex = m }))
    else none
step (enters_write task) s =
    if is_waiting task s then none else entered s (enter_write task s.mutex)
step (resumes_write task) s =
    if contains task s.write_granted
    then some (record s {
      mutex = resume_write task s.mutex;
      write_granted = remove task s.write_granted;
    })
    else none
step (cancels_write task) s =
    let (m, wakers) = cancel_write task s.mutex in
    let s' = wake_read wakers (record s { mutex = m }) in
    if contains task s.write_granted
    then some
        (record s' { write_granted = remove task s.write_granted; lost_writes = s.lost_writes + 1 })
    else (if contains task s.mutex.raw.write_waiters then some s' else none)
step (exits_write task) s =
    let (m, wakers) = exit_write s.mutex in
    if is_some_eq s.mutex.writer_task task
    then some (wake wakers (record s { mutex = m }))
    else none

abbrev pub Reachable : System → Type 0
Reachable s = Transition.Reach step fresh s
