-- ===== src/RwLock/Examples.antt =====
-- The read-write lock at concrete schedules of tasks 1, 2 and 3.
use gsyncio.Common.{
  retain, ◌+◌, ◌<◌, ◌≡◌, refl, inl, true, none, some, [], ◌∷◌, arith, length, contains, remove,
}
use gsyncio.Common.Transition
use gsyncio.Common.OrderedDict.{has_key}
use gsyncio.RwLock.{
  init, depth_of, enter_read, attempt_read, cancel_read, enter_write, attempt_write, exit_write,
}
use gsyncio.RwLock.Raw.{
  new, try_acquire_read, acquire_read_or_register, try_acquire_write, acquire_write_or_register,
  release_write, wake_readers, grant_readers, remove_waiter,
}
use gsyncio.RwLock.System.{
  System, fresh, enters_read, cancels_read, enters_write, exits_write, wake, wake_read, is_waiting,
  step, Reachable,
}
use gsyncio.RwLock.Invariant.{count}
use gsyncio.RwLock.Safety.{writer_excludes, queued_means_held, lost_read_locks_out_writers}

-- Task 1 writes, and task 2 waits to read.
abbrev writing : System
writing = record fresh {
  mutex = record init { raw = record new { writer = true }; writer_task = some 1 };
}

abbrev reader_waits : System
reader_waits = record fresh {
  mutex = record init {
    raw = record new { writer = true; read_waiters = 2 ∷ [] };
    writer_task = some 1;
  };
}

-- Task 1 leaves, and task 2 is granted access.
abbrev granted : System
granted = record fresh {
  mutex = record init { raw = record new { readers = 1 } };
  read_granted = 2 ∷ [];
}

-- Task 2 is cancelled before it resumes; task 3 waits to write.
abbrev cancelled : System
cancelled = record fresh {
  mutex = record init { raw = record new { readers = 1 } };
  lost_reads = 1;
}

abbrev stuck : System
stuck = record cancelled {
  mutex = record init {
    raw = record new { readers = 1; pending_writers = 1; write_waiters = 3 ∷ [] };
  };
}

writing_reached : Reachable writing
unfolding step enter_write attempt_write try_acquire_write has_key contains is_waiting
writing_reached = Transition.next (enters_write 1) Transition.start refl

reader_waits_reached : Reachable reader_waits
unfolding step enter_read attempt_read try_acquire_read acquire_read_or_register depth_of contains
    is_waiting
reader_waits_reached = Transition.next (enters_read 2) writing_reached refl

granted_reached : Reachable granted
unfolding step exit_write release_write wake_readers grant_readers wake wake_read
granted_reached = Transition.next (exits_write 1) reader_waits_reached refl

writer_excludes_example :
    (writing.mutex.reader_depth ≡ []) × (writing.read_granted ≡ []) × (writing.write_granted ≡ [])
writer_excludes_example = writer_excludes writing 1 writing_reached refl

queued_means_held_example :
    0
    < length reader_waits.mutex.reader_depth
      + count reader_waits.mutex.writer_task
      + (length reader_waits.read_granted + length reader_waits.write_granted)
queued_means_held_example =
    queued_means_held reader_waits reader_waits_reached (refl, refl)
      (inl (λ e. absurd (ground arith)))

granted_contains : contains 2 granted.read_granted ≡ true
unfolding contains
granted_contains = refl

cancel_granted : step (cancels_read 2) granted ≡ some cancelled
unfolding step cancel_read remove_waiter retain wake_read contains remove
cancel_granted = refl

then_stuck : Transition.Reach step cancelled stuck
unfolding step enter_write attempt_write try_acquire_write acquire_write_or_register has_key
    contains is_waiting
then_stuck = Transition.next (enters_write 3) Transition.start refl

lost_read_locks_out_writers_example : stuck.mutex.writer_task ≡ none
lost_read_locks_out_writers_example =
    lost_read_locks_out_writers granted cancelled stuck 2 granted_reached granted_contains
      cancel_granted then_stuck
