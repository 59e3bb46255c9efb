-- ===== src/RwLock/Safety.antt =====
-- What an AsyncRWMutex promises its tasks, and what a cancellation at the wrong time does to it.
use gsyncio.Common.{
  ℕ, ◌+◌, ◌≤◌, ◌<◌, ◌≡◌, ◌≢◌, ◌⊎◌, inl, inr, true, none, some, [], arith, length, length-eq-zero,
  contains, Option-cases,
}
use gsyncio.Common.Transition
use gsyncio.RwLock.System.{
  System, Action, enters_read, resumes_read, cancels_read, exits_read, enters_write, resumes_write,
  cancels_write, exits_write, wake_writers, wake_read, wake, step, Reachable,
}
use gsyncio.RwLock.Invariant.{count, Inv, Reachable-Inv, step-Inv}

-- In every state that tasks can reach, by any interleaving of entering, resuming, leaving and being
-- cancelled: while a task is inside `writer()`, no task is inside `reader()`, and none has been
-- granted either kind of access.
pub writer_excludes :
    (s : System) (task : ℕ)
    → Reachable s
    → s.mutex.writer_task ≡ some task
    → (s.mutex.reader_depth ≡ []) × (s.read_granted ≡ []) × (s.write_granted ≡ [])
writer_excludes s task r e =
    let v = Reachable-Inv s r in
    (
      length-eq-zero s.mutex.reader_depth (ground arith),
      length-eq-zero s.read_granted (ground arith),
      length-eq-zero s.write_granted (ground arith),
    )

-- In every reachable state in which no granted access was lost to a cancellation: if a task is
-- queued, some task is inside, or has been granted access and will resume.
pub queued_means_held :
    (s : System)
    → Reachable s
    → (s.lost_reads ≡ 0) × (s.lost_writes ≡ 0)
    → (s.mutex.raw.read_waiters ≢ []) ⊎ (s.mutex.raw.write_waiters ≢ [])
    → 0
      < length s.mutex.reader_depth
        + count s.mutex.writer_task
        + (length s.read_granted + length s.write_granted)
queued_means_held s r kept queued =
    ground (arith, Reachable-Inv s r, length-eq-zero s.mutex.raw.write_waiters)

lost_reads_kept : (a : Action) (s t : System) → step a s ≡ some t → s.lost_reads ≤ t.lost_reads
unfolding step wake wake_read wake_writers
lost_reads_kept (enters_read task) s t e = ground arith
lost_reads_kept (resumes_read task) s t e = ground arith
lost_reads_kept (cancels_read task) s t e = ground arith
lost_reads_kept (exits_read task) s t e = ground arith
lost_reads_kept (enters_write task) s t e = ground arith
lost_reads_kept (resumes_write task) s t e = ground arith
lost_reads_kept (cancels_write task) s t e = ground arith
lost_reads_kept (exits_write task) s t e = ground arith

no_writer : (s : System) → Inv s → 0 < s.lost_reads → s.mutex.writer_task ≡ none
no_writer s v lost = elim (Option-cases s.mutex.writer_task) [
  | inl e ↦ e
  | inr (task, e) ↦ absurd (ground (arith, v.readers_counted, v.writer_counted, v.exclusive))
]

-- A task that is cancelled after it was granted read access, and before it has resumed, leaves the
-- access counted for ever: from then on, whatever all tasks do, none is ever inside `writer()`.
pub lost_read_locks_out_writers :
    (s t u : System) (task : ℕ)
    → Reachable s
    → contains task s.read_granted ≡ true
    → step (cancels_read task) s ≡ some t
    → Transition.Reach step t u
    → u.mutex.writer_task ≡ none
unfolding step
lost_read_locks_out_writers s t u task r granted e after =
    let lost : 0 < t.lost_reads = ground arith in
    let kept =
      Transition.Reach-invariant step (λ w. Inv w × (0 < w.lost_reads))
        (λ a x y e' h. (step-Inv a x y e' h.0, omega (arith, lost_reads_kept a x y e', h.1)))
        (step-Inv (cancels_read task) s t e (Reachable-Inv s r), lost) after in
    no_writer u kept.0 kept.1
