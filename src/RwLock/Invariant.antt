-- ===== src/RwLock/Invariant.antt =====
-- What holds of an AsyncRWMutex in every state that tasks can reach.
use gsyncio.Common.{
  length-retain, retain-nil, ℕ, ◌+◌, ◌-◌, ◌<◌, ◌≡◌, refl, ◌⊎◌, inl, inr, true, false, Option, none,
  some, List, [], ◌∷◌, if◌then◌else◌, ltb, ◌==◌, arith, length, length-append, length-remove,
  contains, All, Bool-cases, List-cases, subst,
}
use mathlib.Core.Option.{some-injective}
use gsyncio.Common.Transition
use gsyncio.Common.OrderedDict.{set_item, has_key, pop, set_item_fresh, length-pop}
use gsyncio.RwLock.{
  depth_of, attempt_read, enter_read, resume_read, cancel_read, exit_read, attempt_write,
  enter_write, resume_write, cancel_write, exit_write,
}
use gsyncio.RwLock.Raw.{
  try_acquire_read, acquire_read_or_register, grant_writer, grant_readers, release_read,
  try_acquire_write, acquire_write_or_register, wake_readers, release_write, remove_writer,
  remove_waiter,
}
use gsyncio.RwLock.System.{
  System, fresh, Action, enters_read, resumes_read, cancels_read, exits_read, enters_write,
  resumes_write, cancels_write, exits_write, wake_writers, wake_read, wake, step, Reachable,
}

abbrev pub count : Option ℕ → ℕ
count none = 0
count (some task) = 1

pub record Inv (s : System) : Type 0 where
  pub readers_counted :
      s.mutex.raw.readers ≡ length s.mutex.reader_depth + length s.read_granted + s.lost_reads
  pub writer_counted :
      (if s.mutex.raw.writer then 1 else 0)
      ≡ count s.mutex.writer_task + length s.write_granted + s.lost_writes
  pub exclusive : (s.mutex.raw.writer ≡ false) ⊎ (s.mutex.raw.readers ≡ 0)
  pub pending_counted : s.mutex.raw.pending_writers ≡ length s.mutex.raw.write_waiters
  pub writers_wait :
      (s.mutex.raw.write_waiters ≡ []) ⊎ (s.mutex.raw.writer ≡ true) ⊎ (0 < s.mutex.raw.readers)
  pub readers_wait :
      (s.mutex.raw.read_waiters ≡ [])
      ⊎ (s.mutex.raw.writer ≡ true)
      ⊎ (0 < s.mutex.raw.pending_writers)
  pub depths : All (λ e. 0 < e.1) s.mutex.reader_depth

depth_zero :
    (task : ℕ) (d : List (ℕ × ℕ))
    → All (λ e. 0 < e.1) d
    → depth_of task d ≡ 0
    → has_key task d ≡ false
unfolding depth_of has_key
depth_zero task [] h e = refl
depth_zero task ((k, depth) ∷ d) h e = ground (arith, depth_zero task d h.1, h.0)

set_item-All :
    (task n : ℕ) (d : List (ℕ × ℕ))
    → 0 < n
    → All (λ e. 0 < e.1) d
    → All (λ e. 0 < e.1) (set_item task n d)
unfolding set_item
set_item-All task n [] lt h = (lt, tt)
set_item-All task n ((k, depth) ∷ d) lt h = elim (Bool-cases (task == k)) [
  | inl e ↦ rw e (lt, h.1)
  | inr e ↦ rw e (h.0, set_item-All task n d lt h.1)
]

pop-All : (task : ℕ) (d : List (ℕ × ℕ)) → All (λ e. 0 < e.1) d → All (λ e. 0 < e.1) (pop task d)
unfolding pop
pop-All task [] h = tt
pop-All task ((k, depth) ∷ d) h = elim (Bool-cases (task == k)) [
  | inl e ↦ rw e h.1
  | inr e ↦ rw e (h.0, pop-All task d h.1)
]

length-set_item_known :
    (task n : ℕ) (d : List (ℕ × ℕ)) → 0 < depth_of task d → length (set_item task n d) ≡ length d
unfolding depth_of set_item
length-set_item_known task n [] h = absurd (omega arith)
length-set_item_known task n ((k, depth) ∷ d) h = ground (arith, length-set_item_known task n d)

length-set_item_new :
    (task n : ℕ) (d : List (ℕ × ℕ))
    → has_key task d ≡ false
    → length (set_item task n d) ≡ length d + 1
length-set_item_new task n d h = rw (set_item_fresh task n d h) (length-append d ((task, n) ∷ []))

resume_read-Inv : (task : ℕ) (s t : System) → step (resumes_read task) s ≡ some t → Inv s → Inv t
unfolding step resume_read
resume_read-Inv task s t e v =
    let h : contains task s.read_granted ≡ true = ground arith in
    let k : has_key task s.mutex.reader_depth ≡ false = ground arith in
    subst Inv (some-injective _ _ (rw (h, k) at e)) (record {
      readers_counted = ground (
        arith,
        v.readers_counted,
        length-set_item_new task 1 s.mutex.reader_depth k,
        length-remove task s.read_granted h,
      );
      writer_counted = v.writer_counted;
      exclusive = v.exclusive;
      pending_counted = v.pending_counted;
      writers_wait = v.writers_wait;
      readers_wait = v.readers_wait;
      depths = set_item-All task 1 s.mutex.reader_depth (omega arith) v.depths;
    })

resume_write-Inv : (task : ℕ) (s t : System) → step (resumes_write task) s ≡ some t → Inv s → Inv t
unfolding step resume_write
resume_write-Inv task s t e v =
    let h : contains task s.write_granted ≡ true = ground arith in
    subst Inv (some-injective _ _ (rw h at e)) (record {
      readers_counted = v.readers_counted;
      writer_counted = ground (arith, v.writer_counted, length-remove task s.write_granted h);
      exclusive = v.exclusive;
      pending_counted = v.pending_counted;
      writers_wait = v.writers_wait;
      readers_wait = v.readers_wait;
      depths = v.depths;
    })

exit_write-Inv : (task : ℕ) (s t : System) → step (exits_write task) s ≡ some t → Inv s → Inv t
unfolding step exit_write release_write wake_readers grant_writer grant_readers wake wake_writers
    wake_read
exit_write-Inv task s t e v = elim (List-cases s.mutex.raw.write_waiters) [
  | inl none_waits ↦ ground (arith, length-append s.read_granted s.mutex.raw.read_waiters)
  | inr (w, rest, one_waits) ↦ ground (arith, length-append s.write_granted (w ∷ []))
]

enter_read-Inv : (task : ℕ) (s t : System) → step (enters_read task) s ≡ some t → Inv s → Inv t
unfolding step enter_read attempt_read try_acquire_read acquire_read_or_register
enter_read-Inv task s t e v = ground (
  arith,
  depth_zero task s.mutex.reader_depth v.depths,
  length-set_item_new task 1 s.mutex.reader_depth,
  length-set_item_known task (depth_of task s.mutex.reader_depth + 1) s.mutex.reader_depth,
  set_item-All task 1 s.mutex.reader_depth,
  set_item-All task (depth_of task s.mutex.reader_depth + 1) s.mutex.reader_depth,
)

enter_write-Inv : (task : ℕ) (s t : System) → step (enters_write task) s ≡ some t → Inv s → Inv t
unfolding step enter_write attempt_write try_acquire_write acquire_write_or_register
enter_write-Inv task s t e v = ground (arith, length-append s.mutex.raw.write_waiters (task ∷ []))

exit_read-Inv : (task : ℕ) (s t : System) → step (exits_read task) s ≡ some t → Inv s → Inv t
unfolding step exit_read release_read grant_writer wake_writers
exit_read-Inv task s t e v =
    let depth = depth_of task s.mutex.reader_depth in
    elim (Bool-cases (ltb 1 depth)) [
      | inl nested ↦ ground (
        arith,
        length-set_item_known task (depth - 1) s.mutex.reader_depth,
        set_item-All task (depth - 1) s.mutex.reader_depth,
      )
      | inr outermost ↦ elim (List-cases s.mutex.raw.write_waiters) [
        | inl none_waits ↦ ground (
          arith,
          length-pop task s.mutex.reader_depth,
          pop-All task s.mutex.reader_depth v.depths,
        )
        | inr (w, rest, one_waits) ↦ ground (
          arith,
          length-pop task s.mutex.reader_depth,
          pop-All task s.mutex.reader_depth v.depths,
          length-append s.write_granted (w ∷ []),
        )
      ]
    ]

cancel_read-Inv : (task : ℕ) (s t : System) → step (cancels_read task) s ≡ some t → Inv s → Inv t
unfolding step cancel_read remove_waiter wake_read
cancel_read-Inv task s t e v =
    ground (arith, length-remove task s.read_granted, retain-nil task s.mutex.raw.read_waiters)

cancel_write-Inv : (task : ℕ) (s t : System) → step (cancels_write task) s ≡ some t → Inv s → Inv t
unfolding step cancel_write remove_waiter remove_writer wake_readers grant_readers wake_read
cancel_write-Inv task s t e v = ground (
  arith,
  length-remove task s.write_granted,
  length-retain task s.mutex.raw.write_waiters,
  retain-nil task s.mutex.raw.write_waiters,
  length-append s.read_granted s.mutex.raw.read_waiters,
)

pub step-Inv : (a : Action) (s t : System) → step a s ≡ some t → Inv s → Inv t
step-Inv (enters_read task) = enter_read-Inv task
step-Inv (resumes_read task) = resume_read-Inv task
step-Inv (cancels_read task) = cancel_read-Inv task
step-Inv (exits_read task) = exit_read-Inv task
step-Inv (enters_write task) = enter_write-Inv task
step-Inv (resumes_write task) = resume_write-Inv task
step-Inv (cancels_write task) = cancel_write-Inv task
step-Inv (exits_write task) = exit_write-Inv task

fresh-Inv : Inv fresh
fresh-Inv = record {
  readers_counted = refl;
  writer_counted = refl;
  exclusive = inl refl;
  pending_counted = refl;
  writers_wait = inl refl;
  readers_wait = inl refl;
  depths = tt;
}

pub Reachable-Inv : (s : System) → Reachable s → Inv s
Reachable-Inv s r = Transition.Reach-invariant step Inv step-Inv fresh-Inv r
