-- ===== src/Sync/Lock/Safety.antt =====
-- What the lock promises in every state that its tasks can reach.
use gsyncio.Common.{
  ℕ, ◌≡◌, ◌≢◌, refl, Bool, false, Option, none, some, [], ok, arith, inl, inr, contains, Bool-cases,
  Result-cases,
}
use gsyncio.Common.OrderedDict.{has_key}
use gsyncio.Common.Transition
use gsyncio.Sync.Lock.{release_locked, acquire_task, release, release_task}
use gsyncio.Sync.Lock.System.{
  Place, outside, waiting, inside, System, Action, acquires, releases, cancels, resumes, finishes,
  step_at, step, init, env_of, actor, Reachable,
}
use gsyncio.Sync.Lock.Invariant.{Inv}
use gsyncio.Sync.Lock.Steps.{resume-Inv, finish-Inv, acquire-Inv, cancel_wait-Inv, release-Inv}

abbrev SystemInv : System → Type 0
SystemInv s = Inv s.lock s.place s.done s.scheduled s.next_event

abbrev Kept : Option System → Type 0
Kept none = Unit
Kept (some s) = SystemInv s

module _ (get_loop : ℕ → ℕ) where
  step_at-Kept :
      (a : Action) (s : System) (p : Place)
      → SystemInv s
      → s.place (actor a) ≡ p
      → s.done (actor a) ≡ false
      → Kept (step_at get_loop a s p)
  unfolding step_at
  step_at-Kept (acquires closed task) s outside v at alive =
      let env = env_of get_loop closed s in
      let kept = acquire-Inv env s.place s.scheduled s.next_event s.lock task v at alive in
      elim (Result-cases (acquire_task env task s.next_event s.lock)) [
        | inl (e, raised) ↦ rw (raised, Kept, step_at) tt
        | inr (r, returned) ↦ rw (returned, Kept, step_at) (rw returned at kept)
      ]
  step_at-Kept (resumes task) s (waiting event) v at alive =
      elim (Bool-cases (contains event s.scheduled)) [
        | inl set ↦
            rw set
              (resume-Inv s.place s.done s.scheduled s.next_event task s.lock event v at set alive)
        | inr unset ↦ rw unset tt
      ]
  step_at-Kept (cancels closed task) s (waiting event) v at alive =
      cancel_wait-Inv (env_of get_loop closed s) s.place s.scheduled s.next_event s.lock task event
        v at alive
  step_at-Kept (releases closed task) s inside v at alive =
      let env = env_of get_loop closed s in
      let kept = release-Inv env s.place s.scheduled s.next_event s.lock task v at alive in
      elim (Result-cases (release_task env task s.lock)) [
        | inl (e, raised) ↦ rw (raised, Kept, step_at) tt
        | inr (r, returned) ↦ rw (returned, Kept, step_at) (rw returned at kept)
      ]
  step_at-Kept (finishes task) s p v at alive =
      finish-Inv s.place s.done s.scheduled s.next_event task s.lock v
  step_at-Kept a s p v at alive = tt

  step-Kept : (a : Action) (s : System) → SystemInv s → Kept (step get_loop a s)
  unfolding step
  step-Kept a s v = elim (Bool-cases (s.done (actor a))) [
    | inl gone ↦ rw gone tt
    | inr alive ↦ rw alive (step_at-Kept a s (s.place (actor a)) v refl alive)
  ]

  step-Inv : (a : Action) (s t : System) → step get_loop a s ≡ some t → SystemInv s → SystemInv t
  step-Inv a s t e v = rw e at (step-Kept a s v)

  init-Inv : SystemInv init
  unfolding has_key contains
  init-Inv = record {
    queue = record {
      distinct = tt;
      queued = λ e t h. elim h [ ];
      apart = λ e h. cc;
      bounded = λ e h. absurd (cc);
      known = λ e h. absurd (cc);
      recent = λ e t h. absurd (cc);
      unique = λ e t u h k. cc;
    };
    owns = λ t d h. cc;
    no_idle = λ h. refl;
  }

  pub Reachable-Inv : (s : System) → Reachable get_loop s → SystemInv s
  Reachable-Inv s r = Transition.Reach-invariant (step get_loop) SystemInv step-Inv init-Inv r

  -- In every reachable state, of the tasks that have not finished at most one stands between
  -- `acquire` and `release`, and it is the recorded owner.
  pub mutual_exclusion :
      (s : System) (t u : ℕ)
      → Reachable get_loop s
      → s.done t ≡ false
      → s.done u ≡ false
      → s.place t ≡ inside
      → s.place u ≡ inside
      → (t ≡ u) × (s.owner ≡ some t)
  mutual_exclusion s t u r live_t live_u in_t in_u =
      let v = Reachable-Inv s r in
      ground (arith, v.owns t live_t (ground arith), v.owns u live_u (ground arith))

  -- In every reachable state a task inside can release_task the lock: `release` does not raise.
  pub owner_can_release :
      (s : System) (t : ℕ) (closed : ℕ → Bool)
      → Reachable get_loop s
      → s.done t ≡ false
      → s.place t ≡ inside
      → release (env_of get_loop closed s) (some t) s.lock
        ≡ ok (release_locked (env_of get_loop closed s) s.lock)
  unfolding release_task
  owner_can_release s t closed r live at =
      ground (arith, (Reachable-Inv s r).owns t live (ground arith))

  -- In every reachable state in which a task is queued, the lock has an owner.
  pub queued_means_owned :
      (s : System) → Reachable get_loop s → s.waiters ≢ [] → (t : ℕ) × (s.owner ≡ some t)
  queued_means_owned s r some_wait = ground (arith, (Reachable-Inv s r).no_idle)
