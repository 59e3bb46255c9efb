-- ===== src/Sync/Lock/System.antt =====
-- Tasks that share one lock, interleaved in any order. A task may finish or be cancelled at any
-- point, also inside the critical section; which loops are closed may change from step to step.
use gsyncio.Common.{
  ℕ, suc, Bool, true, false, Option, none, some, List, [], ◌∷◌, ok, err, if◌then◌else◌, contains,
  update,
}
use gsyncio.Common.Transition
use gsyncio.Sync.Lock.{Lock, Env, acquire, cancel_wait, release}

-- Where a task stands: outside, awaiting its event, or between `acquire` and `release`.
pub data Place : Type 0 where
  outside : Place
  waiting : (event : ℕ) → Place
  inside : Place

-- `scheduled`: events whose `set` was accepted by a loop. A new event gets the number `next_event`.
pub record System : Type 0 where
  pub lock : Lock
  pub open lock use *
  pub place : ℕ → Place
  pub done : ℕ → Bool
  pub scheduled : List ℕ
  pub next_event : ℕ

abbrev pub schedule : Option ℕ → List ℕ → List ℕ
schedule none events = events
schedule (some event) events = event ∷ events

pub data Action : Type 0 where
  acquires releases cancels : (closed : ℕ → Bool) (task : ℕ) → Action
  resumes finishes : (task : ℕ) → Action

abbrev pub actor : Action → ℕ
actor (acquires closed task) = task
actor (releases closed task) = task
actor (cancels closed task) = task
actor (resumes task) = task
actor (finishes task) = task

module _ (get_loop : ℕ → ℕ) where
  abbrev pub env_of : (ℕ → Bool) → System → Env
  env_of closed s = record { done = s.done; get_loop = get_loop; closed = closed }

  -- A task that is not done, and stands in the place that the action needs.
  unfoldable pub step_at : Action → System → Place → Option System
  step_at (acquires closed task) s outside =
      elim (acquire (env_of closed s) (some task) s.next_event s.lock) [
        | err e ↦ none
        | ok (lock', got, woken) ↦ some (record s {
          lock = lock';
          place = update s.place task (if got then inside else waiting s.next_event);
          scheduled = schedule woken s.scheduled;
          next_event = suc s.next_event;
        })
      ]
  step_at (resumes task) s (waiting event) =
      if contains event s.scheduled
      then some (record s { place = update s.place task inside })
      else none
  step_at (cancels closed task) s (waiting event) =
      let (lock', woken) = cancel_wait (env_of closed s) task event s.lock in
      some (record s {
        lock = lock';
        place = update s.place task outside;
        scheduled = schedule woken s.scheduled;
      })
  step_at (releases closed task) s inside = elim (release (env_of closed s) (some task) s.lock) [
    | err e ↦ none
    | ok (lock', woken) ↦ some (record s {
      lock = lock';
      place = update s.place task outside;
      scheduled = schedule woken s.scheduled;
    })
  ]
  step_at (finishes task) s p = some (record s { done = update s.done task true })
  step_at a s p = none

  unfoldable pub step : Action → System → Option System
  step a s = if s.done (actor a) then none else step_at a s (s.place (actor a))

abbrev pub init : System
init = record {
  lock = record { owner = none; waiters = [] };
  place = λ task. outside;
  done = λ task. false;
  scheduled = [];
  next_event = 0;
}

abbrev pub Reachable : (ℕ → ℕ) → System → Type 0
Reachable get_loop s = Transition.Reach (step get_loop) init s
