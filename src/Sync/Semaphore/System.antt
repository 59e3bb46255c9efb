-- ===== src/Sync/Semaphore/System.antt =====
-- Tasks on any number of loops that share one semaphore, interleaved in any order. A task that
-- holds a permit may release it; a task that waits may be cancelled, also after the permit was
-- handed to it. Which loops are closed may change from step to step.
use gsyncio.Common.{
  ℕ, ◌+◌, ◌-◌, Bool, Option, none, some, List, [], ◌∷◌, ◌||◌, ok, err, if◌then◌else◌, ltb, contains,
  remove,
}
use gsyncio.Common.OrderedDict.{has_key}
use gsyncio.Common.Transition
use gsyncio.Sync.Semaphore.{Semaphore, acquire, cancel_waiter, release}

-- `granted`: events scheduled for tasks that have not resumed yet; `held`: permits in use.
pub record System : Type 0 where
  pub sem : Semaphore
  pub open sem use *
  pub granted : List ℕ
  pub held : ℕ

pub data Action : Type 0 where
  acquires : (event loop : ℕ) → Action
  resumes : (event : ℕ) → Action
  cancels : (closed : ℕ → Bool) (event : ℕ) → Action
  releases : (closed : ℕ → Bool) → Action

abbrev pub deliver : Option ℕ → List ℕ → List ℕ
deliver none granted = granted
deliver (some event) granted = event ∷ granted

unfoldable pub step : Action → System → Option System
step (acquires event loop) s =
    if has_key event s.waiters || contains event s.granted
    then none
    else (let (sem', got) = acquire event loop s.sem in
        some (record s { sem = sem'; held = if got then s.held + 1 else s.held }))
step (resumes event) s =
    if contains event s.granted
    then some (record s { granted = remove event s.granted; held = s.held + 1 })
    else none
step (cancels closed event) s =
    let (sem', woken) = cancel_waiter closed event s.sem in
    if has_key event s.waiters
    then some (record s { sem = sem' })
    else (if contains event s.granted
        then some (record s { sem = sem'; granted = deliver woken (remove event s.granted) })
        else none)
step (releases closed) s =
    if ltb 0 s.held
    then elim (release closed s.sem) [
      | ok (sem', woken) ↦
          some (record s { sem = sem'; granted = deliver woken s.granted; held = s.held - 1 })
      | err e ↦ none
    ]
    else none

abbrev pub fresh : ℕ → System
fresh n = record { sem = record { value = n; max_value = n; waiters = [] }; granted = []; held = 0 }

abbrev pub Reachable : ℕ → System → Type 0
Reachable n s = Transition.Reach step (fresh n) s
