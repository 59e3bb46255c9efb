-- ===== src/Once/System.antt =====
-- Tasks of any loops that call `do` on one AsyncOnce.
use gsyncio.Common.{
  ℕ, ◌+◌, Bool, not, ◌&&◌, Option, none, some, List, [], ◌∷◌, ◌++◌, if◌then◌else◌, contains, Result,
}
use gsyncio.Once.{Once, init, Entry, settled, leads, waits, enter, finish, resume, cancel_wait}

-- The object, how often a task has led, what its call of `fn` ended with, the futures that are woken,
-- and the outcomes that other tasks got.
pub record System (V : Type 0) : Type 0 where
  pub once : Once V
  pub calls : ℕ
  pub ended : Option (Result V)
  pub woken : List ℕ
  pub outcomes : List (Result (Option V))

abbrev pub fresh : {V : Type 0} → System V
fresh = record { once = init; calls = 0; ended = none; woken = []; outcomes = [] }

pub data Action (V : Type 0) : Type 0 where
  enters : (fut loop : ℕ) → Action V
  finishes : (closed : ℕ → Bool) (r : Result V) → Action V
  resumes cancels : (fut : ℕ) → Action V

unfoldable pub entered : {V : Type 0} → System V → Once V → Entry V → System V
entered s o (settled r) = record s { once = o; outcomes = r ∷ s.outcomes }
entered s o leads = record s { once = o; calls = s.calls + 1 }
entered s o waits = record s { once = o }

unfoldable pub step : {V : Type 0} → Action V → System V → Option (System V)
step (enters fut loop) s = some (entered s (enter fut loop s.once).0 (enter fut loop s.once).1)
step (finishes closed r) s =
    if s.once.executing && not s.once.done
    then some (record s {
      once = (finish closed r s.once).0;
      ended = some r;
      woken = s.woken ++ (finish closed r s.once).1;
    })
    else none
step (resumes fut) s =
    if contains fut s.woken
    then some
        (record s { once = (resume fut s.once).0; outcomes = (resume fut s.once).1 ∷ s.outcomes })
    else none
step (cancels fut) s = some (record s { once = cancel_wait fut s.once })
