-- ===== src/Once/Examples.antt =====
-- Two tasks, of which one leads; a result is a number.
use gsyncio.Common.{
  ℕ, ◌≤◌, ◌≡◌, ◌⊎◌, refl, Bool, true, false, none, some, [], ◌∷◌, All, Result, ok, contains,
}
use gsyncio.Common.Transition
use gsyncio.Common.OrderedDict.{set_item, pop}
use gsyncio.Sync.Wake.{wake_open}
use gsyncio.Once.{init, settled, enter, outcome, finish, resume}
use gsyncio.Once.System.{System, fresh, enters, finishes, resumes, entered, step}
use gsyncio.Once.Safety.{shared, one_call_for_everyone}

abbrev all_open : ℕ → Bool
all_open loop = false

abbrev led : System ℕ
led = record fresh { once = record init { executing = true }; calls = 1 }

abbrev queued : System ℕ
queued = record fresh { once = record init { executing = true; waiters = (2, 20) ∷ [] }; calls = 1 }

abbrev over : System ℕ
over = record fresh {
  once = record init { done = true; result = some 7; executing = true };
  calls = 1;
  ended = some (ok 7);
  woken = 2 ∷ [];
}

abbrev resumed : System ℕ
resumed = record over { outcomes = ok (some 7) ∷ [] }

led_reached : Transition.Reach step fresh led
unfolding step entered enter
led_reached = Transition.next (enters 1 10) Transition.start refl

queued_reached : Transition.Reach step fresh queued
unfolding step entered enter set_item
queued_reached = Transition.next (enters 2 20) led_reached refl

over_reached : Transition.Reach step fresh over
unfolding step finish wake_open
over_reached = Transition.next (finishes all_open (ok 7)) queued_reached refl

resumed_reached : Transition.Reach step fresh resumed
unfolding step resume outcome contains pop
resumed_reached = Transition.next (resumes 2) over_reached refl

one_call_for_everyone_example :
    (resumed.calls ≤ 1)
    × (((resumed.ended ≡ none) × (resumed.outcomes ≡ []))
        ⊎ ((r : Result ℕ) × (resumed.ended ≡ some r)
            × (resumed.once.waiters ≡ [])
            × All (λ g. g ≡ shared r) resumed.outcomes
            × ((fut loop : ℕ) → enter fut loop resumed.once ≡ (resumed.once, settled (shared r)))))
one_call_for_everyone_example = one_call_for_everyone resumed resumed_reached
