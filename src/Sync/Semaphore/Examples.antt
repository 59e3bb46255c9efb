-- ===== src/Sync/Semaphore/Examples.antt =====
-- Runs of the semaphore, and the theorems at concrete inputs.
use gsyncio.Common.{
  ℕ, ◌+◌, ◌≡◌, refl, Bool, false, some, [], ◌∷◌, err, length, contains, remove, value_error, negsuc,
}
use gsyncio.Common.OrderedDict.{has_key, pop, set_item}
use gsyncio.Common.Transition
use gsyncio.Sync.Semaphore.{init, acquire, hand_over, release, cancel_waiter}
use gsyncio.Sync.Semaphore.System.{System, acquires, cancels, releases, step, Reachable}
use gsyncio.Sync.Semaphore.Safety.{permits_conserved, no_idle_permit}

abbrev all_open : ℕ → Bool
all_open loop = false

-- One permit is held, two tasks wait on the events 1 and 2.
abbrev contended : System
contended = record {
  sem = record { value = 0; max_value = 1; waiters = (1, 10) ∷ (2, 20) ∷ [] };
  granted = [];
  held = 1;
}

reaches_contended : Reachable 1 contended
unfolding step has_key contains acquire set_item
reaches_contended =
    Transition.next (acquires 2 20)
      (Transition.next (acquires 1 10) (Transition.next (acquires 0 10) Transition.start refl) refl)
      refl

-- The holder releases, the task of event 1 is cancelled, and the permit goes on to event 2.
cancelled_after_grant :
    Transition.run step (releases all_open ∷ cancels all_open 1 ∷ []) contended
    ≡ some (record {
      sem = record { value = 0; max_value = 1; waiters = [] };
      granted = 2 ∷ [];
      held = 0;
    })
unfolding step Transition.run release hand_over cancel_waiter has_key contains pop remove
cancelled_after_grant = refl

negative_rejected : init (negsuc 0) ≡ err value_error
unfolding init
negative_rejected = refl

permits_conserved_example : contended.value + length contended.granted + contended.held ≡ 1
permits_conserved_example = permits_conserved 1 contended reaches_contended

no_idle_permit_example : (contended.value ≡ 0) × (length contended.granted + contended.held ≡ 1)
no_idle_permit_example = no_idle_permit 1 contended reaches_contended (λ e. cc)
