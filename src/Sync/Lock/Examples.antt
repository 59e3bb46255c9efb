-- ===== src/Sync/Lock/Examples.antt =====
-- Runs of the lock, and the theorems at concrete inputs.
use gsyncio.Common.{update, ℕ, ◌≡◌, refl, Bool, false, some, [], ◌∷◌, err, runtime_error}
use gsyncio.Common.OrderedDict.{set_item}
use gsyncio.Common.Transition
use gsyncio.Sync.Lock.{recover, acquire, acquire_task}
use gsyncio.Sync.Lock.System.{
  outside, waiting, inside, System, acquires, step_at, step, env_of, Reachable,
}
use gsyncio.Sync.Lock.Safety.{mutual_exclusion}

abbrev same_loop : ℕ → ℕ
same_loop task = 0

abbrev all_open : ℕ → Bool
all_open loop = false

-- Task 1 owns the lock, task 2 waits on event 1.
abbrev contended : System
contended = record {
  lock = record { owner = some 1; waiters = (1, 2) ∷ [] };
  place = update (update (λ task. outside) 1 inside) 2 (waiting 1);
  done = λ task. false;
  scheduled = [];
  next_event = 2;
}

reaches_contended : Reachable same_loop contended
unfolding step step_at acquire_task recover set_item
reaches_contended =
    Transition.next (acquires all_open 2)
      (Transition.next (acquires all_open 1) Transition.start refl) refl

not_reentrant :
    acquire (env_of same_loop all_open contended) (some 1) 2 contended.lock ≡ err runtime_error
unfolding acquire_task
not_reentrant = refl

mutual_exclusion_example : (◌≡◌ {A = ℕ} 1 1) × (contended.owner ≡ some 1)
mutual_exclusion_example =
    mutual_exclusion same_loop contended 1 1 reaches_contended refl refl refl refl
