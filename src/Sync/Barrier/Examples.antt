-- ===== src/Sync/Barrier/Examples.antt =====
-- The barrier at concrete inputs.
use gsyncio.Common.{ℕ, ◌≡◌, refl, Bool, false, [], ◌∷◌, ok, arith}
use gsyncio.Common.OrderedDict.{has_key}
use gsyncio.Sync.Wake.{wake_open}
use gsyncio.Sync.Barrier.{empty, Barrier, leads, wait, finish}
use gsyncio.Sync.Barrier.Calls.{waits, aborts, run}
use gsyncio.Sync.Barrier.Round.{round_gives_indices}

abbrev all_open : ℕ → Bool
all_open loop = false

abbrev two_wait : Barrier
two_wait = record {
  parties = 3;
  generation = 0;
  waiters = (1, 10) ∷ (2, 20) ∷ [];
  aborted = false;
  broken = false;
  boxes = λ event. empty;
}

abbrev new_barrier : Barrier
new_barrier = record two_wait { waiters = [] }

round_gives_indices_example :
    (b' : Barrier) × (wait all_open 3 10 two_wait
      ≡ ok (b', leads, wake_open all_open two_wait.waiters))
    × (b'.waiters ≡ [])
    × (b'.generation ≡ 1)
    × (finish 0 2 (run b' (waits all_open 4 10 ∷ aborts all_open ∷ [])) ≡ ok 2)
unfolding has_key
round_gives_indices_example =
    round_gives_indices all_open 3 10 two_wait ((1, 10) ∷ []) 2 20 []
      (waits all_open 4 10 ∷ aborts all_open ∷ []) refl refl refl refl refl
      ((λ e. absurd (omega (arith, e))), (tt, tt))
