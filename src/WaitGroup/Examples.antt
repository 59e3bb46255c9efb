-- ===== src/WaitGroup/Examples.antt =====
-- Two coroutines run, and a task waits for them; a third coroutine is tracked.
use gsyncio.Common.{ℕ, ◌≡◌, refl, arith, Bool, true, false, none, [], ◌∷◌, negsuc, contains, ok}
use gsyncio.WaitGroup.{WaitGroup, init, add, done, wait, lower}
use gsyncio.WaitGroup.Waiting.{History, adds, dones, waits, after, call, run, waiter_is_woken}
use gsyncio.WaitGroup.Track.{Tracked, sends, throws, closes, track, collect, use_all}
use gsyncio.WaitGroup.Track.Once.{
  sent_first_settles_once, thrown_first_leaks, awaiting, awaited_settles_twice,
}

abbrev all_open : ℕ → Bool
all_open loop = false

abbrev two_run : WaitGroup
two_run = record init { counter = 2; waiters = (7, 70) ∷ [] }

abbrev counted : History
counted = record { wg = two_run; woken = [] }

abbrev tracked : Tracked
tracked = record { gen = none; stepped = false; wg = record two_run { counter = 3 }; woken = [] }

tracked_lem : track all_open two_run ≡ ok tracked
unfolding track add
tracked_lem = refl

ended_lem :
    (run (dones all_open ∷ adds all_open (negsuc 0) ∷ []) (call (waits 8 80) counted)).wg.counter
    ≡ 0
unfolding run call after add done wait lower
ended_lem = refl

waiter_is_woken_example :
    contains 8
      (run (dones all_open ∷ adds all_open (negsuc 0) ∷ []) (call (waits 8 80) counted)).woken
    ≡ true
waiter_is_woken_example =
    waiter_is_woken 8 80 (dones all_open ∷ adds all_open (negsuc 0) ∷ []) counted
      (λ e. absurd (ground arith)) (refl, (refl, tt)) ended_lem

sent_first_settles_once_example :
    ((collect all_open
        (use_all all_open (sends false ∷ throws true ∷ closes ∷ []) tracked)).wg.counter
      ≡ 2)
    × ((collect all_open tracked).wg.counter ≡ 2)
sent_first_settles_once_example =
    sent_first_settles_once all_open two_run tracked false (throws true ∷ closes ∷ []) tracked_lem

thrown_first_leaks_example :
    (collect all_open (use_all all_open (throws true ∷ closes ∷ []) tracked)).wg.counter ≡ 3
thrown_first_leaks_example =
    thrown_first_leaks all_open two_run tracked true (closes ∷ []) tracked_lem

awaited_settles_twice_example :
    (collect all_open (use_all all_open (awaiting 1) tracked)).wg.counter ≡ 1
awaited_settles_twice_example = awaited_settles_twice all_open two_run tracked 1 tracked_lem
