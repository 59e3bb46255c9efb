-- ===== src/Sync/Condition/Waiting.antt =====
-- What `wait` does to the lock and to the queue.
use gsyncio.Common.{
  ℕ, ◌≡◌, refl, true, false, some, List, ◌∷◌, ◌++◌, ok, arith, replicate, ltb, lt→ltb, zero, suc,
}
use gsyncio.Sync.Condition.{Attempt, acquired, cancelled, reacquire_lock}

reacquire-after :
    (n : ℕ) (rest : List Attempt)
    → reacquire_lock true (replicate n cancelled ++ acquired ∷ rest) ≡ some (ok true)
unfolding reacquire_lock
reacquire-after zero rest = refl
reacquire-after (suc n) rest = reacquire-after n rest

-- However often (`n` times) the task is cancelled while it takes the lock again, it goes on until
-- `acquire` returns, and then raises CancelledError exactly if there was a cancellation.
pub reacquire_survives_cancellation :
    (n : ℕ) (rest : List Attempt)
    → reacquire_lock false (replicate n cancelled ++ acquired ∷ rest) ≡ some (ok (ltb 0 n))
unfolding reacquire_lock
reacquire_survives_cancellation zero rest = refl
reacquire_survives_cancellation (suc n) rest =
    rw (reacquire-after n rest, lt→ltb 0 (suc n) (omega arith))
