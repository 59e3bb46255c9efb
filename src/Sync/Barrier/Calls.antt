-- ===== src/Sync/Barrier/Calls.antt =====
-- Histories of a barrier: calls of any tasks in any order. A call that raises changes nothing.
use gsyncio.Common.{ℕ, Bool, List, [], ◌∷◌, Result, ok, err}
use gsyncio.Sync.Barrier.{Barrier, Arrival, wait, cancel_wait, abort, reset}

pub data Call : Type 0 where
  waits : (closed : ℕ → Bool) (event loop : ℕ) → Call
  cancels : (closed : ℕ → Bool) (generation : ℕ) → Call
  aborts : (closed : ℕ → Bool) → Call
  resets : (closed : ℕ → Bool) → Call

abbrev pub after : Barrier → Result (Barrier × Arrival × List ℕ) → Barrier
after b (err e) = b
after b (ok (b', arrival, woken)) = b'

unfoldable pub step : Barrier → Call → Barrier
step b (waits closed event loop) = after b (wait closed event loop b)
step b (cancels closed generation) = (cancel_wait closed generation b).0
step b (aborts closed) = (abort closed b).0
step b (resets closed) = (reset closed b).0

unfoldable pub run : Barrier → List Call → Barrier
run b [] = b
run b (c ∷ calls) = run (step b c) calls
