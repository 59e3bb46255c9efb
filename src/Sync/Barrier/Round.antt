-- ===== src/Sync/Barrier/Round.antt =====
-- A round of the barrier: who waits, and what the last arrival does.
use gsyncio.Common.{
  ℕ, suc, ◌+◌, ◌<◌, ◌≡◌, refl, Bool, false, List, [], ◌∷◌, ◌++◌, ok, pos, arith, length, update,
  All,
}
use gsyncio.Common.OrderedDict.{has_key, length-set_item-le}
use gsyncio.Sync.Wake.{wake_open}
use gsyncio.Sync.Barrier.{
  Box, empty, index, Barrier, init, assign, leads, wait, cancel_wait, finish, abort, reset,
}
use gsyncio.Sync.Barrier.Released.{assign-other, Spares, Released, run-Released, finish-Released}
use gsyncio.Sync.Barrier.Calls.{Call, waits, cancels, aborts, resets, after, step, run}

assign-index :
    (idx event loop : ℕ) (before after : List (ℕ × ℕ)) (boxes : ℕ → Box)
    → has_key event after ≡ false
    → assign idx (before ++ (event, loop) ∷ after) boxes event ≡ index (idx + length before)
unfolding assign
assign-index idx event loop [] after boxes h =
    ground (arith, assign-other (suc idx) event after (update boxes event (index idx)) h)
assign-index idx event loop ((e, l) ∷ before) after boxes h =
    ground (arith, assign-index (suc idx) event loop before after (update boxes e (index idx)) h)

-- The arrival that completes a round of an intact barrier leads it: all waiters on open loops are
-- woken, the queue is empty for the next generation, and the task that had waited behind `k` others
-- finds the index `k + 1` when it resumes, whatever calls of other tasks come before that: arrivals
-- on their own events, cancellations, aborts and resets.
pub round_gives_indices :
    (closed : ℕ → Bool) (event loop : ℕ) (b : Barrier) (before : List (ℕ × ℕ)) (e l : ℕ)
    (after : List (ℕ × ℕ)) (calls : List Call)
    → b.aborted ≡ false
    → b.broken ≡ false
    → b.waiters ≡ before ++ (e, l) ∷ after
    → has_key e after ≡ false
    → length b.waiters + 1 ≡ b.parties
    → All (Spares e) calls
    → (b' : Barrier) × (wait closed event loop b ≡ ok (b', leads, wake_open closed b.waiters))
      × (b'.waiters ≡ [])
      × (b'.generation ≡ b.generation + 1)
      × (finish b.generation e (run b' calls) ≡ ok (length before + 1))
unfolding wait has_key
round_gives_indices closed event loop b before e l after calls intact whole queue fresh full
      spares =
    let found = assign-index 1 e l before after (update b.boxes event empty) fresh in
    let b' : Barrier = record b {
      boxes = assign 1 b.waiters (update b.boxes event empty);
      waiters = [];
      generation = b.generation + 1;
    } in
    let released : Released b.generation e (length before + 1) b' = record {
      over = omega arith;
      left = refl;
      box = ground (arith, found);
    } in
    (
      b',
      ground arith,
      refl,
      refl,
      finish-Released b.generation e (length before + 1) (run b' calls)
          (run-Released b.generation e (length before + 1) b' calls spares released),
    )

-- Fewer tasks wait than the round needs.
abbrev HasRoom : Barrier → Type 0
HasRoom b = length b.waiters < b.parties

step-HasRoom : (b : Barrier) (c : Call) → HasRoom b → HasRoom (step b c)
unfolding step wait cancel_wait abort reset
step-HasRoom b (waits closed event loop) h = ground (arith, length-set_item-le event loop b.waiters)
step-HasRoom b (cancels closed generation) h = ground arith
step-HasRoom b (aborts closed) h = omega arith
step-HasRoom b (resets closed) h = omega arith

run-HasRoom : (b : Barrier) (calls : List Call) → HasRoom b → HasRoom (run b calls)
unfolding run
run-HasRoom b [] h = h
run-HasRoom b (c ∷ calls) h = run-HasRoom (step b c) calls (step-HasRoom b c h)

step-parties : (b : Barrier) (c : Call) → (step b c).parties ≡ b.parties
unfolding step wait cancel_wait abort reset
step-parties b (waits closed event loop) = ground arith
step-parties b (cancels closed generation) = ground arith
step-parties b (aborts closed) = refl
step-parties b (resets closed) = refl

run-parties : (b : Barrier) (calls : List Call) → (run b calls).parties ≡ b.parties
unfolding run
run-parties b [] = refl
run-parties b (c ∷ calls) = ground (arith, run-parties (step b c) calls, step-parties b c)

-- From a barrier for `n` parties, after any calls in any order, fewer than `n` tasks wait: no task
-- is left waiting once enough have arrived.
pub waiting_below_parties :
    (n : ℕ) (b : Barrier) (calls : List Call)
    → init (pos n) ≡ ok b
    → length (run b calls).waiters < n
unfolding init
waiting_below_parties n b calls e =
    let room : HasRoom b = ground arith in
    let count : b.parties ≡ n = ground arith in
    omega (arith, run-HasRoom b calls room, run-parties b calls)
