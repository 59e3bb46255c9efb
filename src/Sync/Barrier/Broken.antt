-- ===== src/Sync/Barrier/Broken.antt =====
-- A barrier that was broken or aborted stays so until it is reset.
use gsyncio.Common.{
  ℕ, ◌≡◌, refl, Bool, true, false, List, [], ◌∷◌, err, runtime_error, arith, All, update, ◌⊎◌, inl,
}
use gsyncio.Common.OrderedDict.{has_key}
use gsyncio.Sync.Barrier.{Box, broken_box, Barrier, spoil, wait, cancel_wait, finish, abort, reset}
use gsyncio.Sync.Barrier.Calls.{Call, waits, cancels, aborts, resets, step, run}

-- Not a reset.
abbrev pub KeepsBroken : Call → Type 0
KeepsBroken (resets closed) = ⊥
KeepsBroken (waits closed event loop) = Unit
KeepsBroken (cancels closed generation) = Unit
KeepsBroken (aborts closed) = Unit

step-broken : (b : Barrier) (c : Call) → KeepsBroken c → b.broken ≡ true → (step b c).broken ≡ true
unfolding step wait cancel_wait abort
step-broken b (waits closed event loop) k h = ground arith
step-broken b (cancels closed generation) k h = ground arith
step-broken b (aborts closed) k h = refl
step-broken b (resets closed) k h = elim k [ ]

run-broken :
    (b : Barrier) (calls : List Call)
    → All KeepsBroken calls
    → b.broken ≡ true
    → (run b calls).broken ≡ true
unfolding run
run-broken b [] k h = h
run-broken b (c ∷ calls) k h = run-broken (step b c) calls k.1 (step-broken b c k.0 h)

-- After a task was cancelled while it waited in the current generation, or after `abort`, every
-- call of `wait` raises, whatever other calls came in between, as long as `reset` was not called.
pub broken_until_reset :
    (b : Barrier) (calls : List Call) (closed : ℕ → Bool) (event loop : ℕ)
    → All KeepsBroken calls
    → (wait closed event loop (run (cancel_wait closed b.generation b).0 calls) ≡ err runtime_error)
      × (wait closed event loop (run (abort closed b).0 calls) ≡ err runtime_error)
unfolding wait cancel_wait abort
broken_until_reset b calls closed event loop k =
    let cancelled : (cancel_wait closed b.generation b).0.broken ≡ true = ground arith in
    (
      ground (arith, run-broken (cancel_wait closed b.generation b).0 calls k cancelled),
      ground (arith, run-broken (abort closed b).0 calls k refl),
    )

spoil_self :
    (event : ℕ) (ws : List (ℕ × ℕ)) (boxes : ℕ → Box)
    → (has_key event ws ≡ true) ⊎ (boxes event ≡ broken_box)
    → spoil ws boxes event ≡ broken_box
unfolding spoil has_key
spoil_self event [] boxes h = ground arith
spoil_self event ((e, l) ∷ ws) boxes h =
    spoil_self event ws (update boxes e broken_box) (ground arith)

-- When a waiting task is cancelled in the current generation, every task that waits in that round
-- raises when it resumes, and `reset` makes the barrier usable again.
pub cancellation_breaks_round :
    (closed : ℕ → Bool) (b : Barrier) (event : ℕ)
    → has_key event b.waiters ≡ true
    → let b' = (cancel_wait closed b.generation b).0 in
      (finish b.generation event b' ≡ err runtime_error)
      × ((reset closed b').0.broken ≡ false)
      × ((reset closed b').0.aborted ≡ false)
unfolding cancel_wait finish reset
cancellation_breaks_round closed b event waiting =
    ground (arith, spoil_self event b.waiters b.boxes (inl waiting))
