-- ===== src/Sync/Barrier/Released.antt =====
-- A task whose round is over finds its index, however late it resumes.
use gsyncio.Common.{ℕ, suc, ◌<◌, ◌≡◌, ◌≢◌, refl, false, List, [], ◌∷◌, ok, arith, All, update}
use gsyncio.Common.OrderedDict.{has_key, set_item}
use gsyncio.Sync.Barrier.{
  Box, empty, broken_box, index, Barrier, assign, spoil, wait, cancel_wait, finish, abort, reset,
}
use gsyncio.Sync.Barrier.Calls.{Call, waits, cancels, aborts, resets, step, run}

pub assign-other :
    (idx event : ℕ) (ws : List (ℕ × ℕ)) (boxes : ℕ → Box)
    → has_key event ws ≡ false
    → assign idx ws boxes event ≡ boxes event
unfolding assign has_key
assign-other idx event [] boxes h = refl
assign-other idx event ((e, l) ∷ ws) boxes h =
    ground (arith, assign-other (suc idx) event ws (update boxes e (index idx)))

spoil-other :
    (event : ℕ) (ws : List (ℕ × ℕ)) (boxes : ℕ → Box)
    → has_key event ws ≡ false
    → spoil ws boxes event ≡ boxes event
unfolding spoil has_key
spoil-other event [] boxes h = refl
spoil-other event ((e, l) ∷ ws) boxes h =
    ground (arith, spoil-other event ws (update boxes e broken_box))

set_item-other :
    (event e l : ℕ) (ws : List (ℕ × ℕ))
    → event ≢ e
    → has_key event ws ≡ false
    → has_key event (set_item e l ws) ≡ false
unfolding set_item has_key
set_item-other event e l [] ne h = ground arith
set_item-other event e l ((k, m) ∷ ws) ne h = ground (arith, set_item-other event e l ws)

-- The call does not wait on this event; every `wait` makes an event of its own.
abbrev pub Spares : (event : ℕ) → Call → Type 0
Spares event (waits closed e loop) = event ≢ e
Spares event (cancels closed generation) = Unit
Spares event (aborts closed) = Unit
Spares event (resets closed) = Unit

-- The generation is over, the event is not queued, and its box has the index.
pub record Released (generation event arrival : ℕ) (b : Barrier) : Type 0 where
  pub over : generation < b.generation
  pub left : has_key event b.waiters ≡ false
  pub box : b.boxes event ≡ index arrival

step-Released :
    (generation event arrival : ℕ) (b : Barrier) (c : Call)
    → Spares event c
    → Released generation event arrival b
    → Released generation event arrival (step b c)
unfolding step wait cancel_wait abort reset has_key
step-Released generation event arrival b (waits closed e loop) ne r =
    let other = assign-other 1 event b.waiters (update b.boxes e empty) r.left in
    let queue = set_item-other event e loop b.waiters ne r.left in
    let over = r.over in
    let left = r.left in
    let box = r.box in record { over = ground arith; left = ground arith; box = ground arith }
step-Released generation event arrival b (cancels closed g) u r =
    let other = spoil-other event b.waiters b.boxes r.left in
    let over = r.over in
    let left = r.left in
    let box = r.box in record { over = ground arith; left = ground arith; box = ground arith }
step-Released generation event arrival b (aborts closed) u r = record {
  over = r.over;
  left = refl;
  box = r.box;
}
step-Released generation event arrival b (resets closed) u r =
    let over = r.over in record { over = omega arith; left = refl; box = r.box }

pub run-Released :
    (generation event arrival : ℕ) (b : Barrier) (calls : List Call)
    → All (Spares event) calls
    → Released generation event arrival b
    → Released generation event arrival (run b calls)
unfolding run
run-Released generation event arrival b [] spares r = r
run-Released generation event arrival b (c ∷ calls) (s, spares) r =
    run-Released generation event arrival (step b c) calls spares
      (step-Released generation event arrival b c s r)

pub finish-Released :
    (generation event arrival : ℕ) (b : Barrier)
    → Released generation event arrival b
    → finish generation event b ≡ ok arrival
unfolding finish
finish-Released generation event arrival b r = let over = r.over in let box = r.box in ground arith
