-- ===== src/Sync/Event/Laws.antt =====
-- The event stays set, wakes every waiter, and leaves nobody behind.
use gsyncio.Common.{
  contains, ℕ, ◌≡◌, refl, Bool, true, false, List, [], ◌∷◌, ◌++◌, ◌⊎◌, inl, inr, arith,
}
use gsyncio.Common.OrderedDict.{pop-nil, Entry}
use gsyncio.Sync.Wake.{wake_open_complete}
use gsyncio.Sync.Event.{Event, init, set, wait, cancel_wait, Call, sets, waits, cancels, step, run}

-- Nobody is queued on a set event.
abbrev Quiet : Event → Type 0
Quiet s = (s.flag ≡ false) ⊎ (s.waiters ≡ [])

step-Quiet : (s : Event) (c : Call) → Quiet s → Quiet (step s c)
unfolding step set wait cancel_wait
step-Quiet s (sets closed) q = inr refl
step-Quiet s (waits event loop) q = ground arith
step-Quiet s (cancels event) q = ground (arith, pop-nil event s.waiters)

run-Quiet : (s : Event) (calls : List Call) → Quiet s → Quiet (run s calls)
unfolding run
run-Quiet s [] q = q
run-Quiet s (c ∷ calls) q = run-Quiet (step s c) calls (step-Quiet s c q)

step-flag : (s : Event) (c : Call) → s.flag ≡ true → (step s c).flag ≡ true
unfolding step set wait cancel_wait
step-flag s (sets closed) h = refl
step-flag s (waits event loop) h = ground arith
step-flag s (cancels event) h = h

run-flag : (s : Event) (calls : List Call) → s.flag ≡ true → (run s calls).flag ≡ true
unfolding run
run-flag s [] h = h
run-flag s (c ∷ calls) h = run-flag (step s c) calls (step-flag s c h)

run-sets-flag :
    (s : Event) (closed : ℕ → Bool) (after : List Call) → (run s (sets closed ∷ after)).flag ≡ true
unfolding run step set
run-sets-flag s closed after = run-flag (set closed s).0 after refl

run-append : (s : Event) (cs ds : List Call) → run s (cs ++ ds) ≡ run (run s cs) ds
unfolding run
run-append s [] ds = refl
run-append s (c ∷ cs) ds = run-append (step s c) cs ds

-- Whatever calls came before a `set` on a new event and whatever calls follow it, in any order: the
-- event stays set, nobody is queued, and `wait` returns at once.
pub set_is_permanent :
    (before after : List Call) (closed : ℕ → Bool) (event loop : ℕ)
    → let s = run init (before ++ sets closed ∷ after) in
      (s.flag ≡ true) × (s.waiters ≡ []) × (wait event loop s ≡ (s, true))
unfolding wait
set_is_permanent before after closed event loop =
    let s = run init (before ++ sets closed ∷ after) in
    let quiet = run-Quiet init (before ++ sets closed ∷ after) (inl refl) in
    let is_set : s.flag ≡ true =
      rw (run-append init before (sets closed ∷ after))
        (run-sets-flag (run init before) closed after) in
    (is_set, ground arith, ground arith)

-- `set` schedules the event of every queued waiter whose loop is open.
pub set_wakes_waiters :
    (closed : ℕ → Bool) (s : Event) (event loop : ℕ)
    → Entry event loop s.waiters
    → closed loop ≡ false
    → contains event (set closed s).1 ≡ true
unfolding set
set_wakes_waiters closed s event loop = wake_open_complete closed event loop s.waiters
