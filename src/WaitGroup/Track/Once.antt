-- ===== src/WaitGroup/Track/Once.antt =====
-- How often a tracked coroutine lowers the counter, by how its use begins.
use gsyncio.Common.{
  ℕ, zero, suc, ◌+◌, ◌-◌, ◌≡◌, ◌∙◌, ap, sym, subst, ◌⊎◌, inl, inr, refl, arith, Bool, true, false,
  Option, none, some, List, [], ◌∷◌, ok,
}
use gsyncio.WaitGroup.{WaitGroup, add, done, lower}
use gsyncio.WaitGroup.Track.{
  Generator, suspended, over, Tracked, track, settle, go_on, send_gen, throw_gen, close_gen, close,
  collect, ensure_gen, Use, sends, throws, awaits, opens, closes, use_one, use_all,
}

-- The generator is at `g`, and the counter is `n`.
abbrev At : Option Generator → ℕ → Tracked → Type 0
At g n t = (t.gen ≡ g) × (t.wg.counter ≡ n)

settle_lem :
    (closed : ℕ → Bool) (t : Tracked)
    → ((settle closed t).wg.counter ≡ t.wg.counter - 1)
      × ((settle closed t).gen ≡ t.gen)
      × ((settle closed t).stepped ≡ t.stepped)
unfolding settle done lower
settle_lem closed t = (ground arith, ground arith, ground arith)

track_lem :
    (closed : ℕ → Bool) (w : WaitGroup) (t : Tracked)
    → track closed w ≡ ok t
    → At none (w.counter + 1) t × (t.stepped ≡ false)
unfolding track add
track_lem closed w t e = ((ground arith, ground arith), ground arith)

go_on-over :
    (closed : ℕ → Bool) (n : ℕ) (t : Tracked)
    → t.wg.counter ≡ n + 1
    → At (some over) n (go_on closed true t) × ((go_on closed true t).stepped ≡ t.stepped)
unfolding go_on
go_on-over closed n t c =
    let (lowered, kept, same) = settle_lem closed (record t { gen = some over }) in
    ((kept, ground arith), same)

-- Stepped, and over.
abbrev Ended : ℕ → Tracked → Type 0
Ended n t = (t.stepped ≡ true) × At (some over) n t

-- Stepped, and over or suspended inside `try`, where `done` is still to come.
abbrev Running : ℕ → Tracked → Type 0
Running n t = Ended n t ⊎ ((t.stepped ≡ true) × At (some suspended) (n + 1) t)

go_on-Running :
    (closed : ℕ → Bool) (ends : Bool) (n : ℕ) (t : Tracked)
    → t.stepped ≡ true
    → t.wg.counter ≡ n + 1
    → Running n (go_on closed ends t)
unfolding go_on
go_on-Running closed true n t s c = let (at, same) = go_on-over closed n t c in inl (same ∙ s, at)
go_on-Running closed false n t s c = inr (s, (refl, c))

use_one-Ended :
    (closed : ℕ → Bool) (u : Use) (n : ℕ) (t : Tracked) → Ended n t → Ended n (use_one closed u t)
unfolding use_one send_gen throw_gen close close_gen ensure_gen
use_one-Ended closed (sends ends) n t (s, (g, c)) = ground arith
use_one-Ended closed (throws ends) n t (s, (g, c)) = ground arith
use_one-Ended closed (awaits ends) n t (s, (g, c)) = ground arith
use_one-Ended closed opens n t (s, (g, c)) = ground arith
use_one-Ended closed closes n t (s, (g, c)) = ground arith

use_all-Ended :
    (closed : ℕ → Bool) (us : List Use) (n : ℕ) (t : Tracked)
    → Ended n t
    → Ended n (use_all closed us t)
unfolding use_all
use_all-Ended closed [] n t h = h
use_all-Ended closed (u ∷ us) n t h =
    use_all-Ended closed us n (use_one closed u t) (use_one-Ended closed u n t h)

-- At a suspended generator every method goes on with the body.
at_suspended :
    (closed : ℕ → Bool) (ends : Bool) (t : Tracked)
    → t.gen ≡ some suspended
    → (go_on closed ends t ≡ send_gen closed ends t)
      × (go_on closed ends t ≡ throw_gen closed ends t)
      × (go_on closed true t ≡ close_gen closed t)
      × (t ≡ ensure_gen t)
unfolding send_gen throw_gen close_gen ensure_gen
at_suspended closed ends t g = (rw g refl, rw g refl, rw g refl, rw g refl)

use_one-suspended :
    (closed : ℕ → Bool) (u : Use) (n : ℕ) (t : Tracked)
    → t.stepped ≡ true
    → At (some suspended) (n + 1) t
    → Running n (use_one closed u t)
unfolding use_one close
use_one-suspended closed (sends ends) n t s (g, c) =
    let t' : Tracked = record t { stepped = true } in
    subst (Running n) (at_suspended closed ends t' g).0 (go_on-Running closed ends n t' refl c)
use_one-suspended closed (throws ends) n t s (g, c) =
    let t' : Tracked = record t { stepped = true } in
    subst (Running n) (at_suspended closed ends t' g).1 (go_on-Running closed ends n t' refl c)
use_one-suspended closed (awaits ends) n t s (g, c) =
    subst (Running n) (at_suspended closed ends t g).0 (go_on-Running closed ends n t s c)
use_one-suspended closed opens n t s (g, c) =
    subst (Running n) (at_suspended closed true t g).3 (inr (s, (g, c)))
use_one-suspended closed closes n t s (g, c) =
    simp s (subst (Running n) (at_suspended closed true t g).2 (go_on-Running closed true n t s c))

use_all-Running :
    (closed : ℕ → Bool) (us : List Use) (n : ℕ) (t : Tracked)
    → Running n t
    → Running n (use_all closed us t)
unfolding use_all
use_all-Running closed [] n t h = h
use_all-Running closed (u ∷ us) n t (inl h) =
    use_all-Running closed us n (use_one closed u t) (inl (use_one-Ended closed u n t h))
use_all-Running closed (u ∷ us) n t (inr (s, at)) =
    use_all-Running closed us n (use_one closed u t) (use_one-suspended closed u n t s at)

at_none :
    (closed : ℕ → Bool) (ends : Bool) (t : Tracked)
    → t.gen ≡ none
    → go_on closed ends t ≡ send_gen closed ends t
unfolding send_gen
at_none closed ends t g = rw g refl

collect-Ended :
    (closed : ℕ → Bool) (n : ℕ) (t : Tracked) → Ended n t → (collect closed t).wg.counter ≡ n
unfolding collect close_gen
collect-Ended closed n t (s, (g, c)) = ground arith

collect-Running :
    (closed : ℕ → Bool) (n : ℕ) (t : Tracked) → Running n t → (collect closed t).wg.counter ≡ n
unfolding collect close_gen
collect-Running closed n t (inl h) = collect-Ended closed n t h
collect-Running closed n t (inr (s, (g, c))) =
    let (at, same) = go_on-over closed n t c in
    simp s (ap (λ x. x.wg.counter) (sym (at_suspended closed true t g).2) ∙ at.1)

-- A coroutine from `track` is first resumed by `send`; whatever its user does then, by its methods or
-- by awaiting it, in any order: when it is collected, the counter is what it was before `track`. So
-- it is also if it is never used.
pub sent_first_settles_once :
    (closed : ℕ → Bool) (w : WaitGroup) (t : Tracked) (ends : Bool) (us : List Use)
    → track closed w ≡ ok t
    → ((collect closed (use_all closed (sends ends ∷ us) t)).wg.counter ≡ w.counter)
      × ((collect closed t).wg.counter ≡ w.counter)
unfolding use_all use_one send_gen collect close_gen
sent_first_settles_once closed w t ends us e =
    let ((g, c), s) = track_lem closed w t e in
    let t' : Tracked = record t { stepped = true } in
    let (lowered, kept, same) = settle_lem closed t' in
    let began : Running w.counter (use_one closed (sends ends) t) =
      subst (Running w.counter) (at_none closed ends t' g)
        (go_on-Running closed ends w.counter t' refl c) in
    (collect-Running closed w.counter _ (use_all-Running closed us w.counter _ began), ground arith)

-- A coroutine from `track` is first resumed by `throw`, as a task does that is cancelled before its
-- first step; whatever its user does then: also when it is collected, the counter is one more than
-- before `track`, so that nobody who waits is woken by it.
pub thrown_first_leaks :
    (closed : ℕ → Bool) (w : WaitGroup) (t : Tracked) (ends : Bool) (us : List Use)
    → track closed w ≡ ok t
    → (collect closed (use_all closed (throws ends ∷ us) t)).wg.counter ≡ w.counter + 1
unfolding use_all use_one throw_gen
thrown_first_leaks closed w t ends us e =
    let ((g, c), s) = track_lem closed w t e in
    let began : Ended (w.counter + 1) (use_one closed (throws ends) t) = rw g (refl, (refl, c)) in
    collect-Ended closed (w.counter + 1) _ (use_all-Ended closed us (w.counter + 1) _ began)

-- An `await` that takes `k` more steps than one.
unfoldable pub awaiting : (k : ℕ) → List Use
awaiting zero = awaits true ∷ []
awaiting (suc k) = awaits false ∷ awaiting k

-- Awaited, and suspended at most.
abbrev Awaited : ℕ → Tracked → Type 0
Awaited n t =
    (t.stepped ≡ false) × ((t.gen ≡ none) ⊎ (t.gen ≡ some suspended)) × (t.wg.counter ≡ n + 1)

awaits-go_on :
    (closed : ℕ → Bool) (ends : Bool) (n : ℕ) (t : Tracked)
    → Awaited n t
    → go_on closed ends t ≡ use_one closed (awaits ends) t
unfolding use_one
awaits-go_on closed ends n t (s, inl g, c) = at_none closed ends t g
awaits-go_on closed ends n t (s, inr g, c) = (at_suspended closed ends t g).0

suspended_lem :
    (closed : ℕ → Bool) (n : ℕ) (t : Tracked)
    → t.stepped ≡ false
    → t.wg.counter ≡ n + 1
    → Awaited n (go_on closed false t)
unfolding go_on
suspended_lem closed n t s c = (s, inr refl, c)

awaiting_lem :
    (closed : ℕ → Bool) (k n : ℕ) (t : Tracked)
    → Awaited n t
    → At (some over) n (use_all closed (awaiting k) t)
      × ((use_all closed (awaiting k) t).stepped ≡ false)
unfolding use_all awaiting
awaiting_lem closed zero n t (s, g, c) =
    let (at, same) = go_on-over closed n t c in
    subst (λ x. At (some over) n x × (x.stepped ≡ false)) (awaits-go_on closed true n t (s, g, c))
      (at, same ∙ s)
awaiting_lem closed (suc k) n t (s, g, c) =
    awaiting_lem closed k n (use_one closed (awaits false) t)
      (subst (Awaited n) (awaits-go_on closed false n t (s, g, c)) (suspended_lem closed n t s c))

-- A coroutine from `track` is awaited, however many steps that takes, until it ends, and then
-- collected: the counter is one less than before `track`, or zero if it was zero: `done` is called for
-- the coroutine, and then once more for another one that still runs.
pub awaited_settles_twice :
    (closed : ℕ → Bool) (w : WaitGroup) (t : Tracked) (k : ℕ)
    → track closed w ≡ ok t
    → (collect closed (use_all closed (awaiting k) t)).wg.counter ≡ w.counter - 1
unfolding collect close_gen
awaited_settles_twice closed w t k e =
    let ((g, c), s) = track_lem closed w t e in
    let ended = awaiting_lem closed k w.counter t (s, inl g, c) in
    let t' : Tracked = record (use_all closed (awaiting k) t) { stepped = true } in
    let (lowered, kept, same) = settle_lem closed t' in ground arith
