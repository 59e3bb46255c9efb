-- ===== src/WaitGroup/Waiting.antt =====
-- Calls of any tasks on one wait group, and what becomes of a task that waits.
use gsyncio.Common.{
  ℕ, ◌+◌, ◌≡◌, ◌≢◌, ◌⊎◌, inl, inr, refl, arith, Bool, true, false, List, [], ◌∷◌, ◌++◌, ℤ, pos,
  negsuc, Result, ok, err, ◌==◌, ltb, contains, All, Bool-cases, contains-append-left,
  contains-append-right,
}
use gsyncio.Common.OrderedDict.{Entry}
use gsyncio.Sync.Wake.{wake_open, wake_open_complete}
use gsyncio.WaitGroup.{WaitGroup, add, done, lower, wait, without, cancel_wait}

pub data Call : Type 0 where
  adds : (closed : ℕ → Bool) (delta : ℤ) → Call
  dones : (closed : ℕ → Bool) → Call
  waits : (fut loop : ℕ) → Call
  cancels : (fut : ℕ) → Call

-- The wait group, and the futures that were woken.
pub record History : Type 0 where
  pub wg : WaitGroup
  pub woken : List ℕ

-- A call that raises changes nothing.
unfoldable pub after : Result (WaitGroup × List ℕ) → History → History
after (err e) h = h
after (ok (w, woken)) h = record { wg = w; woken = h.woken ++ woken }

unfoldable pub call : Call → History → History
call (adds closed delta) h = after (add closed delta h.wg) h
call (dones closed) h = after (done closed h.wg) h
call (waits fut loop) h = record h { wg = (wait fut loop h.wg).0 }
call (cancels fut) h = record h { wg = cancel_wait fut h.wg }

unfoldable pub run : List Call → History → History
run [] h = h
run (c ∷ calls) h = run calls (call c h)

-- The call is no cancellation of this future, and finds its loop open.
abbrev pub Spares : (fut loop : ℕ) → Call → Type 0
Spares fut loop (adds closed delta) = closed loop ≡ false
Spares fut loop (dones closed) = closed loop ≡ false
Spares fut loop (waits f l) = Unit
Spares fut loop (cancels f) = fut ≢ f

-- The future was woken, or it is queued while the counter is positive.
abbrev Minded : (fut loop : ℕ) → History → Type 0
Minded fut loop h =
    (contains fut h.woken ≡ true) ⊎ ((h.wg.counter ≢ 0) × Entry fut loop h.wg.waiters)

Entry-append : (fut loop : ℕ) (xs ys : List (ℕ × ℕ)) → Entry fut loop xs → Entry fut loop (xs ++ ys)
Entry-append fut loop [] ys h = elim h [ ]
Entry-append fut loop ((f, l) ∷ xs) ys (inl h) = inl h
Entry-append fut loop ((f, l) ∷ xs) ys (inr h) = inr (Entry-append fut loop xs ys h)

Entry-last : (fut loop : ℕ) (xs : List (ℕ × ℕ)) → Entry fut loop (xs ++ (fut, loop) ∷ [])
Entry-last fut loop [] = inl (refl, refl)
Entry-last fut loop ((f, l) ∷ xs) = inr (Entry-last fut loop xs)

Entry-without :
    (fut loop f : ℕ) (xs : List (ℕ × ℕ))
    → fut ≢ f
    → Entry fut loop xs
    → Entry fut loop (without f xs)
unfolding without
Entry-without fut loop f [] ne h = h
Entry-without fut loop f ((g, l) ∷ xs) ne (inl (e, e')) = ground arith
Entry-without fut loop f ((g, l) ∷ xs) ne (inr h) = ground (arith, Entry-without fut loop f xs ne h)

-- Lowering the counter keeps the promise to those who wait, or fulfils it.
lower-Minded :
    (closed : ℕ → Bool) (fut loop n : ℕ) (h : History)
    → closed loop ≡ false
    → Minded fut loop h
    → Minded fut loop (after (ok (lower closed n h.wg)) h)
unfolding lower after
lower-Minded closed fut loop n h o (inl w) =
    inl (contains-append-left fut h.woken (lower closed n h.wg).1 w)
lower-Minded closed fut loop n h o (inr (c, q)) =
    let woken =
      contains-append-right fut h.woken (wake_open closed h.wg.waiters)
        (wake_open_complete closed fut loop h.wg.waiters q o) in
    ground arith

call-Minded :
    (fut loop : ℕ) (c : Call) (h : History)
    → Spares fut loop c
    → Minded fut loop h
    → Minded fut loop (call c h)
unfolding call add done wait cancel_wait after
call-Minded fut loop (adds closed (pos n)) h o (inl w) =
    let kept = contains-append-left fut h.woken [] w in ground arith
call-Minded fut loop (adds closed (pos n)) h o (inr (c, q)) = ground arith
call-Minded fut loop (adds closed (negsuc k)) h o m = elim (Bool-cases (ltb h.wg.counter (k + 1))) [
  | inl e ↦ rw e m
  | inr e ↦ rw e (lower-Minded closed fut loop (k + 1) h o m)
]
call-Minded fut loop (dones closed) h o m = elim (Bool-cases (h.wg.counter == 0)) [
  | inl e ↦ rw e m
  | inr e ↦ rw e (lower-Minded closed fut loop 1 h o m)
]
call-Minded fut loop (waits f l) h u (inl w) = inl w
call-Minded fut loop (waits f l) h u (inr (c, q)) =
    let kept = Entry-append fut loop h.wg.waiters ((f, l) ∷ []) q in ground arith
call-Minded fut loop (cancels f) h ne (inl w) = inl w
call-Minded fut loop (cancels f) h ne (inr (c, q)) =
    inr (c, Entry-without fut loop f h.wg.waiters ne q)

run-Minded :
    (fut loop : ℕ) (calls : List Call) (h : History)
    → All (Spares fut loop) calls
    → Minded fut loop h
    → Minded fut loop (run calls h)
unfolding run
run-Minded fut loop [] h s m = m
run-Minded fut loop (c ∷ calls) h (s, rest) m =
    run-Minded fut loop calls (call c h) rest (call-Minded fut loop c h s m)

-- A task waits on a wait group whose counter is not zero; then come any calls of any tasks, of which
-- none cancels this wait, and its loop stays open: if the counter is zero in the end, the task was
-- woken, also when the counter has been zero and positive again in between.
pub waiter_is_woken :
    (fut loop : ℕ) (calls : List Call) (h : History)
    → h.wg.counter ≢ 0
    → All (Spares fut loop) calls
    → (run calls (call (waits fut loop) h)).wg.counter ≡ 0
    → contains fut (run calls (call (waits fut loop) h)).woken ≡ true
unfolding call wait
waiter_is_woken fut loop calls h c spares zero_at_end =
    let last = Entry-last fut loop h.wg.waiters in
    let first : Minded fut loop (call (waits fut loop) h) = ground arith in
    elim (run-Minded fut loop calls (call (waits fut loop) h) spares first) [
      | inl woken ↦ woken
      | inr (positive, q) ↦ absurd (positive zero_at_end)
    ]
