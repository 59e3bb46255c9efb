-- ===== src/Sync/Condition/Notify.antt =====
-- Which waiters a notification reaches.
use gsyncio.Common.{
  ℕ, ◌≡◌, refl, Bool, true, false, some, List, ◌∷◌, ◌++◌, pos, arith, length, min, take-append-drop,
  length-take, ◌==◌, Bool-cases, inl, inr, All,
}
use gsyncio.Common.OrderedDict.{has_key, pop-absent}
use gsyncio.Sync.Wake.{wake_open, wake_first-open}
use gsyncio.Sync.Condition.{Condition, pop_waiters, notify, forward_notify, cancel_wait}

-- `notify(n)` takes the `n` longest waiting entries, or all if there are fewer, off the queue: the
-- queue before is those entries followed by the queue after, and the events scheduled are those of
-- the entries taken whose loop is open.
pub notify_takes_longest_waiting :
    (closed : ℕ → Bool) (n : ℕ) (c : Condition)
    → let popped = (pop_waiters n c.waiters).0 in
      let r = notify closed (pos n) c in
      (length popped ≡ min n (length c.waiters))
      × (popped ++ r.0.waiters ≡ c.waiters)
      × (r.1 ≡ wake_open closed popped)
unfolding notify pop_waiters wake_open
notify_takes_longest_waiting closed n c =
    let ws = c.waiters in
    elim (Bool-cases (n == 0)) [
      | inl none_asked ↦
          let count : min n (length ws) ≡ 0 = ground arith in
          rw (none_asked, count) (refl, refl, refl)
      | inr asked ↦ rw asked (
        length-take (min n (length ws)) ws (omega arith),
        take-append-drop (min n (length ws)) ws,
        refl,
      )
    ]

-- A task that is cancelled after it was notified passes the notification on to the task that has
-- waited longest among those whose loop is open.
pub cancelled_waiter_forwards :
    (closed : ℕ → Bool) (notified : ℕ) (c : Condition) (dead : List (ℕ × ℕ)) (event loop : ℕ)
    (rest : List (ℕ × ℕ))
    → has_key notified c.waiters ≡ false
    → c.waiters ≡ dead ++ (event, loop) ∷ rest
    → All (λ w. closed w.1 ≡ true) dead
    → closed loop ≡ false
    → cancel_wait closed notified c ≡ (record c { waiters = rest }, some event)
unfolding cancel_wait forward_notify
cancelled_waiter_forwards closed notified c dead event loop rest absent e d o =
    ground
      (arith, pop-absent notified c.waiters absent, wake_first-open closed dead event loop rest)
