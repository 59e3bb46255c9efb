-- ===== src/CancelScope/Examples.antt =====
-- Scopes of task 7: 1 moves on at time 5, and 2 is inside it.
use gsyncio.Common.{
  ℕ, ◌≡◌, ◌≢◌, ◌↔◌, ◌⊎◌, refl, inr, true, none, some, [], ◌∷◌, arith, contains, update,
}
use gsyncio.CancelScope.{
  move_on_at, fail_at, World, enclosing, any_cancelled, effectively_cancelled, register,
  check_entry, aenter, cancel, aexit, is_cancelled, ends, goes_on, checkpoint, reversed,
  current_effective_deadline,
}
use gsyncio.CancelScope.Ledger.{cancelled_scope_balances, finished_scope_balances}
use gsyncio.CancelScope.Deadline.{
  Seen, no_later, effective_deadline_tightest, checkpoint_raises_iff,
}

abbrev outside : World
outside = record { scopes = λ id. move_on_at 5; stack = []; cancelling = 0 }

-- The scope is entered at time 3.
abbrev inside : World
inside = (aenter 7 3 1 outside).0

enters : aenter 7 3 1 outside ≡ (inside, none)
unfolding aenter check_entry effectively_cancelled register enclosing any_cancelled
enters = refl

cancelled_scope_balances_example :
    ((aexit 1 is_cancelled (cancel 1 inside)).0.cancelling ≡ 0)
    × ((aexit 1 is_cancelled (cancel 1 inside)).0.stack ≡ [])
    × ((aexit 1 is_cancelled (cancel 1 inside)).1 ≢ goes_on)
cancelled_scope_balances_example = cancelled_scope_balances 7 3 1 outside inside enters (inr refl)

finished_scope_balances_example :
    ((aexit 1 ends inside).0.cancelling ≡ 0)
    × ((aexit 1 ends inside).0.stack ≡ [])
    × ((aexit 1 ends (cancel 1 inside)).0.cancelling ≡ 0)
    × ((aexit 1 ends (cancel 1 inside)).0.stack ≡ [])
finished_scope_balances_example =
    finished_scope_balances 7 3 1 ends outside inside enters (λ e. absurd (ground arith))

-- Scope 2 is inside scope 1, which is cancelled.
abbrev nested : World
nested = record {
  scopes = update (λ id. fail_at 9) 1 (record (move_on_at 5) { cancel_called = true });
  stack = 1 ∷ 2 ∷ [];
  cancelling = 1;
}

checkpoint_raises_iff_example :
    ((checkpoint nested).1 ≡ true)
    ↔ ((x : ℕ) × Seen nested.scopes (2 ∷ 1 ∷ []) x × ((nested.scopes x).cancel_called ≡ true))
unfolding contains reversed
checkpoint_raises_iff_example = checkpoint_raises_iff nested (1 ∷ []) 2 refl refl

effective_deadline_tightest_example :
    (no_later (current_effective_deadline nested) (some 5) ≡ true)
    × ((current_effective_deadline nested ≡ none)
        ⊎ ((y : ℕ) × Seen nested.scopes (2 ∷ 1 ∷ []) y
            × (current_effective_deadline nested ≡ (nested.scopes y).deadline)))
unfolding reversed
effective_deadline_tightest_example =
    effective_deadline_tightest nested 1
      (record { inner = 2 ∷ []; outer = []; lies = refl; unshielded = (refl, tt) })
