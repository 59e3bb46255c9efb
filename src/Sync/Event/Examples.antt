-- ===== src/Sync/Event/Examples.antt =====
-- The event at concrete inputs.
use gsyncio.Common.{◌==◌, ℕ, Bool, false, List, [], ◌∷◌, ◌++◌}
use gsyncio.Sync.Event.{Event, Call, sets, waits, cancels}

abbrev all_open : ℕ → Bool
all_open loop = false

abbrev history : List Call
history = (waits 1 10 ∷ waits 2 20 ∷ cancels 1 ∷ []) ++ sets all_open ∷ waits 3 10 ∷ []

-- Two tasks wait; the loop of the first is closed.
abbrev waited : Event
waited = record { flag = false; waiters = (1, 10) ∷ (2, 20) ∷ [] }

abbrev first_closed : ℕ → Bool
first_closed loop = loop == 10
