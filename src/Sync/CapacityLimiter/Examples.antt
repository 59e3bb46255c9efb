-- ===== src/Sync/CapacityLimiter/Examples.antt =====
-- Runs of the limiter over whole numbers of tokens, and the theorems at concrete inputs.
use gsyncio.Common.{
  ℕ, ◌+◌, ◌≤◌, ◌≡◌, ◌⊎◌, refl, Bool, false, some, [], ◌∷◌, err, contains, value_error, length, ltb,
}
use gsyncio.Common.OrderedDict.{has_key, set_item}
use gsyncio.Common.Transition
use gsyncio.Sync.CapacityLimiter.{acquire, fill, set_total_tokens, init}
use gsyncio.Sync.CapacityLimiter.System.{System, acquires, resizes, step, Reachable}
use gsyncio.Sync.CapacityLimiter.Safety.{tokens_accounted}

abbrev whole : ℕ → ℕ
whole n = n

abbrev positive : ℕ → Bool
positive n = ltb 0 n

abbrev all_open : ℕ → Bool
all_open loop = false

-- One token, held; two tasks wait on the events 1 and 2.
abbrev contended : System ℕ
contended = record {
  limiter = record { total_tokens = 1; borrowed = 1; waiters = (1, 10) ∷ (2, 20) ∷ [] };
  granted = [];
  held = 1;
}

reaches_contended : Reachable whole positive 1 contended
unfolding step acquire has_key contains set_item
reaches_contended =
    Transition.next (acquires 2 20)
      (Transition.next (acquires 1 10) (Transition.next (acquires 0 10) Transition.start refl) refl)
      refl

abbrev resized : System ℕ
resized = record {
  limiter = record { total_tokens = 2; borrowed = 2; waiters = (2, 20) ∷ [] };
  granted = 1 ∷ [];
  held = 1;
}

resize_wakes : step whole positive (resizes all_open 2) contended ≡ some resized
unfolding step set_total_tokens fill
resize_wakes = refl

zero_rejected : init whole positive 0 ≡ err value_error
unfolding init
zero_rejected = refl

tokens_accounted_example :
    (contended.borrowed ≡ length contended.granted + contended.held)
    × ((whole contended.total_tokens ≤ contended.borrowed) ⊎ (contended.waiters ≡ []))
tokens_accounted_example = tokens_accounted whole positive 1 contended reaches_contended
