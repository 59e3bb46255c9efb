-- ===== src/Sync/CapacityLimiter/System.antt =====
-- Tasks that share one limiter, interleaved in any order; anybody may resize it at any time.
use gsyncio.Common.{
  ℕ, ◌+◌, ◌-◌, Bool, Option, none, some, List, [], ◌∷◌, ◌++◌, ◌||◌, ok, err, ltb, if◌then◌else◌,
  contains, remove,
}
use gsyncio.Common.OrderedDict.{has_key}
use gsyncio.Common.Transition
use gsyncio.Sync.CapacityLimiter.{
  CapacityLimiter, acquire, cancel_waiter, release, set_total_tokens,
}

-- `granted`: events scheduled for tasks that have not resumed yet; `held`: tokens in use.
pub record System (F : Type 0) : Type 0 where
  pub limiter : CapacityLimiter F
  pub open limiter use *
  pub granted : List ℕ
  pub held : ℕ

pub data Action (F : Type 0) : Type 0 where
  acquires : (event loop : ℕ) → Action F
  resumes : (event : ℕ) → Action F
  cancels : (closed : ℕ → Bool) (event : ℕ) → Action F
  releases : (closed : ℕ → Bool) → Action F
  resizes : (closed : ℕ → Bool) (value : F) → Action F

abbrev pub deliver : Option ℕ → List ℕ → List ℕ
deliver none granted = granted
deliver (some event) granted = event ∷ granted

module _ {F : Type 0} (int : F → ℕ) (is_positive : F → Bool) where
  unfoldable pub step : Action F → System F → Option (System F)
  step (acquires event loop) s =
      let (limiter', got) = acquire int event loop s.limiter in
      if has_key event s.waiters || contains event s.granted
      then none
      else some (record s { limiter = limiter'; held = if got then s.held + 1 else s.held })
  step (resumes event) s =
      if contains event s.granted
      then some (record s { granted = remove event s.granted; held = s.held + 1 })
      else none
  step (cancels closed event) s =
      let (limiter', woken) = cancel_waiter int closed event s.limiter in
      if has_key event s.waiters
      then some (record s { limiter = limiter' })
      else (if contains event s.granted
          then some
              (record s { limiter = limiter'; granted = deliver woken (remove event s.granted) })
          else none)
  step (releases closed) s =
      if ltb 0 s.held
      then elim (release int closed s.limiter) [
        | ok (limiter', woken) ↦
            some (record s {
              limiter = limiter';
              granted = deliver woken s.granted;
              held = s.held - 1;
            })
        | err e ↦ none
      ]
      else none
  step (resizes closed value) s = elim (set_total_tokens int is_positive closed value s.limiter) [
    | ok (limiter', woken) ↦ some (record s { limiter = limiter'; granted = woken ++ s.granted })
    | err e ↦ none
  ]

  abbrev pub fresh : F → System F
  fresh total = record {
    limiter = record { total_tokens = total; borrowed = 0; waiters = [] };
    granted = [];
    held = 0;
  }

  abbrev pub Reachable : F → System F → Type 0
  Reachable total s = Transition.Reach step (fresh total) s
