-- ===== src/Once/Safety.antt =====
-- One call for all tasks, and one outcome.
use gsyncio.Common.{
  ℕ, ◌≤◌, ◌≡◌, refl, ◌⊎◌, inl, inr, Bool, true, false, not, ◌&&◌, Option, none, some, [], ◌++◌,
  arith, if◌then◌else◌, contains, Result, ok, err, All, Bool-cases, subst, sym, ap, ◌∙◌,
}
use mathlib.Core.Option.{some-injective}
use gsyncio.Common.Transition
use gsyncio.Common.OrderedDict.{pop-nil, set_item}
use gsyncio.Once.{Once, settled, leads, waits, stored, outcome, enter, finish, resume, cancel_wait}
use gsyncio.Once.System.{System, fresh, Action, enters, finishes, resumes, cancels, entered, step}

-- What the other tasks should get of the leader's call: its result or its exception, but a
-- cancellation of the leader is an error of another kind.
abbrev pub shared : {V : Type 0} → Result V → Result (Option V)
shared (ok v) = ok (some v)
shared (err e) = err (stored e)

module _ {V : Type 0} where
  -- Before and after the end of the leader's call.
  data Inv (s : System V) : Type 0 where
    before :
        s.ended ≡ none
        → s.once.done ≡ false
        → s.once.exc ≡ none
        → s.outcomes ≡ []
        → s.woken ≡ []
        → s.calls ≡ (if s.once.executing then 1 else 0)
        → Inv s
    after :
        (r : Result V)
        → s.ended ≡ some r
        → s.once.done ≡ true
        → outcome s.once ≡ shared r
        → s.once.waiters ≡ []
        → All (λ g. g ≡ shared r) s.outcomes
        → s.calls ≡ 1
        → Inv s

  enter_settled :
      (fut loop : ℕ) (o : Once V) → o.done ≡ true → enter fut loop o ≡ (o, settled (outcome o))
  unfolding enter
  enter_settled fut loop o d = ground arith

  enter_waits :
      (fut loop : ℕ) (o : Once V)
      → o.done ≡ false
      → o.executing ≡ true
      → enter fut loop o ≡ (record o { waiters = set_item fut loop o.waiters }, waits)
  unfolding enter
  enter_waits fut loop o d h = ground arith

  enter_leads :
      (fut loop : ℕ) (o : Once V)
      → o.done ≡ false
      → o.executing ≡ false
      → enter fut loop o ≡ (record o { executing = true }, leads)
  unfolding enter
  enter_leads fut loop o d h = ground arith

  enters-Inv : (fut loop : ℕ) (s t : System V) → step (enters fut loop) s ≡ some t → Inv s → Inv t
  unfolding step entered
  enters-Inv fut loop s t e (before n d x g w c) = elim (Bool-cases s.once.executing) [
    | inl h ↦
        subst Inv
          (ap (λ p. entered s p.0 p.1) (sym (enter_waits fut loop s.once d h))
            ∙ some-injective _ _ e)
          (before n d x g w c)
    | inr h ↦
        subst Inv
          (ap (λ p. entered s p.0 p.1) (sym (enter_leads fut loop s.once d h))
            ∙ some-injective _ _ e)
          (before n d x g w (ground arith))
  ]
  enters-Inv fut loop s t e (after r n d o w g c) =
      subst Inv
        (ap (λ p. entered s p.0 p.1) (sym (enter_settled fut loop s.once d)) ∙ some-injective _ _ e)
        (after r n d o w (o, g) c)

  finishes-Inv :
      (closed : ℕ → Bool) (r : Result V) (s t : System V)
      → step (finishes closed r) s ≡ some t
      → Inv s
      → Inv t
  unfolding step finish outcome
  finishes-Inv closed r s t e (after q n d o w g c) = absurd (ground arith)
  finishes-Inv closed r s t e (before n d x g w c) =
      let h : s.once.executing && not s.once.done ≡ true = ground arith in
      subst Inv (some-injective _ _ (rw h at e)) (ended r)
    where
      counted : s.calls ≡ 1
      counted = ground arith

      ended :
          (q : Result V)
          → Inv (record s {
            once = (finish closed q s.once).0;
            ended = some q;
            woken = s.woken ++ (finish closed q s.once).1;
          })
      ended (ok v) = after (ok v) refl refl (rw x refl) refl (rw g tt) counted
      ended (err ex) = after (err ex) refl refl refl refl (rw g tt) counted

  resumes-Inv : (fut : ℕ) (s t : System V) → step (resumes fut) s ≡ some t → Inv s → Inv t
  unfolding step resume outcome contains
  resumes-Inv fut s t e (before n d x g w c) =
      let k : contains fut s.woken ≡ false = rw w refl in absurd (ground arith)
  resumes-Inv fut s t e (after r n d o w g c) =
      let h : contains fut s.woken ≡ true = ground arith in
      subst Inv (some-injective _ _ (rw h at e))
        (after r n d o (pop-nil fut s.once.waiters w) (o, g) c)

  cancels-Inv : (fut : ℕ) (s t : System V) → step (cancels fut) s ≡ some t → Inv s → Inv t
  unfolding step cancel_wait outcome
  cancels-Inv fut s t e (before n d x g w c) = subst Inv (some-injective _ _ e) (before n d x g w c)
  cancels-Inv fut s t e (after r n d o w g c) =
      subst Inv (some-injective _ _ e) (after r n d o (pop-nil fut s.once.waiters w) g c)

  step-Inv : (a : Action V) (s t : System V) → step a s ≡ some t → Inv s → Inv t
  step-Inv (enters fut loop) = enters-Inv fut loop
  step-Inv (finishes closed r) = finishes-Inv closed r
  step-Inv (resumes fut) = resumes-Inv fut
  step-Inv (cancels fut) = cancels-Inv fut

  Reachable-Inv : (s : System V) → Transition.Reach step fresh s → Inv s
  Reachable-Inv s r =
      Transition.Reach-invariant step Inv step-Inv (before refl refl refl refl refl refl) r

  -- In every state that tasks can reach, by any interleaving of calls of `do`, of the end of the
  -- leader's call, of resumptions and of cancellations: the function was called once at most; and
  -- either no other task has got an outcome, or the call has ended, nobody is queued, and every other
  -- task got, and every later one gets, the leader's outcome, where a cancellation of the leader is a
  -- RuntimeError for the others.
  pub one_call_for_everyone :
      (s : System V)
      → Transition.Reach step fresh s
      → (s.calls ≤ 1)
        × (((s.ended ≡ none) × (s.outcomes ≡ []))
            ⊎ ((r : Result V) × (s.ended ≡ some r)
                × (s.once.waiters ≡ [])
                × All (λ g. g ≡ shared r) s.outcomes
                × ((fut loop : ℕ) → enter fut loop s.once ≡ (s.once, settled (shared r)))))
  one_call_for_everyone s r = elim (Reachable-Inv s r) [
    | before n d x g w c ↦ (ground arith, inl (n, g))
    | after q n d o w g c ↦ (
      omega arith,
      inr (
        q,
        n,
        w,
        g,
        λ fut loop. enter_settled fut loop s.once d ∙ ap (λ u. (s.once, settled u)) o,
      ),
    )
  ]
