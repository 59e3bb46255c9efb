-- ===== src/CancelScope/Ledger.antt =====
-- What a scope leaves of the task's count of cancellation requests, and of its stack.
use gsyncio.Common.{
  ℕ, ◌+◌, ◌-◌, ◌≡◌, ◌≢◌, refl, sym, ap, subst, ◌∙◌, ◌⊎◌, inl, inr, Bool, true, false, Option, none,
  some, List, [], ◌∷◌, ◌++◌, if◌then◌else◌, leb, arith, Exception, Bool-cases, Option-cases,
}
use gsyncio.CancelScope.{
  CancelScope, World, set_scope, pop, last_is, leave_stack, restore, rollback, inject, fails,
  enter_late, enter_cancelled, register, check_entry, foreign, aenter, cancel, goes_on, Body, ends,
  is_cancelled, raises, conclude, aexit,
}

last_is-end : (id : ℕ) (stack : List ℕ) → last_is id (stack ++ id ∷ []) ≡ true
last_is-end id [] = ground arith
last_is-end id (x ∷ []) = ground arith
last_is-end id (x ∷ y ∷ stack) = last_is-end id (y ∷ stack)

pop-end : (id : ℕ) (stack : List ℕ) → pop id (stack ++ id ∷ []) ≡ stack
unfolding pop
pop-end id [] = ground arith
pop-end id (x ∷ []) = ground arith
pop-end id (x ∷ y ∷ stack) = ap (x ∷◌) (pop-end id (y ∷ stack))

leave_stack-end : (id : ℕ) (stack : List ℕ) → leave_stack id (stack ++ id ∷ []) ≡ stack
unfolding leave_stack
leave_stack-end id stack = rw (last_is-end id stack) (pop-end id stack)

-- What holds between the entry of a scope and its exit, if nothing else counts meanwhile.
record Inside (host id : ℕ) (w v : World) : Type 0 where
  stack : v.stack ≡ w.stack ++ id ∷ []
  hosted : (v.scopes id).task ≡ some host
  counted :
      v.cancelling + (if (v.scopes id).shield then (v.scopes id).saved_cancel_count else 0)
      ≡ w.cancelling + (if (v.scopes id).injected then 1 else 0)
  called : ((v.scopes id).injected ≡ false) ⊎ ((v.scopes id).cancel_called ≡ true)
  converts : (v.scopes id).convert_to_timeout ≡ (w.scopes id).convert_to_timeout
  catches : (v.scopes id).cancelled_caught ≡ (w.scopes id).cancelled_caught

register-Inside :
    (host id : ℕ) (w : World)
    → Inside host id w (register host id w) × ((((register host id w).scopes id).injected) ≡ false)
unfolding register
register-Inside host id w = ground arith

inject-Inside :
    (host id : ℕ) (w v : World)
    → Inside host id w v
    → (v.scopes id).injected ≡ false
    → (v.scopes id).cancel_called ≡ true
    → Inside host id w (inject id v)
unfolding inject
inject-Inside host id w v i fresh called = ground arith

called-Inside :
    (host id : ℕ) (w v : World)
    → Inside host id w v
    → Inside host id w (set_scope id (record (v.scopes id) { cancel_called = true }) v)
called-Inside host id w v i = ground arith

timed-Inside :
    (host id : ℕ) (handle : Option ℕ) (w v : World)
    → Inside host id w v
    → Inside host id w (set_scope id (record (v.scopes id) { deadline_handle = handle }) v)
timed-Inside host id handle w v i = ground arith

check_entry_cases :
    (id : ℕ) (v u : World)
    → check_entry id v ≡ (u, none)
    → (v ≡ u) ⊎ (((v.scopes id).cancel_called ≡ true) × (inject id v ≡ u))
unfolding check_entry enter_cancelled
check_entry_cases id v u e = ground arith

enter_late_cases :
    (id : ℕ) (v u : World)
    → enter_late id v ≡ (u, none)
    → inject id (set_scope id (record (v.scopes id) { cancel_called = true }) v) ≡ u
unfolding enter_late
enter_late_cases id v u e = ground arith

check_entry-Inside :
    (host id : ℕ) (w v u : World)
    → Inside host id w v
    → (v.scopes id).injected ≡ false
    → check_entry id v ≡ (u, none)
    → Inside host id w u
check_entry-Inside host id w v u i fresh e = elim (check_entry_cases id v u e) [
  | inl same ↦ subst (Inside host id w) same i
  | inr (called, injected) ↦
      subst (Inside host id w) injected (inject-Inside host id w v i fresh called)
]

enter_late-Inside :
    (host id : ℕ) (w v u : World)
    → Inside host id w v
    → (v.scopes id).injected ≡ false
    → enter_late id v ≡ (u, none)
    → Inside host id w u
enter_late-Inside host id w v u i fresh e =
    let v' = set_scope id (record (v.scopes id) { cancel_called = true }) v in
    subst (Inside host id w) (enter_late_cases id v u e)
      (inject-Inside host id w v' (called-Inside host id w v i) (ground arith) (ground arith))

aenter_cases :
    (host now id : ℕ) (w u : World)
    → aenter host now id w ≡ (u, none)
    → (check_entry id (register host id w) ≡ (u, none))
      ⊎ ((enter_late id (register host id w) ≡ (u, none))
          ⊎ ((d : ℕ) × (check_entry id (
                  set_scope id
                    (record ((register host id w).scopes id) { deadline_handle = some d })
                    (register host id w))
                ≡ (u, none))))
unfolding aenter
aenter_cases host now id w u e = elim (Bool-cases (foreign (w.scopes id).task host)) [
  | inl other ↦ absurd (ground arith)
  | inr own ↦ elim (Option-cases (w.scopes id).deadline) [
    | inl unbounded ↦ inl (ground arith)
    | inr (d, bounded) ↦ elim (Bool-cases (leb d now)) [
      | inl late ↦ inr (inl (ground arith))
      | inr early ↦ inr (inr (d, ground arith))
    ]
  ]
]

aenter-Inside :
    (host now id : ℕ) (w u : World) → aenter host now id w ≡ (u, none) → Inside host id w u
aenter-Inside host now id w u e =
    let (i, fresh) = register-Inside host id w in
    let v = register host id w in
    elim (aenter_cases host now id w u e) [
      | inl plain ↦ check_entry-Inside host id w v u i fresh plain
      | inr (inl late) ↦ enter_late-Inside host id w v u i fresh late
      | inr (inr (d, timed)) ↦
          check_entry-Inside host id w
            (set_scope id (record (v.scopes id) { deadline_handle = some d }) v) u
            (timed-Inside host id (some d) w v i) (ground arith) timed
    ]

cancel_again : (id : ℕ) (v : World) → (v.scopes id).cancel_called ≡ true → v ≡ cancel id v
unfolding cancel
cancel_again id v called = ground arith

cancel_first :
    (id host : ℕ) (v : World)
    → (v.scopes id).cancel_called ≡ false
    → (v.scopes id).task ≡ some host
    → inject id (set_scope id (record (v.scopes id) { cancel_called = true }) v) ≡ cancel id v
unfolding cancel
cancel_first id host v fresh hosted = ground arith

inject_called :
    (id : ℕ) (v : World) → ((inject id v).scopes id).cancel_called ≡ (v.scopes id).cancel_called
unfolding inject
inject_called id v = ground arith

cancel-Inside :
    (host id : ℕ) (w v : World)
    → Inside host id w v
    → Inside host id w (cancel id v) × (((cancel id v).scopes id).cancel_called ≡ true)
cancel-Inside host id w v i = elim (Bool-cases (v.scopes id).cancel_called) [
  | inl called ↦
      let same = cancel_again id v called in
      (subst (Inside host id w) same i, subst (λ u. (u.scopes id).cancel_called ≡ true) same called)
  | inr fresh ↦
      let v' = set_scope id (record (v.scopes id) { cancel_called = true }) v in
      let same = cancel_first id host v fresh i.hosted in
      let called : (v'.scopes id).cancel_called ≡ true = ground arith in
      (
        subst (Inside host id w) same (
            inject-Inside host id w v' (called-Inside host id w v i) (ground (arith, i.called))
              called),
        subst (λ u. (u.scopes id).cancel_called ≡ true) same (inject_called id v' ∙ called),
      )
]

restore_count :
    (id : ℕ) (v : World)
    → (restore id v).cancelling
      ≡ v.cancelling + (if (v.scopes id).shield then (v.scopes id).saved_cancel_count else 0)
unfolding restore
restore_count id v = ground arith

-- The count behind the exit of a scope.
aexit_count :
    (id : ℕ) (body : Body) (v : World)
    → (aexit id body v).0.cancelling
      ≡ (conclude (v.scopes id).injected body (v.scopes id) (
          restore id (
            set_scope id
              (record (v.scopes id) { injected = false; task = none; deadline_handle = none })
              v))).0.cancelling
unfolding aexit
aexit_count id body v = refl

aexit_stack :
    (id : ℕ) (body : Body) (v : World) → (aexit id body v).0.stack ≡ leave_stack id v.stack
unfolding aexit
aexit_stack id body v = refl

left_count :
    (host id : ℕ) (w v : World)
    → Inside host id w v
    → (restore id (
        set_scope id
          (record (v.scopes id) { injected = false; task = none; deadline_handle = none })
          v)).cancelling
      ≡ w.cancelling + (if (v.scopes id).injected then 1 else 0)
left_count host id w v i =
    let v' =
      set_scope id (record (v.scopes id) { injected = false; task = none; deadline_handle = none })
        v in
    ground (arith, restore_count id v', i.counted)

left_stack :
    (host id : ℕ) (body : Body) (w v : World)
    → Inside host id w v
    → (aexit id body v).0.stack ≡ w.stack
left_stack host id body w v i =
    aexit_stack id body v ∙ (ap (leave_stack id) i.stack ∙ leave_stack-end id w.stack)

aexit_exit :
    (id : ℕ) (body : Body) (v : World)
    → (aexit id body v).1
      ≡ (conclude (v.scopes id).injected body (v.scopes id) (
          restore id (
            set_scope id
              (record (v.scopes id) { injected = false; task = none; deadline_handle = none })
              v))).1
unfolding aexit
aexit_exit id body v = refl

-- What is taken off the count, and how the exit ends.
conclude_cancelled :
    (injected : Bool) (s : CancelScope) (v : World)
    → s.cancel_called ≡ true
    → (s.convert_to_timeout ≡ true) ⊎ (s.cancelled_caught ≡ true)
    → ((conclude injected is_cancelled s v).0.cancelling
        ≡ v.cancelling - (if injected then 1 else 0))
      × ((conclude injected is_cancelled s v).1 ≢ goes_on)
unfolding conclude
conclude_cancelled injected s v called flags = ground arith

conclude_other :
    (injected : Bool) (body : Body) (s : CancelScope) (v : World)
    → body ≢ is_cancelled
    → (injected ≡ false) ⊎ (s.cancel_called ≡ true)
    → (conclude injected body s v).0.cancelling ≡ v.cancelling - (if injected then 1 else 0)
unfolding conclude
conclude_other injected ends s v other called = ground arith
conclude_other injected raises s v other called = ground arith
conclude_other injected is_cancelled s v other called = absurd (other refl)

other_count :
    (host id : ℕ) (body : Body) (w v : World)
    → Inside host id w v
    → body ≢ is_cancelled
    → (aexit id body v).0.cancelling ≡ w.cancelling
other_count host id body w v i other =
    aexit_count id body v
    ∙ (conclude_other _ body _ _ other i.called ∙ omega (arith, left_count host id w v i))

-- A scope that catches cancellations or makes timeouts of them is entered and cancelled, by its
-- deadline or a call, and its body ends with the CancelledError: the count of cancellation requests
-- and the stack are as before the entry, and the error does not go on.
pub cancelled_scope_balances :
    (host now id : ℕ) (w v : World)
    → aenter host now id w ≡ (v, none)
    → ((w.scopes id).convert_to_timeout ≡ true) ⊎ ((w.scopes id).cancelled_caught ≡ true)
    → ((aexit id is_cancelled (cancel id v)).0.cancelling ≡ w.cancelling)
      × ((aexit id is_cancelled (cancel id v)).0.stack ≡ w.stack)
      × ((aexit id is_cancelled (cancel id v)).1 ≢ goes_on)
cancelled_scope_balances host now id w v e flags =
    let (i, called) = cancel-Inside host id w v (aenter-Inside host now id w v e) in
    let flags' : (((cancel id v).scopes id).convert_to_timeout ≡ true)
        ⊎ (((cancel id v).scopes id).cancelled_caught ≡ true) =
      ground (arith, i.converts, i.catches) in
    let done =
      conclude_cancelled ((cancel id v).scopes id).injected ((cancel id v).scopes id) _ called
        flags' in
    (
      aexit_count id is_cancelled (cancel id v)
          ∙ (done.0 ∙ omega (arith, left_count host id w (cancel id v) i)),
      left_stack host id is_cancelled w (cancel id v) i,
      λ goes. done.1 (sym (aexit_exit id is_cancelled (cancel id v)) ∙ goes),
    )

-- A scope is entered, cancelled or not, and its body ends otherwise than with a CancelledError: the
-- count and the stack are as before the entry.
pub finished_scope_balances :
    (host now id : ℕ) (body : Body) (w v : World)
    → aenter host now id w ≡ (v, none)
    → body ≢ is_cancelled
    → ((aexit id body v).0.cancelling ≡ w.cancelling)
      × ((aexit id body v).0.stack ≡ w.stack)
      × ((aexit id body (cancel id v)).0.cancelling ≡ w.cancelling)
      × ((aexit id body (cancel id v)).0.stack ≡ w.stack)
finished_scope_balances host now id body w v e other =
    let i = aenter-Inside host now id w v e in
    let (j, called) = cancel-Inside host id w v i in
    (
      other_count host id body w v i other,
      left_stack host id body w v i,
      other_count host id body w (cancel id v) j other,
      left_stack host id body w (cancel id v) j,
    )

requested-Inside :
    (host id k : ℕ) (w v : World)
    → Inside host id w v
    → Inside host id
        (record w { cancelling = w.cancelling + k })
        (record v { cancelling = v.cancelling + k })
requested-Inside host id k w v i = ground arith

rollback_stack :
    (e : Exception) (id : ℕ) (v : World) → (fails e id v).0.stack ≡ leave_stack id v.stack
unfolding rollback restore
rollback_stack e id v = ground arith

register_stack : (host id : ℕ) (w : World) → (register host id w).stack ≡ w.stack ++ id ∷ []
unfolding register
register_stack host id w = ground arith
