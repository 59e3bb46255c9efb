-- ===== src/CancelScope.antt =====
-- src/multiloop/_cancel.py, CancelScope: the scopes of one task, which runs in its own loop. A time
-- is a number, and no deadline is none. asyncio's count of cancellation requests is a number, too:
-- `cancel` of the running task adds one, and `uncancel` takes one if there is any.
pub mod Deadline
pub mod Ledger
mod Examples
use gsyncio.Common.{
  ℕ, zero, suc, ◌+◌, ◌-◌, Bool, true, false, not, ◌&&◌, ◌||◌, Option, none, some, List, [], ◌∷◌,
  ◌++◌, if◌then◌else◌, ltb, leb, ◌==◌, retain, is_some_eq, update, Exception, cancelled_error,
  timeout_error, runtime_error, min,
}

pub record CancelScope : Type 0 where
  pub cancel_called : Bool
  pub deadline : Option ℕ
  pub shield : Bool
  pub cancelled_caught : Bool
  pub convert_to_timeout : Bool
  pub task : Option ℕ
  pub deadline_handle : Option ℕ
  pub saved_cancel_count : ℕ
  pub injected : Bool

-- `__init__`, and the scopes of the helpers `fail_at` and `move_on_at`.
abbrev pub init : Option ℕ → (shield : Bool) → CancelScope
init deadline shield = record {
  cancel_called = false;
  deadline = deadline;
  shield = shield;
  cancelled_caught = false;
  convert_to_timeout = false;
  task = none;
  deadline_handle = none;
  saved_cancel_count = 0;
  injected = false;
}

abbrev pub fail_at : ℕ → CancelScope
fail_at deadline = record (init (some deadline) false) { convert_to_timeout = true }

abbrev pub move_on_at : ℕ → CancelScope
move_on_at deadline = record (init (some deadline) false) { cancelled_caught = true }

-- The scopes by their identities, the stack of the task, outermost first, and the task's count of
-- cancellation requests.
pub record World : Type 0 where
  pub scopes : ℕ → CancelScope
  pub stack : List ℕ
  pub cancelling : ℕ

abbrev pub set_scope : ℕ → CancelScope → World → World
set_scope id s w = record w { scopes = update w.scopes id s }

-- The scopes around the outermost entry of a scope, innermost first.
unfoldable pub enclosing : (around : List ℕ) (id : ℕ) → List ℕ → Option (List ℕ)
enclosing around id [] = none
enclosing around id (x ∷ stack) =
    let further = enclosing (x ∷ around) id stack in if x == id then some around else further

-- The loop of `_effectively_cancelled`.
unfoldable pub any_cancelled : (ℕ → CancelScope) → List ℕ → Bool
any_cancelled scopes [] = false
any_cancelled scopes (x ∷ around) =
    let further = any_cancelled scopes around in
    if (scopes x).cancel_called then true else (if (scopes x).shield then false else further)

unfoldable pub effectively_cancelled : ℕ → World → Bool
effectively_cancelled id w =
    if (w.scopes id).cancel_called
    then true
    else (if (w.scopes id).shield then false else elim (enclosing [] id w.stack) [
      | none ↦ false
      | some around ↦ any_cancelled w.scopes around
    ])

-- `stack[:-1]` if the scope is the last one, else the stack without it.
unfoldable pub pop : ℕ → List ℕ → List ℕ
pop id [] = []
pop id (x ∷ []) = if x == id then [] else x ∷ []
pop id (x ∷ y ∷ stack) = x ∷ pop id (y ∷ stack)

abbrev pub last_is : ℕ → List ℕ → Bool
last_is id [] = false
last_is id (x ∷ []) = x == id
last_is id (x ∷ y ∷ stack) = last_is id (y ∷ stack)

unfoldable pub leave_stack : ℕ → List ℕ → List ℕ
leave_stack id stack = if last_is id stack then pop id stack else retain id stack

-- `_restore_saved_cancel_count`
unfoldable pub restore : ℕ → World → World
restore id w =
    let s = w.scopes id in
    if s.shield && ltb 0 s.saved_cancel_count
    then record (set_scope id (record s { saved_cancel_count = 0 }) w) {
      cancelling = w.cancelling + s.saved_cancel_count;
    }
    else w

-- `_rollback_aenter`
unfoldable pub rollback : ℕ → World → World
rollback id w =
    record (set_scope id (record (w.scopes id) { deadline_handle = none; task = none }) w) {
      stack = leave_stack id w.stack;
    }

-- The host is cancelled by the scope itself.
unfoldable pub inject : ℕ → World → World
inject id w = record (set_scope id (record (w.scopes id) { injected = true }) w) {
  cancelling = w.cancelling + 1;
}

-- How `__aenter__` ends: none if it returns.
abbrev pub fails : Exception → ℕ → World → World × Option Exception
fails e id w = (rollback id (restore id w), some e)

-- The deadline has passed before the entry.
unfoldable pub enter_late : ℕ → World → World × Option Exception
enter_late id w =
    let s = w.scopes id in
    let w' = set_scope id (record s { cancel_called = true }) w in
    if s.convert_to_timeout
    then fails timeout_error id w'
    else (if s.cancelled_caught then (inject id w', none) else fails cancelled_error id w')

-- The scope or one around it is cancelled already.
unfoldable pub enter_cancelled : ℕ → World → World × Option Exception
enter_cancelled id w =
    let s = w.scopes id in
    if s.cancel_called && s.convert_to_timeout
    then fails timeout_error id w
    else (if s.cancel_called && s.cancelled_caught
        then (inject id w, none)
        else fails cancelled_error id (if s.shield then w else record w { cancelling = 0 }))

-- The registration of the host, and the shield.
unfoldable pub register : (host id : ℕ) → World → World
register host id w =
    let s = w.scopes id in
    let s' = record s { task = some host; injected = false } in
    if s.shield
    then record w {
      scopes = update w.scopes id (record s' { saved_cancel_count = w.cancelling });
      stack = w.stack ++ id ∷ [];
      cancelling = 0;
    }
    else record w { scopes = update w.scopes id s'; stack = w.stack ++ id ∷ [] }

unfoldable pub check_entry : ℕ → World → World × Option Exception
check_entry id w = if effectively_cancelled id w then enter_cancelled id w else (w, none)

abbrev pub foreign : Option ℕ → ℕ → Bool
foreign none host = false
foreign (some task) host = not (task == host)

-- `__aenter__`
unfoldable pub aenter : (host now id : ℕ) → World → World × Option Exception
aenter host now id w =
    let w' = register host id w in
    if foreign (w.scopes id).task host
    then (w, some runtime_error)
    else elim (w.scopes id).deadline [
      | none ↦ check_entry id w'
      | some deadline ↦
          if leb deadline now
          then enter_late id w'
          else check_entry id
              (set_scope id (record (w'.scopes id) { deadline_handle = some deadline }) w')
    ]

-- `cancel`, from the loop of the task; from another thread the second half runs later.
unfoldable pub cancel : ℕ → World → World
cancel id w =
    let s = w.scopes id in
    let w' = set_scope id (record s { cancel_called = true }) w in
    if s.cancel_called then w else elim s.task [ none ↦ w' | some host ↦ inject id w' ]

-- How `__aexit__` ends: the exception of the body is swallowed, goes on, or becomes a TimeoutError.
pub data Exit : Type 0 where
  swallows goes_on times_out : Exit

-- What the body ended with: nothing, a CancelledError, or another exception.
pub data Body : Type 0 where
  ends is_cancelled raises : Body

abbrev pub uncancel : Bool → World → World
uncancel injected w = if injected then record w { cancelling = w.cancelling - 1 } else w

-- The tests of `__aexit__`.
unfoldable pub conclude : (injected : Bool) (body : Body) (s : CancelScope) → World → World × Exit
conclude injected is_cancelled s w =
    if s.convert_to_timeout && s.cancel_called
    then (uncancel injected w, times_out)
    else (if s.cancelled_caught && s.cancel_called
        then (uncancel injected w, swallows)
        else (w, goes_on))
conclude injected ends s w = (uncancel (s.cancel_called && injected) w, goes_on)
conclude injected raises s w = (uncancel (s.cancel_called && injected) w, goes_on)

unfoldable pub aexit : (id : ℕ) → Body → World → World × Exit
aexit id body w =
    let s = w.scopes id in
    let s' = record s { injected = false; task = none; deadline_handle = none } in
    let w' = restore id (set_scope id s' w) in
    let (w'', exit) = conclude s.injected body s w' in
    (record w'' { stack = leave_stack id w.stack }, exit)

-- `checkpoint`: true if it raises a CancelledError.
abbrev pub innermost : List ℕ → Option ℕ
innermost [] = none
innermost (x ∷ []) = some x
innermost (x ∷ y ∷ stack) = innermost (y ∷ stack)

unfoldable pub checkpoint : World → World × Bool
checkpoint w = elim (innermost w.stack) [
  | none ↦ (w, false)
  | some id ↦ if effectively_cancelled id w then (record w { cancelling = 0 }, true) else (w, false)
]

-- `current_effective_deadline`, on the stack from its top.
abbrev pub earlier : Option ℕ → Option ℕ → Option ℕ
earlier none b = b
earlier (some a) none = some a
earlier (some a) (some b) = some (min a b)

unfoldable pub tightest : (ℕ → CancelScope) → (min_deadline : Option ℕ) → List ℕ → Option ℕ
tightest scopes min_deadline [] = min_deadline
tightest scopes min_deadline (x ∷ around) =
    let found = earlier min_deadline (scopes x).deadline in
    let further = tightest scopes found around in if (scopes x).shield then found else further

unfoldable pub reversed : List ℕ → List ℕ
reversed [] = []
reversed (x ∷ xs) = reversed xs ++ x ∷ []

unfoldable pub current_effective_deadline : World → Option ℕ
current_effective_deadline w = tightest w.scopes none (reversed w.stack)

-- The setters of `shield` and `deadline`, called in the loop of the task.
abbrev pub same_flag : Bool → Bool → Bool
same_flag true b = b
same_flag false b = not b

unfoldable pub set_shield : ℕ → Bool → World → World
set_shield id value w =
    let s = w.scopes id in
    let s' = record s { shield = value } in
    if same_flag s.shield value then w else elim s.task [
      | none ↦ set_scope id s' w
      | some host ↦
          if value
          then record w {
            scopes =
                update w.scopes id
                  (record s' { saved_cancel_count = s.saved_cancel_count + w.cancelling });
            cancelling = 0;
          }
          else record w {
            scopes = update w.scopes id (record s' { saved_cancel_count = 0 });
            cancelling = w.cancelling + s.saved_cancel_count;
          }
    ]

unfoldable pub set_deadline : (now id : ℕ) → Option ℕ → World → World
set_deadline now id value w =
    let s = w.scopes id in
    let s' = record s { deadline = value; deadline_handle = none } in
    let w' = set_scope id s' w in
    elim s.task [
      | none ↦ w'
      | some host ↦ elim value [
        | none ↦ w'
        | some d ↦
            if s.cancel_called
            then w'
            else (if leb d now
                then cancel id w'
                else set_scope id (record s' { deadline_handle = some d }) w')
      ]
    ]

-- `_deadline_callback`
unfoldable pub deadline_callback : ℕ → World → World
deadline_callback id w =
    cancel id (set_scope id (record (w.scopes id) { deadline_handle = none }) w)
