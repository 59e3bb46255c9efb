-- ===== src/AsyncContext.antt =====
-- src/multiloop/context.py, AsyncContext: a tree of contexts. A context is known by a number, in the
-- order of creation; a future and its scope are known by the future's number.
pub mod System
pub mod Invariant
pub mod Cascade
pub mod Attach
pub mod Tree
mod Examples
use gsyncio.Common.{
  ℕ, zero, suc, ◌+◌, Bool, true, false, not, Option, none, some, List, [], ◌∷◌, ◌++◌, if◌then◌else◌,
  ◌==◌, contains, retain, update,
}

pub record Context : Type 0 where
  pub parent : Option ℕ
  pub cancelled : Bool
  pub children : List ℕ
  pub futures : List ℕ

-- The contexts that exist are those below `next`; the scopes and futures that were cancelled, the
-- oldest first; and the futures that are done.
pub record World : Type 0 where
  pub contexts : ℕ → Context
  pub next : ℕ
  pub cancelled_scopes : List ℕ
  pub cancelled_futures : List ℕ
  pub done : ℕ → Bool

abbrev pub set_context : ℕ → Context → World → World
set_context id c w = record w { contexts = update w.contexts id c }

-- `self._parent._remove_child(self)`
unfoldable pub detach : Option ℕ → ℕ → World → World
detach none id w = w
detach (some p) id w =
    set_context p (record (w.contexts p) { children = retain id (w.contexts p).children }) w

-- The first critical section of `cancel`, for a context that is not cancelled: it is marked, and its
-- children and members are taken.
unfoldable pub take : ℕ → World → World
take id w =
    set_context id (record (w.contexts id) { cancelled = true; children = []; futures = [] }) w

-- Behind it, the context is detached.
unfoldable pub mark : ℕ → World → World
mark id w = detach (w.contexts id).parent id (take id w)

-- The futures that are not done.
unfoldable pub pending : (ℕ → Bool) → List ℕ → List ℕ
pending done [] = []
pending done (fut ∷ futures) =
    let rest = pending done futures in if done fut then rest else fut ∷ rest

-- Its last part: the scopes and the futures.
unfoldable pub cancel_members : List ℕ → World → World
cancel_members futures w = record w {
  cancelled_scopes = w.cancelled_scopes ++ futures;
  cancelled_futures = w.cancelled_futures ++ pending w.done futures;
}

-- A loop over the children; a set has no order, so any list of them will do.
unfoldable pub each : (ℕ → World → World) → List ℕ → World → World
each act [] w = w
each act (child ∷ children) w = each act children (act child w)

-- A call of `cancel` that nothing disturbs; the fuel bounds the depth of the tree.
unfoldable pub cancel : (fuel : ℕ) → ℕ → World → World
cancel zero id w = w
cancel (suc fuel) id w =
    let w' = each (cancel fuel) (w.contexts id).children (mark id w) in
    if (w.contexts id).cancelled then w else cancel_members (w.contexts id).futures w'

-- `_add_child`, with the contexts whose `cancel` it calls behind its critical section.
unfoldable pub add_child : (parent child : ℕ) → World → World × List ℕ
add_child parent child w = if (w.contexts parent).cancelled then (w, child ∷ []) else (
  set_context parent
      (record (w.contexts parent) { children = (w.contexts parent).children ++ child ∷ [] }) w,
  [],
)

-- The attributes of a new context.
unfoldable pub new_context : Option ℕ → World → World
new_context parent w = record w {
  contexts =
      update w.contexts w.next
        (record { parent = parent; cancelled = false; children = []; futures = [] });
  next = w.next + 1;
}

-- `__init__`
unfoldable pub create : Option ℕ → World → World × List ℕ
create none w = (new_context none w, [])
create (some p) w = add_child p w.next (new_context (some p) w)

-- `submit` behind the call of the pool: a context that was cancelled since cancels the task. Before
-- it, `submit` only looks whether the context is cancelled.
unfoldable pub submit : (id fut : ℕ) → World → World
submit id fut w =
    if (w.contexts id).cancelled
    then cancel_members (fut ∷ []) w
    else set_context id (record (w.contexts id) { futures = (w.contexts id).futures ++ fut ∷ [] }) w

-- `_discard_future`
unfoldable pub discard_future : (id fut : ℕ) → World → World
discard_future id fut w =
    record (set_context id (record (w.contexts id) { futures = retain fut (w.contexts id).futures })
      w) { done = update w.done fut true }
