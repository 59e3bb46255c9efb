-- ===== src/AsyncContext/System.antt =====
-- The contexts of a program, on any threads: every action is one critical section, on contexts that
-- exist, in any order. A call of `cancel` is several of them: it begins on the context, detaches it,
-- calls `cancel` on the children that it has taken, and cancels the members.
use gsyncio.Common.{
  ℕ, false, Option, none, some, List, [], ◌∷◌, ◌++◌, if◌then◌else◌, ltb, contains, remove,
}
use gsyncio.AsyncContext.{World, take, detach, cancel_members, create, submit, discard_future}

-- The contexts; those whose `cancel` was called and has not begun; the members that were taken and
-- are not cancelled yet.
pub record System : Type 0 where
  pub world : World
  pub under_way : List ℕ
  pub taken : List ℕ

abbrev pub fresh : System
fresh = record {
  world = record {
    contexts = λ id. record { parent = none; cancelled = false; children = []; futures = [] };
    next = 0;
    cancelled_scopes = [];
    cancelled_futures = [];
    done = λ fut. false;
  };
  under_way = [];
  taken = [];
}

pub data Action : Type 0 where
  creates : Action
  creates_child cancels begins detaches : (id : ℕ) → Action
  cancels_member : (fut : ℕ) → Action
  submits discards : (id fut : ℕ) → Action

-- `cancel` begins: it returns at once, or takes the children and the members.
unfoldable pub begin : ℕ → System → System
begin id s =
    if (s.world.contexts id).cancelled
    then record s { under_way = remove id s.under_way }
    else record {
      world = take id s.world;
      under_way = (s.world.contexts id).children ++ remove id s.under_way;
      taken = s.taken ++ (s.world.contexts id).futures;
    }

-- A cancelled context may be detached at any time.
unfoldable pub step : Action → System → Option System
step creates s = some (record s { world = (create none s.world).0 })
step (creates_child parent) s =
    let created = create (some parent) s.world in
    if ltb parent s.world.next
    then some (record s { world = created.0; under_way = created.1 ++ s.under_way })
    else none
step (cancels id) s =
    if ltb id s.world.next then some (record s { under_way = id ∷ s.under_way }) else none
step (begins id) s = if contains id s.under_way then some (begin id s) else none
step (detaches id) s =
    if (s.world.contexts id).cancelled
    then some (record s { world = detach (s.world.contexts id).parent id s.world })
    else none
step (cancels_member fut) s =
    if contains fut s.taken
    then some (record s { world = cancel_members (fut ∷ []) s.world; taken = remove fut s.taken })
    else none
step (submits id fut) s =
    if ltb id s.world.next then some (record s { world = submit id fut s.world }) else none
step (discards id fut) s =
    if ltb id s.world.next then some (record s { world = discard_future id fut s.world }) else none
