-- ===== src/AsyncContext/Tree.antt =====
-- In every state that is reached, a context whose parent is cancelled is cancelled, or will be.
use gsyncio.Common.{
  ℕ, ◌≡◌, refl, subst, inl, inr, true, false, some, List, [], ◌∷◌, ◌++◌, ltb, arith, contains,
  remove, Bool-cases,
}
use mathlib.Core.Option.{some-injective}
use gsyncio.Common.Transition.{Reach, Reach-invariant}
use gsyncio.AsyncContext.{World, take, cancel_members, create, submit, discard_future, cancel}
use gsyncio.AsyncContext.System.{
  System, fresh, Action, creates, creates_child, cancels, begins, detaches, cancels_member, submits,
  discards, begin, step,
}
use gsyncio.AsyncContext.Invariant.{
  Inv, Thinned, Thinned-Inv, detach-Thinned, members-Thinned, take-Inv, gone-Inv, wider-Inv,
  root-Inv,
}
use gsyncio.AsyncContext.Cascade.{cancel-Done}
use gsyncio.AsyncContext.Attach.{create-Inv}

contains-remove :
    (a b : ℕ) (xs : List ℕ) → contains a xs ≡ true → contains a (b ∷ remove b xs) ≡ true
unfolding contains remove
contains-remove a b [] h = absurd (ground arith)
contains-remove a b (x ∷ xs) h = ground (arith, contains-remove a b xs)

submit-Thinned : (id fut : ℕ) (w : World) → Thinned w (submit id fut w)
unfolding submit cancel_members
submit-Thinned id fut w = record {
  parent = λ c. ground arith;
  cancelled = λ c. ground arith;
  keeps = λ c q on h. ground arith;
  among = λ c q h. ground arith;
  next = ground arith;
}

discard-Thinned : (id fut : ℕ) (w : World) → Thinned w (discard_future id fut w)
unfolding discard_future
discard-Thinned id fut w = record {
  parent = λ c. ground arith;
  cancelled = λ c. ground arith;
  keeps = λ c q on h. ground arith;
  among = λ c q h. ground arith;
  next = refl;
}

abbrev Safe : System → Type 0
Safe s = Inv s.under_way s.world

begin_gone :
    (id : ℕ) (s : System)
    → (s.world.contexts id).cancelled ≡ true
    → record s { under_way = remove id s.under_way } ≡ begin id s
unfolding begin
begin_gone id s gone = ground arith

begin_on :
    (id : ℕ) (s : System)
    → (s.world.contexts id).cancelled ≡ false
    → record {
      world = take id s.world;
      under_way = (s.world.contexts id).children ++ remove id s.under_way;
      taken = s.taken ++ (s.world.contexts id).futures;
    }
      ≡ begin id s
unfolding begin
begin_on id s on = ground arith

begin-Safe : (id : ℕ) (s : System) → Safe s → Safe (begin id s)
begin-Safe id s i =
    let rest = remove id s.under_way in
    let head =
      wider-Inv s.under_way (id ∷ rest) s.world (λ c h. contains-remove c id s.under_way h) i in
    elim (Bool-cases (s.world.contexts id).cancelled) [
      | inl gone ↦ subst Safe (begin_gone id s gone) (gone-Inv id rest s.world gone head)
      | inr on ↦ subst Safe (begin_on id s on) (take-Inv id rest s.world head)
    ]

step-Safe : (a : Action) (s t : System) → step a s ≡ some t → Safe s → Safe t
unfolding step contains create
step-Safe creates s t e i = subst Safe (some-injective _ _ e) (root-Inv s.under_way s.world i)
step-Safe (creates_child p) s t e i = elim (Bool-cases (ltb p s.world.next)) [
  | inl lt ↦
      subst Safe (some-injective _ _ (rw lt at e))
        (create-Inv p s.under_way s.world (ground arith) i)
  | inr absent ↦ absurd (ground arith)
]
step-Safe (cancels id) s t e i = elim (Bool-cases (ltb id s.world.next)) [
  | inl lt ↦
      subst Safe (some-injective _ _ (rw lt at e))
        (wider-Inv s.under_way (id ∷ s.under_way) s.world (λ c h. ground arith) i)
  | inr absent ↦ absurd (ground arith)
]
step-Safe (begins id) s t e i = elim (Bool-cases (contains id s.under_way)) [
  | inl here ↦ subst Safe (some-injective _ _ (rw here at e)) (begin-Safe id s i)
  | inr absent ↦ absurd (ground arith)
]
step-Safe (detaches id) s t e i = elim (Bool-cases (s.world.contexts id).cancelled) [
  | inl gone ↦ subst Safe (some-injective _ _ (simp gone at e)) (
      Thinned-Inv s.under_way s.world _
        (detach-Thinned (s.world.contexts id).parent id s.world gone) i)
  | inr on ↦ absurd (ground arith)
]
step-Safe (cancels_member fut) s t e i = elim (Bool-cases (contains fut s.taken)) [
  | inl here ↦
      subst Safe (some-injective _ _ (rw here at e))
        (Thinned-Inv s.under_way s.world _ (members-Thinned (fut ∷ []) s.world) i)
  | inr absent ↦ absurd (ground arith)
]
step-Safe (submits id fut) s t e i = elim (Bool-cases (ltb id s.world.next)) [
  | inl lt ↦
      subst Safe (some-injective _ _ (rw lt at e))
        (Thinned-Inv s.under_way s.world _ (submit-Thinned id fut s.world) i)
  | inr absent ↦ absurd (ground arith)
]
step-Safe (discards id fut) s t e i = elim (Bool-cases (ltb id s.world.next)) [
  | inl lt ↦
      subst Safe (some-injective _ _ (rw lt at e))
        (Thinned-Inv s.under_way s.world _ (discard-Thinned id fut s.world) i)
  | inr absent ↦ absurd (ground arith)
]

fresh-Safe : Safe fresh
unfolding contains
fresh-Safe = record {
  live = λ c p par on. absurd (ground arith);
  exists = λ c p par. absurd (ground arith);
  older = λ c p h. absurd (ground arith);
}

-- A call of `cancel` that nothing disturbs leaves no call under way: in a state without any, it takes
-- as much fuel as there are contexts, and afterwards every context whose parent is cancelled is
-- cancelled.
undisturbed_cancel :
    (s : System) (id c p : ℕ)
    → Reach step fresh s
    → s.under_way ≡ []
    → let w = cancel s.world.next id s.world in
      (w.contexts c).parent ≡ some p
      → (w.contexts p).cancelled ≡ true
      → (w.contexts c).cancelled ≡ true
unfolding contains
undisturbed_cancel s id c p r quiet par gone =
    let safe =
      subst (λ u. Inv u s.world) quiet (Reach-invariant step Safe step-Safe fresh-Safe r) in
    let alone = wider-Inv [] (id ∷ []) s.world (λ d h. absurd (ground arith)) safe in
    let i = (cancel-Done s.world.next id [] s.world (omega arith) alone).inv in
    let w = cancel s.world.next id s.world in
    elim (Bool-cases (w.contexts c).cancelled) [
      | inl h ↦ h
      | inr on ↦ elim (i.live c p par on) [
        | inl h ↦ absurd (ground arith)
        | inr h ↦ absurd (ground arith)
      ]
    ]
