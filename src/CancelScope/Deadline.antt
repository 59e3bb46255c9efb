-- ===== src/CancelScope/Deadline.antt =====
-- Which scopes cancel a task, and the deadline that it sees.
use gsyncio.Common.{
  ℕ, ◌≡◌, refl, sym, ap, ◌∙◌, ◌⊎◌, inl, inr, Bool, true, false, Option, none, some, List, [], ◌∷◌,
  ◌++◌, leb, arith, All, contains, ◌↔◌, append_assoc, Bool-cases, append-nil,
}
use gsyncio.CancelScope.{
  CancelScope, World, enclosing, any_cancelled, effectively_cancelled, innermost, checkpoint,
  earlier, tightest, reversed, current_effective_deadline,
}

-- A scope does not end later than another.
abbrev pub no_later : Option ℕ → Option ℕ → Bool
no_later a none = true
no_later none (some b) = false
no_later (some a) (some b) = leb a b

earlier_left : (a b : Option ℕ) → no_later (earlier a b) a ≡ true
earlier_left none b = refl
earlier_left (some a) none = ground arith
earlier_left (some a) (some b) = ground arith

earlier_right : (a b : Option ℕ) → no_later (earlier a b) b ≡ true
earlier_right none none = refl
earlier_right none (some b) = ground arith
earlier_right (some a) none = refl
earlier_right (some a) (some b) = ground arith

no_later_trans :
    (a b c : Option ℕ) → no_later a b ≡ true → no_later b c ≡ true → no_later a c ≡ true
no_later_trans a b none h k = refl
no_later_trans none none (some c) h k = k
no_later_trans none (some b) (some c) h k = absurd (ground arith)
no_later_trans (some a) none (some c) h k = absurd (ground arith)
no_later_trans (some a) (some b) (some c) h k = ground arith

-- No scope of a list is shielded.
abbrev pub Open : (ℕ → CancelScope) → List ℕ → Type 0
Open scopes ids = All (λ x. (scopes x).shield ≡ false) ids

tightest_min :
    (scopes : ℕ → CancelScope) (m : Option ℕ) (around : List ℕ)
    → no_later (tightest scopes m around) m ≡ true
unfolding tightest
tightest_min scopes none [] = refl
tightest_min scopes (some a) [] = ground arith
tightest_min scopes m (x ∷ around) =
    let found = earlier m (scopes x).deadline in
    let rest =
      no_later_trans (tightest scopes found around) found m (tightest_min scopes found around)
        (earlier_left m (scopes x).deadline) in
    elim (Bool-cases (scopes x).shield) [
      | inl shut ↦ rw shut (earlier_left m (scopes x).deadline)
      | inr opened ↦ rw opened rest
    ]

tightest_head :
    (scopes : ℕ → CancelScope) (m : Option ℕ) (x : ℕ) (outer : List ℕ)
    → no_later (tightest scopes m (x ∷ outer)) (scopes x).deadline ≡ true
unfolding tightest
tightest_head scopes m x outer =
    let d = (scopes x).deadline in
    let found = earlier m d in
    let rest =
      no_later_trans (tightest scopes found outer) found d (tightest_min scopes found outer)
        (earlier_right m d) in
    elim (Bool-cases (scopes x).shield) [
      | inl shut ↦ rw shut (earlier_right m d)
      | inr opened ↦ rw opened rest
    ]

tightest_open :
    (scopes : ℕ → CancelScope) (m : Option ℕ) (x : ℕ) (around : List ℕ)
    → (scopes x).shield ≡ false
    → tightest scopes m (x ∷ around) ≡ tightest scopes (earlier m (scopes x).deadline) around
unfolding tightest
tightest_open scopes m x around opened = rw opened refl

tightest_bound :
    (scopes : ℕ → CancelScope) (m : Option ℕ) (inner outer : List ℕ) (x : ℕ)
    → Open scopes inner
    → no_later (tightest scopes m (inner ++ x ∷ outer)) (scopes x).deadline ≡ true
tightest_bound scopes m [] outer x o = tightest_head scopes m x outer
tightest_bound scopes m (y ∷ inner) outer x o =
    ap (λ t. no_later t (scopes x).deadline) (tightest_open scopes m y (inner ++ x ∷ outer) o.0)
    ∙ tightest_bound scopes (earlier m (scopes y).deadline) inner outer x o.1

earlier_is : (a b : Option ℕ) → (earlier a b ≡ a) ⊎ (earlier a b ≡ b)
earlier_is none b = inr refl
earlier_is (some a) none = inl refl
earlier_is (some a) (some b) = ground arith

-- A scope that the innermost one sees: no scope inside it is shielded.
pub record Seen (scopes : ℕ → CancelScope) (around : List ℕ) (x : ℕ) : Type 0 where
  pub inner : List ℕ
  pub outer : List ℕ
  pub lies : around ≡ inner ++ x ∷ outer
  pub unshielded : Open scopes inner

Seen-further :
    (scopes : ℕ → CancelScope) (y x : ℕ) (around : List ℕ)
    → (scopes y).shield ≡ false
    → Seen scopes around x
    → Seen scopes (y ∷ around) x
Seen-further scopes y x around opened h = record {
  inner = y ∷ h.inner;
  outer = h.outer;
  lies = ap (y ∷◌) h.lies;
  unshielded = (opened, h.unshielded);
}

-- The minimum of the loop, or the deadline of a scope that is seen.
Source : (ℕ → CancelScope) → Option ℕ → List ℕ → Option ℕ → Type 0
Source scopes m around t = (t ≡ m) ⊎ ((x : ℕ) × Seen scopes around x × (t ≡ (scopes x).deadline))

head-Source :
    (scopes : ℕ → CancelScope) (m t : Option ℕ) (x : ℕ) (around : List ℕ)
    → t ≡ earlier m (scopes x).deadline
    → Source scopes m (x ∷ around) t
unfolding Source
head-Source scopes m t x around e = elim (earlier_is m (scopes x).deadline) [
  | inl old ↦ inl (e ∙ old)
  | inr new ↦ inr (x, record { inner = []; outer = around; lies = refl; unshielded = tt }, e ∙ new)
]

tightest-Source :
    (scopes : ℕ → CancelScope) (m : Option ℕ) (around : List ℕ)
    → Source scopes m around (tightest scopes m around)
unfolding tightest Source
tightest-Source scopes m [] = inl refl
tightest-Source scopes m (x ∷ around) = elim (Bool-cases (scopes x).shield) [
  | inl shut ↦ head-Source scopes m (tightest scopes m (x ∷ around)) x around (rw shut refl)
  | inr opened ↦ elim (tightest-Source scopes (earlier m (scopes x).deadline) around) [
    | inl found ↦
        head-Source scopes m (tightest scopes m (x ∷ around)) x around
          (tightest_open scopes m x around opened ∙ found)
    | inr (y, seen, e) ↦
        inr (
          y,
          Seen-further scopes x y around opened seen,
          tightest_open scopes m x around opened ∙ e,
        )
  ]
]

-- The effective deadline is not later than the deadline of any scope that the task sees, on its
-- stack from the top; and there is none, or it is the deadline of such a scope.
pub effective_deadline_tightest :
    (w : World) (x : ℕ)
    → Seen w.scopes (reversed w.stack) x
    → (no_later (current_effective_deadline w) (w.scopes x).deadline ≡ true)
      × ((current_effective_deadline w ≡ none)
          ⊎ ((y : ℕ) × Seen w.scopes (reversed w.stack) y
              × (current_effective_deadline w ≡ (w.scopes y).deadline)))
unfolding current_effective_deadline Source
effective_deadline_tightest w x h = (
  ap (λ l. no_later (tightest w.scopes none l) (w.scopes x).deadline) h.lies
      ∙ tightest_bound w.scopes none h.inner h.outer x h.unshielded,
  tightest-Source w.scopes none (reversed w.stack),
)

any_cancelled-Seen :
    (scopes : ℕ → CancelScope) (around : List ℕ)
    → any_cancelled scopes around ≡ true
    → (x : ℕ) × Seen scopes around x × ((scopes x).cancel_called ≡ true)
unfolding any_cancelled
any_cancelled-Seen scopes [] h = absurd (ground arith)
any_cancelled-Seen scopes (x ∷ around) h = elim (Bool-cases (scopes x).cancel_called) [
  | inl called ↦ (x, record { inner = []; outer = around; lies = refl; unshielded = tt }, called)
  | inr quiet ↦ elim (Bool-cases (scopes x).shield) [
    | inl shut ↦ absurd (ground arith)
    | inr opened ↦
        let (y, seen, called) = any_cancelled-Seen scopes around (ground arith) in
        (y, Seen-further scopes x y around opened seen, called)
  ]
]

seen_cancelled :
    (scopes : ℕ → CancelScope) (inner outer : List ℕ) (x : ℕ)
    → Open scopes inner
    → (scopes x).cancel_called ≡ true
    → any_cancelled scopes (inner ++ x ∷ outer) ≡ true
unfolding any_cancelled
seen_cancelled scopes [] outer x o called = ground arith
seen_cancelled scopes (y ∷ inner) outer x o called =
    ground (arith, o.0, seen_cancelled scopes inner outer x o.1 called)

enclosing_end :
    (around : List ℕ) (id : ℕ) (outer : List ℕ)
    → contains id outer ≡ false
    → enclosing around id (outer ++ id ∷ []) ≡ some (reversed outer ++ around)
unfolding enclosing reversed contains
enclosing_end around id [] h = ground arith
enclosing_end around id (x ∷ outer) h = ground (
  arith,
  enclosing_end (x ∷ around) id outer (ground arith),
  append_assoc (reversed outer) (x ∷ []) around,
)

innermost_end : (id : ℕ) (outer : List ℕ) → innermost (outer ++ id ∷ []) ≡ some id
innermost_end id [] = refl
innermost_end id (x ∷ []) = refl
innermost_end id (x ∷ y ∷ outer) = innermost_end id (y ∷ outer)

-- The test of a checkpoint is the loop on the whole stack.
checkpoint_looks :
    (w : World) (outer : List ℕ) (id : ℕ)
    → w.stack ≡ outer ++ id ∷ []
    → contains id outer ≡ false
    → (checkpoint w).1 ≡ any_cancelled w.scopes (id ∷ reversed outer)
unfolding checkpoint effectively_cancelled any_cancelled
checkpoint_looks w outer id e once =
    let top : innermost w.stack ≡ some id = ap innermost e ∙ innermost_end id outer in
    let around : enclosing [] id w.stack ≡ some (reversed outer) =
      ap (enclosing [] id) e
      ∙ (enclosing_end [] id outer once ∙ ap some (append-nil (reversed outer))) in
    ground (arith, top, around)

-- In a task whose innermost scope is on the stack once, a checkpoint raises a CancelledError exactly
-- if a scope is cancelled that the task sees: the innermost one, or one with no shield inside it.
pub checkpoint_raises_iff :
    (w : World) (outer : List ℕ) (id : ℕ)
    → w.stack ≡ outer ++ id ∷ []
    → contains id outer ≡ false
    → ((checkpoint w).1 ≡ true)
      ↔ ((x : ℕ) × Seen w.scopes (id ∷ reversed outer) x × ((w.scopes x).cancel_called ≡ true))
checkpoint_raises_iff w outer id e once =
    let looks = checkpoint_looks w outer id e once in
    (
      λ raised. any_cancelled-Seen w.scopes (id ∷ reversed outer) (sym looks ∙ raised),
      λ h.
          let (x, seen, called) = h in
          looks
          ∙ (ap (any_cancelled w.scopes) seen.lies
              ∙ seen_cancelled w.scopes seen.inner seen.outer x seen.unshielded called),
    )
