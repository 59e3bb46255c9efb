-- ===== src/AsyncContext/Cascade.antt =====
-- A call of `cancel` that nothing disturbs: its cascade reaches the whole tree below a context.
use gsyncio.Common.{
  ℕ, zero, suc, ◌+◌, ◌≤◌, ◌≡◌, ◌≢◌, refl, sym, subst, ◌∙◌, inl, inr, true, false, List, [], ◌∷◌,
  ◌++◌, arith, contains, All, Bool-cases, Option-cases,
}
use gsyncio.AsyncContext.{World, detach, take, mark, cancel_members, cancel, each}
use gsyncio.AsyncContext.Invariant.{
  Inv, Thinned-Inv, detach-Thinned, members-Thinned, take-Inv, gone-Inv,
}

mark-Inv :
    (id : ℕ) (rest : List ℕ) (w : World)
    → Inv (id ∷ rest) w
    → Inv ((w.contexts id).children ++ rest) (mark id w)
unfolding mark take
mark-Inv id rest w i =
    Thinned-Inv ((w.contexts id).children ++ rest) (take id w) (mark id w)
      (detach-Thinned (w.contexts id).parent id (take id w) (ground arith)) (take-Inv id rest w i)

mark-next : (id : ℕ) (w : World) → (mark id w).next ≡ w.next
unfolding mark take detach
mark-next id w = elim (Option-cases (w.contexts id).parent) [
  | inl root ↦ ground arith
  | inr (p, child) ↦ ground arith
]

-- The fuel is enough for a context of this number.
Within : (n fuel : ℕ) → List ℕ → Type 0
Within n fuel ids = All (λ c. n ≤ fuel + c) ids

children-Within :
    (n fuel id : ℕ) (ids : List ℕ) (w : World) (u : List ℕ)
    → Inv u w
    → n ≤ suc fuel + id
    → ((c : ℕ) → contains c ids ≡ true → contains c (w.contexts id).children ≡ true)
    → Within n fuel ids
unfolding Within contains
children-Within n fuel id [] w u i le sub = tt
children-Within n fuel id (c ∷ ids) w u i le sub =
    let o = i.older c id (sub c (ground arith)) in
    (omega (arith, o.0), children-Within n fuel id ids w u i le (λ d h. sub d (ground arith)))

absent-Inv : (id : ℕ) (rest : List ℕ) (w : World) → w.next ≤ id → Inv (id ∷ rest) w → Inv rest w
unfolding contains
absent-Inv id rest w out i = record {
  live = λ c p par on.
      let n : c ≢ id = λ e. absurd (omega (arith, i.exists c p par, e)) in
      elim (i.live c p par on) [ inl h ↦ inl (ground arith) | inr h ↦ inr h ];
  exists = i.exists;
  older = i.older;
}

cancel_gone :
    (fuel id : ℕ) (w : World) → (w.contexts id).cancelled ≡ true → w ≡ cancel (suc fuel) id w
unfolding cancel
cancel_gone fuel id w gone = rw (gone, cancel) refl

cancel_on :
    (fuel id : ℕ) (w : World)
    → (w.contexts id).cancelled ≡ false
    → cancel_members
        (w.contexts id).futures
        (each (cancel fuel) (w.contexts id).children (mark id w))
      ≡ cancel (suc fuel) id w
unfolding cancel
cancel_on fuel id w on = rw (on, cancel) refl

pub record Done (rest : List ℕ) (w v : World) : Type 0 where
  pub inv : Inv rest v
  pub next : v.next ≡ w.next

each-Done :
    (fuel : ℕ)
    → ((c : ℕ) (rest : List ℕ) (w : World)
        → w.next ≤ fuel + c
        → Inv (c ∷ rest) w
        → Done rest w (cancel fuel c w))
    → (cs rest : List ℕ) (w : World) → Within w.next fuel cs
    → Inv (cs ++ rest) w
    → Done rest w (each (cancel fuel) cs w)
unfolding each Within
each-Done fuel one [] rest w le i = record { inv = i; next = refl }
each-Done fuel one (c ∷ cs) rest w le i =
    let first = one c (cs ++ rest) w le.0 i in
    let v = cancel fuel c w in
    let more =
      each-Done fuel one cs rest v (subst (λ n. All (λ d. n ≤ fuel + d) cs) (sym first.next) le.1)
        first.inv in
    record { inv = more.inv; next = more.next ∙ first.next }

pub cancel-Done :
    (fuel c : ℕ) (rest : List ℕ) (w : World)
    → w.next ≤ fuel + c
    → Inv (c ∷ rest) w
    → Done rest w (cancel fuel c w)
unfolding cancel Within
cancel-Done zero c rest w le i = record { inv = absent-Inv c rest w (omega arith) i; next = refl }
cancel-Done (suc fuel) c rest w le i = elim (Bool-cases (w.contexts c).cancelled) [
  | inl gone ↦
      subst (Done rest w) (cancel_gone fuel c w gone)
        (record { inv = gone-Inv c rest w gone i; next = refl })
  | inr on ↦
      let cs = (w.contexts c).children in
      let small = children-Within w.next fuel c cs w (c ∷ rest) i le (λ d h. h) in
      let v = mark c w in
      let same = mark-next c w in
      let more =
        each-Done fuel (cancel-Done fuel) cs rest v
          (subst (λ n. All (λ d. n ≤ fuel + d) cs) (sym same) small) (mark-Inv c rest w i) in
      let u = each (cancel fuel) cs v in
      let t = members-Thinned (w.contexts c).futures u in
      subst (Done rest w) (cancel_on fuel c w on)
        (record { inv = Thinned-Inv rest u _ t more.inv; next = t.next ∙ (more.next ∙ same) })
]
