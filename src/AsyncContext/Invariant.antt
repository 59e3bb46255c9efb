-- ===== src/AsyncContext/Invariant.antt =====
-- What holds between the critical sections: who is under whom, and which cancellations are under way.
use gsyncio.Common.{
  ℕ, ◌<◌, ◌≡◌, ◌≢◌, refl, sym, ap, subst, ◌∙◌, ◌⊎◌, inl, inr, true, false, Option, none, some, List,
  [], ◌∷◌, ◌++◌, ◌==◌, arith, contains, retain, Bool-cases, contains-append-left,
  contains-append-right,
}
use gsyncio.AsyncContext.{World, detach, take, cancel_members, new_context}

-- Every context that is not cancelled is among the children of its parent, which is not cancelled
-- either, or it is one of the contexts whose cancellation is under way.
pub record Inv (under_way : List ℕ) (w : World) : Type 0 where
  pub live :
      (c p : ℕ)
      → (w.contexts c).parent ≡ some p
      → (w.contexts c).cancelled ≡ false
      → (contains c under_way ≡ true)
        ⊎ (((w.contexts p).cancelled ≡ false) × (contains c (w.contexts p).children ≡ true))
  pub exists : (c p : ℕ) → (w.contexts c).parent ≡ some p → c < w.next
  pub older : (c p : ℕ) → contains c (w.contexts p).children ≡ true → (p < c) × (c < w.next)

contains-retain :
    (a b : ℕ) (xs : List ℕ) → a ≢ b → contains a xs ≡ true → contains a (retain b xs) ≡ true
unfolding contains retain
contains-retain a b [] n h = h
contains-retain a b (x ∷ xs) n h = ground (arith, contains-retain a b xs n)

retain-contains : (a b : ℕ) (xs : List ℕ) → contains a (retain b xs) ≡ true → contains a xs ≡ true
unfolding contains retain
retain-contains a b [] h = h
retain-contains a b (x ∷ xs) h = ground (arith, retain-contains a b xs)

-- A world whose contexts are the same but for some children that go, all of them cancelled.
pub record Thinned (w v : World) : Type 0 where
  pub parent : (c : ℕ) → (v.contexts c).parent ≡ (w.contexts c).parent
  pub cancelled : (c : ℕ) → (v.contexts c).cancelled ≡ (w.contexts c).cancelled
  pub keeps :
      (c p : ℕ)
      → (w.contexts c).cancelled ≡ false
      → contains c (w.contexts p).children ≡ true
      → contains c (v.contexts p).children ≡ true
  pub among :
      (c p : ℕ)
      → contains c (v.contexts p).children ≡ true
      → contains c (w.contexts p).children ≡ true
  pub next : v.next ≡ w.next

pub Thinned-Inv : (u : List ℕ) (w v : World) → Thinned w v → Inv u w → Inv u v
Thinned-Inv u w v t i = record {
  live = λ c p par on.
      let on' : (w.contexts c).cancelled ≡ false = sym (t.cancelled c) ∙ on in
      elim (i.live c p (sym (t.parent c) ∙ par) on') [
        | inl h ↦ inl h
        | inr (alive, child) ↦ inr (t.cancelled p ∙ alive, t.keeps c p on' child)
      ];
  exists = λ c p par. subst (λ n. c < n) (sym t.next) (i.exists c p (sym (t.parent c) ∙ par));
  older =
      λ c p h. let o = i.older c p (t.among c p h) in (o.0, subst (λ n. c < n) (sym t.next) o.1);
}

pub detach-Thinned :
    (p : Option ℕ) (id : ℕ) (w : World)
    → (w.contexts id).cancelled ≡ true
    → Thinned w (detach p id w)
unfolding detach
detach-Thinned none id w gone = record {
  parent = λ c. refl;
  cancelled = λ c. refl;
  keeps = λ c p on h. h;
  among = λ c p h. h;
  next = refl;
}
detach-Thinned (some p) id w gone = record {
  parent = λ c. ground arith;
  cancelled = λ c. ground arith;
  keeps = λ c q on h. elim (Bool-cases (p == q)) [
    | inl same ↦
        let n : c ≢ id = λ e. absurd (ground arith) in
        ground (arith, contains-retain c id (w.contexts q).children n h)
    | inr other ↦ ground arith
  ];
  among = λ c q h. elim (Bool-cases (p == q)) [
    | inl same ↦ ground (arith, retain-contains c id (w.contexts q).children)
    | inr other ↦ ground arith
  ];
  next = refl;
}

pub members-Thinned : (futures : List ℕ) (w : World) → Thinned w (cancel_members futures w)
unfolding cancel_members
members-Thinned futures w = record {
  parent = λ c. refl;
  cancelled = λ c. refl;
  keeps = λ c p on h. h;
  among = λ c p h. h;
  next = refl;
}

-- A context that is cancelled leaves its children under way.
pub take-Inv :
    (id : ℕ) (rest : List ℕ) (w : World)
    → Inv (id ∷ rest) w
    → Inv ((w.contexts id).children ++ rest) (take id w)
unfolding take contains
take-Inv id rest w i = record {
  live = λ c p par on. elim (Bool-cases (id == c)) [
    | inl same ↦ absurd (ground arith)
    | inr other ↦ elim (i.live c p (ground arith) (ground arith)) [
      | inl h ↦
          let h' : contains c rest ≡ true = ground arith in
          inl (contains-append-right c (w.contexts id).children rest h')
      | inr (alive, child) ↦ elim (Bool-cases (id == p)) [
        | inl own ↦
            let child' : contains c (w.contexts id).children ≡ true =
              ap (λ q. contains c (w.contexts q).children) (ground arith) ∙ child in
            inl (contains-append-left c (w.contexts id).children rest child')
        | inr foreign ↦ inr (ground arith)
      ]
    ]
  ];
  exists = λ c p par. i.exists c p (ground arith);
  older = λ c p h. i.older c p (ground arith);
}

pub gone-Inv :
    (id : ℕ) (rest : List ℕ) (w : World)
    → (w.contexts id).cancelled ≡ true
    → Inv (id ∷ rest) w
    → Inv rest w
unfolding contains
gone-Inv id rest w gone i = record {
  live = λ c p par on.
      let n : c ≢ id = λ e. absurd (ground arith) in
      elim (i.live c p par on) [ inl h ↦ inl (ground arith) | inr h ↦ inr h ];
  exists = i.exists;
  older = i.older;
}

-- Only which contexts are under way matters, and more is weaker.
pub wider-Inv :
    (u v : List ℕ) (w : World)
    → ((c : ℕ) → contains c u ≡ true → contains c v ≡ true)
    → Inv u w
    → Inv v w
wider-Inv u v w sub i = record {
  live = λ c p par on. elim (i.live c p par on) [ inl h ↦ inl (sub c h) | inr h ↦ inr h ];
  exists = i.exists;
  older = i.older;
}

pub new-Inv :
    (u : List ℕ) (parent : Option ℕ) (w : World) → Inv u w → Inv (w.next ∷ u) (new_context parent w)
unfolding new_context contains
new-Inv u parent w i = record {
  live = λ c p par on. elim (Bool-cases (w.next == c)) [
    | inl same ↦ inl (ground arith)
    | inr old ↦ elim (i.live c p (ground arith) (ground arith)) [
      | inl h ↦ inl (ground arith)
      | inr (alive, child) ↦ let o = i.older c p child in inr (ground arith)
    ]
  ];
  exists = λ c p par. elim (Bool-cases (w.next == c)) [
    | inl same ↦ ground arith
    | inr old ↦ let lt = i.exists c p (ground arith) in omega arith
  ];
  older = λ c p h. elim (Bool-cases (w.next == p)) [
    | inl same ↦ absurd (ground arith)
    | inr old ↦ let o = i.older c p (ground arith) in (o.0, omega arith)
  ];
}

pub root-Inv : (u : List ℕ) (w : World) → Inv u w → Inv u (new_context none w)
unfolding new_context contains
root-Inv u w i =
    let v = new-Inv u none w i in
    record {
      live = λ c p par on. elim (v.live c p par on) [ inl h ↦ inl (ground arith) | inr h ↦ inr h ];
      exists = v.exists;
      older = v.older;
    }
