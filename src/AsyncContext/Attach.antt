-- ===== src/AsyncContext/Attach.antt =====
-- A new child under its parent.
use gsyncio.Common.{
  ℕ, ◌<◌, ◌≡◌, sym, ap, subst, ◌∙◌, ◌⊎◌, inl, inr, true, false, some, List, [], ◌∷◌, ◌++◌, ◌==◌,
  arith, contains, Bool-cases, contains-append-left, contains-append-right,
}
use mathlib.Core.Option.{some-injective}
use gsyncio.AsyncContext.{World, set_context, add_child, new_context, create}
use gsyncio.AsyncContext.Invariant.{Inv, new-Inv}

append-contains :
    (a b : ℕ) (xs : List ℕ) → contains a (xs ++ b ∷ []) ≡ true → (contains a xs ≡ true) ⊎ (a ≡ b)
unfolding contains
append-contains a b [] h = ground arith
append-contains a b (x ∷ xs) h = ground (arith, append-contains a b xs)

-- A context under a parent that is not cancelled.
attached : (p child : ℕ) → World → World
attached p child w =
    set_context p (record (w.contexts p) { children = (w.contexts p).children ++ child ∷ [] }) w

one : (c d : ℕ) → c ≡ d → contains c (d ∷ []) ≡ true
unfolding contains
one c d e = ground arith

-- The new context is its only new child.
attached-live :
    (p child c q : ℕ) (u : List ℕ) (v : World)
    → Inv (child ∷ u) v
    → (v.contexts child).parent ≡ some p
    → (v.contexts p).cancelled ≡ false
    → (v.contexts c).parent ≡ some q
    → (v.contexts c).cancelled ≡ false
    → (contains c u ≡ true)
      ⊎ (((v.contexts q).cancelled ≡ false)
          × ((contains c (v.contexts q).children ≡ true) ⊎ ((c ≡ child) × (q ≡ p))))
unfolding contains
attached-live p child c q u v i par alive par' on = elim (i.live c q par' on) [
  | inr (h, old) ↦ inr (h, inl old)
  | inl h ↦ elim (Bool-cases (c == child)) [
    | inr other ↦ inl (ground arith)
    | inl same ↦
        let e : c ≡ child = ground arith in
        let e' : q ≡ p =
          some-injective _ _ (sym par' ∙ (ap (λ d. (v.contexts d).parent) e ∙ par)) in
        inr (ap (λ d. (v.contexts d).cancelled) e' ∙ alive, inr (e, e'))
  ]
]

attach-Inv :
    (p child : ℕ) (u : List ℕ) (v : World)
    → Inv (child ∷ u) v
    → (v.contexts child).parent ≡ some p
    → (v.contexts p).cancelled ≡ false
    → p < child
    → child < v.next
    → Inv u (attached p child v)
unfolding attached
attach-Inv p child u v i par alive lt below = record {
  live = λ c q par' on.
      elim (attached-live p child c q u v i par alive (ground arith) (ground arith)) [
        | inl h ↦ inl h
        | inr (h, how) ↦ inr (elim (Bool-cases (p == q)) [
          | inr other ↦ ground arith
          | inl same ↦
              let there : contains c ((v.contexts p).children ++ child ∷ []) ≡ true = elim how [
                | inl old ↦
                    contains-append-left c (v.contexts p).children (child ∷ [])
                      (ap (λ d. contains c (v.contexts d).children) (ground arith) ∙ old)
                | inr (e, e') ↦
                    contains-append-right c (v.contexts p).children (child ∷ []) (one c child e)
              ] in
              ground arith
        ])
      ];
  exists = λ c q par'. i.exists c q (ground arith);
  older = λ c q h. elim (Bool-cases (p == q)) [
    | inl same ↦
        let e : p ≡ q = ground arith in
        elim (append-contains c child (v.contexts p).children (ground arith)) [
          | inl old ↦ i.older c q (ap (λ d. contains c (v.contexts d).children) (sym e) ∙ old)
          | inr new ↦ ground arith
        ]
    | inr other ↦ i.older c q (ground arith)
  ];
}

create-attached :
    (p : ℕ) (w : World)
    → p < w.next
    → (w.contexts p).cancelled ≡ false
    → (attached p w.next (new_context (some p) w), []) ≡ create (some p) w
unfolding new_context create attached add_child
create-attached p w lt on = ground arith

create-cancelled :
    (p : ℕ) (w : World)
    → p < w.next
    → (w.contexts p).cancelled ≡ true
    → (new_context (some p) w, w.next ∷ []) ≡ create (some p) w
unfolding new_context create add_child
create-cancelled p w lt gone = ground arith

attached-Inv :
    (p : ℕ) (u : List ℕ) (w : World)
    → Inv u w
    → p < w.next
    → (w.contexts p).cancelled ≡ false
    → Inv u (attached p w.next (new_context (some p) w))
unfolding new_context
attached-Inv p u w i lt alive =
    attach-Inv p w.next u (new_context (some p) w) (new-Inv u (some p) w i) (ground arith)
      (ground arith) lt (omega arith)

-- A new child is attached, or its `cancel` is under way.
pub create-Inv :
    (p : ℕ) (u : List ℕ) (w : World)
    → p < w.next
    → Inv u w
    → Inv ((create (some p) w).1 ++ u) (create (some p) w).0
create-Inv p u w lt i = elim (Bool-cases (w.contexts p).cancelled) [
  | inl gone ↦
      subst (λ r. Inv (r.1 ++ u) r.0) (create-cancelled p w lt gone) (new-Inv u (some p) w i)
  | inr on ↦
      subst (λ r. Inv (r.1 ++ u) r.0) (create-attached p w lt on) (attached-Inv p u w i lt on)
]
