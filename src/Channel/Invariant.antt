-- ===== src/Channel/Invariant.antt =====
-- What holds of a channel in every state that its users can reach.
use gsyncio.Common.{
  ℕ, ◌+◌, ◌≤◌, ◌<◌, ◌≡◌, refl, ◌⊎◌, inl, inr, true, false, none, some, List, [], ◌∷◌, ◌++◌, arith,
  length, length-append, append_assoc, append-nil, List-cases, subst, sym, ap, ◌∙◌, ok, err,
  runtime_error,
}
use mathlib.Core.Option.{some-injective}
use gsyncio.Channel.Raw.{
  ChannelState, room, wake_putters, take_item, try_recv, register_getter, register_putter,
}
use gsyncio.Channel.System.{
  System, registers_putter, receives, registers_getter, delivered, told_room, after, took, received,
  step,
}

module _ {A : Type 0} where
  pub record Inv (s : System A) : Type 0 where
    pub apart : (s.channel.getters ≡ []) ⊎ (s.channel.buffer ≡ [])
    pub ordered : s.handed ++ s.channel.buffer ≡ s.accepted
    pub putters_wait :
        (s.channel.putters ≡ []) ⊎ (s.channel.maxsize ≤ length s.channel.buffer + length s.told)
    pub bounded : (s.channel.putters ≡ []) ⊎ (0 < s.channel.maxsize)
    pub shut :
        (s.channel.is_closed ≡ false)
        ⊎ ((s.channel.getters ≡ []) × (s.channel.putters ≡ []) × (s.channel.select_watchers ≡ []))

  -- What a woken loop over the senders leaves, tells and hands out.
  pub wake_putters_below :
      (putters : List ℕ)
      → ((wake_putters {A = A} true putters).0 ≡ [])
        × (told_room (wake_putters {A = A} true putters).1 ≡ putters)
        × (delivered (wake_putters {A = A} true putters).1 ≡ [])
  unfolding wake_putters
  wake_putters_below [] = (refl, refl, refl)
  wake_putters_below (p ∷ putters) =
      let rest = wake_putters_below putters in (rest.0, ap (◌∷◌ p) rest.1, rest.2)

  pub registers_putter-Inv :
      (fut : ℕ) (s t : System A) → step (registers_putter fut) s ≡ some t → Inv s → Inv t
  unfolding step register_putter
  registers_putter-Inv fut s t e v = ground arith

  take_item_tells :
      (p : ℕ) (putters : List ℕ) (rest : List A) (c : ChannelState A)
      → 0 < c.maxsize
      → c.putters ≡ p ∷ putters
      → take_item rest c ≡ (record c { buffer = rest; putters = putters }, room p ∷ [])
  unfolding take_item
  take_item_tells p putters rest c lt e = ground arith

  take_item_quiet :
      (rest : List A) (c : ChannelState A)
      → (c.maxsize ≡ 0) ⊎ (c.putters ≡ [])
      → take_item rest c ≡ (record c { buffer = rest }, [])
  unfolding take_item
  take_item_quiet rest c q = ground arith

  -- An item is taken from the front.
  handed_on :
      (item : A) (rest : List A) (s : System A)
      → Inv s
      → s.channel.buffer ≡ item ∷ rest
      → (s.handed ++ item ∷ []) ++ rest ≡ s.accepted
  handed_on item rest s v e =
      append_assoc s.handed (item ∷ []) rest ∙ (ap (s.handed ++◌) (sym e) ∙ v.ordered)

  pub take-Inv :
      (item : A) (rest : List A) (s : System A)
      → Inv s
      → s.channel.buffer ≡ item ∷ rest
      → Inv (after (took s (some item)) (take_item rest s.channel).0 (take_item rest s.channel).1)
  take-Inv item rest s v e = elim (List-cases s.channel.putters) [
    | inl none_waits ↦
        subst (λ r. Inv (after (took s (some item)) r.0 r.1))
          (sym (take_item_quiet rest s.channel (inr none_waits)))
          (ground (
            arith,
            handed_on item rest s v e,
            append-nil (s.handed ++ item ∷ []),
            append-nil s.told,
          ))
    | inr (p, putters, waits) ↦
        let lt : 0 < s.channel.maxsize = ground arith in
        subst (λ r. Inv (after (took s (some item)) r.0 r.1))
          (sym (take_item_tells p putters rest s.channel lt waits))
          (ground (
            arith,
            handed_on item rest s v e,
            append-nil (s.handed ++ item ∷ []),
            length-append s.told (p ∷ []),
          ))
  ]

  try_recv_item :
      (item : A) (rest : List A) (c : ChannelState A)
      → c.buffer ≡ item ∷ rest
      → try_recv c ≡ ok ((take_item rest c).0, some item, (take_item rest c).1)
  unfolding try_recv
  try_recv_item item rest c e = ground arith

  -- An empty buffer: nothing comes, or an error.
  try_recv_nothing :
      (c : ChannelState A)
      → c.buffer ≡ []
      → (try_recv c ≡ err runtime_error) ⊎ (try_recv c ≡ ok (c, none, []))
  unfolding try_recv
  try_recv_nothing c e = ground arith

  pub receives-Inv : (s t : System A) → step receives s ≡ some t → Inv s → Inv t
  unfolding step
  receives-Inv s t e v = elim (List-cases s.channel.buffer) [
    | inl nothing ↦ elim (try_recv_nothing s.channel nothing) [
      | inl failed ↦ subst Inv (ap (received s) (sym failed) ∙ some-injective _ _ e) v
      | inr waits ↦
          subst Inv (ap (received s) (sym waits) ∙ some-injective _ _ e)
            (ground (arith, append-nil s.told, append-nil s.handed))
    ]
    | inr (item, rest, full) ↦
        subst Inv
          (ap (received s) (sym (try_recv_item item rest s.channel full)) ∙ some-injective _ _ e)
          (take-Inv item rest s v full)
  ]

  register_getter_cases :
      (fut : ℕ) (c : ChannelState A)
      → (c.getters ≡ []) ⊎ (c.buffer ≡ [])
      → (register_getter fut c ≡ err runtime_error)
        ⊎ (((c.buffer ≡ [])
              × (c.is_closed ≡ false)
              × (register_getter fut c
                  ≡ ok (record c { getters = c.getters ++ fut ∷ [] }, none, [])))
            ⊎ ((item : A) × (rest : List A) × (c.buffer ≡ item ∷ rest)
                × (register_getter fut c
                    ≡ ok ((take_item rest c).0, some item, (take_item rest c).1))))
  unfolding register_getter
  register_getter_cases fut c apart = elim (List-cases c.buffer) [
    | inl nothing ↦ ground arith
    | inr (item, rest, full) ↦ inr (inr (item, rest, full, ground arith))
  ]

  pub registers_getter-Inv :
      (fut : ℕ) (s t : System A) → step (registers_getter fut) s ≡ some t → Inv s → Inv t
  unfolding step
  registers_getter-Inv fut s t e v = elim (register_getter_cases fut s.channel v.apart) [
    | inl failed ↦ subst Inv (ap (received s) (sym failed) ∙ some-injective _ _ e) v
    | inr (inl (nothing, opened, waits)) ↦
        subst Inv (ap (received s) (sym waits) ∙ some-injective _ _ e)
          (ground (arith, append-nil s.told, append-nil s.handed))
    | inr (inr (item, rest, full, taken)) ↦
        subst Inv (ap (received s) (sym taken) ∙ some-injective _ _ e) (take-Inv item rest s v full)
  ]
