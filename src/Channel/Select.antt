-- ===== src/Channel/Select.antt =====
-- src/multiloop/primitives.py, select_channel: its first phase, the probes. The channels are
-- named by their positions; `start_idx` comes from a clock and is any position.
use gsyncio.Common.{
  leb, channel_closed, would_block, Bool-cases, ℕ, zero, suc, ◌+◌, ◌-◌, ◌%◌, ◌≤◌, ◌<◌, ◌≡◌, refl,
  ◌⊎◌, inl, inr, Option, none, some, List, [], ◌∷◌, arith, length, get_or, List-cases, ok, err,
  subst, ◌∙◌, sym, ap,
}
use gsyncio.Channel.Raw.{ChannelState, Wake, new, take_item, try_recv}
use gsyncio.Channel.{recv_now}
use native.Mathlib.Nat.{add-mod_right, mod-eq_of_lt, mod-lt}
use mathlib.Core.Option.{some-injective}

zero_or_more : (n : ℕ) → (n ≡ 0) ⊎ ((m : ℕ) × (n ≡ suc m))
zero_or_more zero = inl refl
zero_or_more (suc n) = inr (n, refl)

-- Every position is passed in one round.
position :
    (start_idx j n : ℕ) → start_idx < n → j < n → (d : ℕ) × (d < n) × ((start_idx + d) % n ≡ j)
position start_idx j n start_lt lt = elim (Bool-cases (leb start_idx j)) [
  | inl behind ↦
      let le : start_idx ≤ j = ground arith in
      (j - start_idx, omega arith, ap (◌% n) (omega arith) ∙ mod-eq_of_lt lt)
  | inr before ↦
      let gt : j < start_idx = ground arith in
      (
        n - start_idx + j,
        omega arith,
        ap (◌% n) (omega arith) ∙ (add-mod_right j n ∙ mod-eq_of_lt lt),
      )
]

module _ {A : Type 0} where
  -- The first channel with an item, from the start index round: its position, its new state, the
  -- item, and the wakes.
  unfoldable pub probe :
      (start_idx i count : ℕ)
      → List (ChannelState A)
      → Option (ℕ × ChannelState A × A × List (Wake A))
  probe start_idx i zero channels = none
  probe start_idx i (suc count) channels =
      let k = (start_idx + i) % length channels in
      let next = probe start_idx (suc i) count channels in
      elim (recv_now (get_or channels k (new 0))) [
        | err e ↦ next
        | ok (channel, item, wakes) ↦ some (k, channel, item, wakes)
      ]

  unfoldable pub probes :
      (start_idx : ℕ) → List (ChannelState A) → Option (ℕ × ChannelState A × A × List (Wake A))
  probes start_idx channels = probe start_idx 0 (length channels) channels

  take_item_buffer : (rest : List A) (c : ChannelState A) → (take_item rest c).0.buffer ≡ rest
  unfolding take_item
  take_item_buffer rest c = ground arith

  recv_now_cases :
      (c : ChannelState A)
      → ((c.buffer ≡ []) × ((e : _) × (recv_now c ≡ err e)))
        ⊎ ((item : A) × (rest : List A) × (c.buffer ≡ item ∷ rest)
            × (recv_now c ≡ ok ((take_item rest c).0, item, (take_item rest c).1)))
  unfolding recv_now try_recv
  recv_now_cases c = elim (List-cases c.buffer) [
    | inl nothing ↦ elim (Bool-cases c.is_closed) [
      | inl closed ↦ inl (nothing, (channel_closed, rw (nothing, closed) refl))
      | inr opened ↦ inl (nothing, (would_block, rw (nothing, opened) refl))
    ]
    | inr (item, rest, full) ↦ inr (item, rest, full, ground arith)
  ]

  -- The channel that the probe of step i looks at.
  abbrev looked_at : (start_idx i : ℕ) → List (ChannelState A) → ChannelState A
  looked_at start_idx i channels = get_or channels ((start_idx + i) % length channels) (new 0)

  probe_step :
      (start_idx i count : ℕ) (channels : List (ChannelState A))
      → (((looked_at start_idx i channels).buffer ≡ [])
          × (probe start_idx i (suc count) channels ≡ probe start_idx (suc i) count channels))
        ⊎ ((item : A) × (rest : List A) × ((looked_at start_idx i channels).buffer ≡ item ∷ rest)
            × (probe start_idx i (suc count) channels
                ≡ some (
                  (start_idx + i) % length channels,
                  (take_item rest (looked_at start_idx i channels)).0,
                  item,
                  (take_item rest (looked_at start_idx i channels)).1,
                )))
  unfolding probe
  probe_step start_idx i count channels = elim (recv_now_cases (looked_at start_idx i channels)) [
    | inl (nothing, (e, failed)) ↦ inl (nothing, rw (failed, probe) refl)
    | inr (item, rest, full, took) ↦ inr (item, rest, full, rw (took, probe) refl)
  ]

  probe-none :
      (start_idx i count d : ℕ) (channels : List (ChannelState A))
      → probe start_idx i count channels ≡ none
      → d < count
      → (looked_at start_idx (i + d) channels).buffer ≡ []
  probe-none start_idx i zero d channels e lt = absurd (omega arith)
  probe-none start_idx i (suc count) d channels e lt =
      elim (probe_step start_idx i count channels) [
        | inl (nothing, on) ↦ elim (zero_or_more d) [
          | inl first ↦
              subst (λ n. (looked_at start_idx n channels).buffer ≡ []) (omega arith) nothing
          | inr (d', later) ↦
              subst (λ n. (looked_at start_idx n channels).buffer ≡ []) (omega arith)
                (probe-none start_idx (suc i) count d' channels (sym on ∙ e) (omega arith))
        ]
        | inr (item, rest, full, took) ↦ absurd (ground arith)
      ]

  probe-some :
      (start_idx i count k : ℕ) (channels : List (ChannelState A)) (channel : ChannelState A)
      (item : A) (wakes : List (Wake A))
      → probe start_idx i count channels ≡ some (k, channel, item, wakes)
      → 0 < length channels
      → (k < length channels) × ((get_or channels k (new 0)).buffer ≡ item ∷ channel.buffer)
  unfolding probe
  probe-some start_idx i zero k channels channel item wakes e lt = absurd (ground arith)
  probe-some start_idx i (suc count) k channels channel item wakes e lt =
      elim (probe_step start_idx i count channels) [
        | inl (nothing, on) ↦
            probe-some start_idx (suc i) count k channels channel item wakes (sym on ∙ e) lt
        | inr (item', rest, full, took) ↦
            let same = some-injective _ _ (sym took ∙ e) in
            let place : (start_idx + i) % length channels ≡ k = ap (λ r. r.0) same in
            let left : (take_item rest (looked_at start_idx i channels)).0.buffer ≡ channel.buffer =
              ap (λ r. r.1.buffer) same in
            let given : item' ≡ item = ap (λ r. r.2) same in
            (
              subst (λ n. n < length channels) place (mod-lt (start_idx + i) lt),
              ap (λ n. (get_or channels n (new 0)).buffer) (sym place)
                  ∙ (full
                      ∙ (ap (◌∷ rest) given
                          ∙ ap (item ∷◌) (
                              sym (take_item_buffer rest (looked_at start_idx i channels))
                              ∙ left))),
            )
      ]

  -- An answer of the probes names a channel and the item at its front, and leaves that channel
  -- without this item.
  pub probes-some :
      (start_idx k : ℕ) (channels : List (ChannelState A)) (channel : ChannelState A) (item : A)
      (wakes : List (Wake A))
      → probes start_idx channels ≡ some (k, channel, item, wakes)
      → 0 < length channels
      → (k < length channels) × ((get_or channels k (new 0)).buffer ≡ item ∷ channel.buffer)
  unfolding probes
  probes-some start_idx k channels channel item wakes e lt =
      probe-some start_idx 0 (length channels) k channels channel item wakes e lt
