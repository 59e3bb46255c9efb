-- ===== src/Channel/Sends.antt =====
-- Sends keep the invariant of a channel.
use gsyncio.Common.{
  ◌≢◌, ℕ, zero, suc, ◌≤◌, ◌<◌, ◌≡◌, refl, ◌⊎◌, inl, inr, true, false, ◌&&◌, some, List, [], ◌∷◌,
  ◌++◌, ltb, leb, arith, length, length-append, length-remove, contains, remove, append_assoc,
  append-nil, Bool-cases, List-cases, subst, sym, ok, err, runtime_error,
}
use mathlib.Core.Option.{some-injective}
use gsyncio.Channel.Raw.{
  ChannelState, Wake, deliver, selects, wake_putters, hand_to, enqueue, try_send,
}
use gsyncio.Channel.System.{System, sends, sends_again, delivered, told_room, sent, step}
use gsyncio.Channel.Invariant.{Inv, wake_putters_below}

zero_or_positive : (n : ℕ) → (n ≡ 0) ⊎ (0 < n)
zero_or_positive zero = inl refl
zero_or_positive (suc n) = inr (omega arith)

module _ {A : Type 0} where
  hand_to_bounded :
      (g : ℕ) (rest : List ℕ) (item : A) (c : ChannelState A)
      → 0 < c.maxsize
      → c.buffer ≡ []
      → hand_to g rest item c ≡ (
        record c { getters = rest; putters = (wake_putters {A = A} true c.putters).0 },
        true,
        deliver g item ∷ (wake_putters true c.putters).1,
      )
  unfolding hand_to
  hand_to_bounded g rest item c lt e = ground arith

  hand_to_unbounded :
      (g : ℕ) (rest : List ℕ) (item : A) (c : ChannelState A)
      → c.maxsize ≡ 0
      → hand_to g rest item c ≡ (record c { getters = rest }, true, deliver g item ∷ [])
  unfolding hand_to
  hand_to_unbounded g rest item c e = ground arith

  hand_to-Inv :
      (g : ℕ) (rest : List ℕ) (item : A) (k : List ℕ) (s : System A)
      → Inv s
      → s.channel.getters ≡ g ∷ rest
      → Inv (sent (record s { told = k }) item (ok (hand_to g rest item s.channel)))
  hand_to-Inv g rest item k s v e =
      let nothing : s.channel.buffer ≡ [] = ground arith in
      let handed : (s.handed ++ item ∷ []) ++ s.channel.buffer ≡ s.accepted ++ item ∷ [] =
        ground (arith, append-nil s.handed, append-nil (s.handed ++ item ∷ [])) in
      let woken = wake_putters_below {A = A} s.channel.putters in
      elim (zero_or_positive s.channel.maxsize) [
        | inl unbounded ↦
            subst (λ r. Inv (sent (record s { told = k }) item (ok r)))
              (sym (hand_to_unbounded g rest item s.channel unbounded))
              (ground (arith, handed, append-nil k))
        | inr bounded ↦
            subst (λ r. Inv (sent (record s { told = k }) item (ok r)))
              (sym (hand_to_bounded g rest item s.channel bounded nothing))
              (ground (arith, handed, woken.0, woken.1, woken.2))
      ]

  enqueue_cases :
      (item : A) (c : ChannelState A)
      → ((w : List ℕ) × (wakes : List (Wake A)) × (enqueue item c
            ≡ (record c { buffer = c.buffer ++ item ∷ []; select_watchers = w }, true, wakes))
          × (delivered wakes ≡ [])
          × (told_room wakes ≡ [])
          × ((w ≡ c.select_watchers) ⊎ (c.select_watchers ≢ [])))
        ⊎ ((enqueue item c ≡ (c, false, [])) × (c.maxsize ≤ length c.buffer))
  unfolding enqueue
  enqueue_cases item c = elim (List-cases c.select_watchers) [
    | inl unwatched ↦ elim (Bool-cases (ltb 0 c.maxsize && leb c.maxsize (length c.buffer))) [
      | inl packed ↦ inr (ground arith)
      | inr room_left ↦ inl (c.select_watchers, [], ground arith, refl, refl, inl refl)
    ]
    | inr (w, rest, watched) ↦
        inl (rest, selects w ∷ [], ground arith, refl, refl, inr (ground arith))
  ]

  enqueue-Inv :
      (item : A) (k : List ℕ) (s : System A)
      → length s.told ≤ suc (length k)
      → Inv s
      → s.channel.getters ≡ []
      → Inv (sent (record s { told = k }) item (ok (enqueue item s.channel)))
  enqueue-Inv item k s le v e = elim (enqueue_cases item s.channel) [
    | inl (w, wakes, queued, none_out, none_told, h) ↦
        subst (λ r. Inv (sent (record s { told = k }) item (ok r))) (sym queued)
          (ground (
            arith,
            append_assoc s.handed s.channel.buffer (item ∷ []),
            append-nil k,
            append-nil s.handed,
            length-append s.channel.buffer (item ∷ []),
          ))
    | inr (refused, h) ↦
        subst (λ r. Inv (sent (record s { told = k }) item (ok r))) (sym refused)
          (ground (arith, append-nil k, append-nil s.handed))
  ]

  -- A try is refused, has a receiver or has none.
  try_send_cases :
      (item : A) (c : ChannelState A)
      → ((c.is_closed ≡ true) × (try_send item c ≡ err runtime_error))
        ⊎ (((c.getters ≡ []) × (try_send item c ≡ ok (enqueue item c)))
            ⊎ ((g : ℕ) × (rest : List ℕ) × (c.getters ≡ g ∷ rest)
                × (try_send item c ≡ ok (hand_to g rest item c))))
  unfolding try_send
  try_send_cases item c = elim (Bool-cases c.is_closed) [
    | inl closed ↦ inl (ground arith)
    | inr opened ↦ elim (List-cases c.getters) [
      | inl nobody ↦ inr (inl (ground arith))
      | inr (g, rest, waits) ↦ inr (inr (g, rest, waits, ground arith))
    ]
  ]

  -- A sender that was told of room, or comes anew, tries.
  tries-Inv :
      (item : A) (k : List ℕ) (s : System A)
      → length s.told ≤ suc (length k)
      → Inv s
      → Inv (sent (record s { told = k }) item (try_send item s.channel))
  tries-Inv item k s le v = elim (try_send_cases item s.channel) [
    | inl (closed, failed) ↦
        subst (λ r. Inv (sent (record s { told = k }) item r)) (sym failed) (ground arith)
    | inr (inl (nobody, queued)) ↦
        subst (λ r. Inv (sent (record s { told = k }) item r)) (sym queued)
          (enqueue-Inv item k s le v nobody)
    | inr (inr (g, rest, waits, given)) ↦
        subst (λ r. Inv (sent (record s { told = k }) item r)) (sym given)
          (hand_to-Inv g rest item k s v waits)
  ]

  pub sends-Inv : (item : A) (s t : System A) → step (sends item) s ≡ some t → Inv s → Inv t
  unfolding step
  sends-Inv item s t e v =
      subst Inv (some-injective _ _ e) (tries-Inv item s.told s (omega arith) v)

  pub sends_again-Inv :
      (fut : ℕ) (item : A) (s t : System A) → step (sends_again fut item) s ≡ some t → Inv s → Inv t
  unfolding step
  sends_again-Inv fut item s t e v = elim (Bool-cases (contains fut s.told)) [
    | inl told ↦
        subst Inv (some-injective _ _ (rw told at e))
          (tries-Inv item (remove fut s.told) s (omega (arith, length-remove fut s.told told)) v)
    | inr untold ↦ absurd (ground arith)
  ]
