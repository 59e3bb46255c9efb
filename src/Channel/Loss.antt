-- ===== src/Channel/Loss.antt =====
-- What the channel does with an item or a sender in the gap between two critical sections.
use gsyncio.Common.{
  ℕ, suc, ◌≡◌, refl, sym, subst, some, Bool, true, false, ◌&&◌, inl, inr, List, [], ◌∷◌, ◌++◌,
  if◌then◌else◌, leb, ltb, arith, length, length-append, contains, retain, Bool-cases, ok,
}
use gsyncio.Channel.Raw.{
  ChannelState, Wake, deliver, wake_putters, hand_to, enqueue, try_send, pass_turn,
  unregister_getter, register_putter, try_recv, take_item,
}
use gsyncio.Channel.{trying, registering, retrying, awaiting, send_now, send_step, wake_fut}
use gsyncio.Channel.System.{delivered}

retain_absent : (a : ℕ) (xs : List ℕ) → contains a xs ≡ false → retain a xs ≡ xs
unfolding contains retain
retain_absent a [] h = refl
retain_absent a (x ∷ xs) h = ground (arith, retain_absent a xs)

module _ {A : Type 0} where
  unregister_delivered :
      (g : ℕ) (c : ChannelState A)
      → contains g c.getters ≡ false
      → c.buffer ≡ []
      → unregister_getter g c ≡ (c, false, [])
  unfolding unregister_getter pass_turn
  unregister_delivered g c h nothing = ground (arith, retain_absent g c.getters h)

  hand_to_cases :
      (item : A) (g : ℕ) (rest : List ℕ) (c : ChannelState A)
      → (putters : List ℕ) × (wakes : List (Wake A)) × (hand_to g rest item c
          ≡ (record c { getters = rest; putters = putters }, true, deliver g item ∷ wakes))
  unfolding hand_to
  hand_to_cases item g rest c = elim (Bool-cases (ltb 0 c.maxsize)) [
    | inl bounded ↦
        let woken = wake_putters {A = A} (ltb (length c.buffer) c.maxsize) c.putters in
        (woken.0, woken.1, ground arith)
    | inr unbounded ↦ (c.putters, [], ground arith)
  ]

  delivered-wake_putters :
      (below : Bool) (ps : List ℕ) → delivered (wake_putters {A = A} below ps).1 ≡ []
  unfolding wake_putters
  delivered-wake_putters below [] = refl
  delivered-wake_putters true (p ∷ ps) = delivered-wake_putters true ps
  delivered-wake_putters false (p ∷ ps) = refl

  -- Sent again on an open and empty channel, an item is handed out or buffered.
  resent_kept :
      (item : A) (c : ChannelState A)
      → c.is_closed ≡ false
      → c.buffer ≡ []
      → delivered (wake_fut true item c).1 ++ (wake_fut true item c).0.buffer ≡ item ∷ []
  unfolding wake_fut try_send enqueue hand_to
  resent_kept item c opened nothing =
      let told = delivered-wake_putters (ltb (length c.buffer) c.maxsize) c.putters in ground arith

  -- On an open and empty channel whose first receiver waits once, a send succeeds and schedules the
  -- delivery of the item to the receiver's future. If the delivery runs and the receiver is then
  -- cancelled before it has resumed, nobody has the item and it is not in the buffer: it is gone. If
  -- the receiver is cancelled before the delivery runs, the item is handed to another receiver or is
  -- in the buffer.
  pub lost_item :
      (item : A) (g : ℕ) (rest : List ℕ) (c : ChannelState A)
      → c.is_closed ≡ false
      → c.buffer ≡ []
      → c.getters ≡ g ∷ rest
      → contains g rest ≡ false
      → (c' : ChannelState A) × (wakes : List (Wake A)) × (try_send item c
          ≡ ok (c', true, deliver g item ∷ wakes))
        × (let delivery = wake_fut false item c' in
            let cancellation = unregister_getter g delivery.0 in
            delivered (delivery.1 ++ cancellation.2) ++ cancellation.0.buffer ≡ [])
        × (let cancellation = unregister_getter g c' in
            let delivery = wake_fut true item cancellation.0 in
            delivered (cancellation.2 ++ delivery.1) ++ delivery.0.buffer ≡ item ∷ [])
  unfolding try_send wake_fut
  lost_item item g rest c opened nothing waits once =
      let (putters, wakes, given) = hand_to_cases item g rest c in
      let c' = record c { getters = rest; putters = putters } in
      let same = unregister_delivered g c' once nothing in
      let kept = resent_kept item c' opened nothing in
      (
        c',
        wakes,
        ground arith,
        subst (λ u. delivered u.2 ++ u.0.buffer ≡ []) (sym same) nothing,
        subst
            (λ u.
              delivered (u.2 ++ (wake_fut true item u.0).1) ++ (wake_fut true item u.0).0.buffer
              ≡ item ∷ [])
            (sym same) kept,
      )

  -- On an open channel on which nobody waits, an item that is delivered to a future that is done
  -- goes to the end of the buffer, and is dropped if the buffer is full.
  pub resent_item :
      (item : A) (c : ChannelState A)
      → c.is_closed ≡ false
      → c.getters ≡ []
      → c.select_watchers ≡ []
      → (wake_fut true item c).0.buffer ≡ (
          if ltb 0 c.maxsize && leb c.maxsize (length c.buffer)
          then c.buffer
          else c.buffer ++ item ∷ [])
  unfolding wake_fut try_send enqueue
  resent_item item c opened nobody unwatched = ground arith

  -- On an open and full channel on which nobody waits, a sender finds no room; a receiver takes an
  -- item; the sender asks again, is told that there is room, and is not queued; another send takes
  -- the room. The sender's next try is refused, and it awaits its future, which no queue holds.
  pub sleeping_sender :
      (item other x : A) (xs : List A) (fut : ℕ) (c : ChannelState A)
      → c.is_closed ≡ false
      → c.getters ≡ []
      → c.putters ≡ []
      → c.select_watchers ≡ []
      → c.buffer ≡ x ∷ xs
      → c.maxsize ≡ suc (length xs)
      → (taken filled : ChannelState A) × (send_step fut item trying c ≡ ok (c, registering, []))
        × (try_recv c ≡ ok (taken, some x, []))
        × (send_step fut item registering taken ≡ ok (taken, retrying, []))
        × (try_send other taken ≡ ok (filled, true, []))
        × (send_step fut item retrying filled ≡ ok (filled, awaiting, []))
        × (filled.putters ≡ [])
  unfolding send_step send_now register_putter try_send enqueue try_recv take_item
  sleeping_sender item other x xs fut c opened nobody no_sender unwatched front full = (
    record c { buffer = xs },
    record c { buffer = xs ++ other ∷ [] },
    ground arith,
    ground arith,
    ground arith,
    ground arith,
    ground (arith, length-append xs (other ∷ [])),
    no_sender,
  )
