-- ===== src/Channel/Order.antt =====
-- Cancellations, selectors and the close keep the invariant; so it holds in every state reached.
use gsyncio.Common.{
  ℕ, suc, ◌+◌, ◌≤◌, ◌<◌, ◌≡◌, ◌⊎◌, inl, inr, true, false, some, List, [], ◌∷◌, ◌++◌, map, arith,
  length, length-append, remove, retain, retain-nil, append-nil, Bool-cases, List-cases,
}
use gsyncio.Common.Transition.{Reach, Reach-invariant}
use gsyncio.Channel.Raw.{
  ChannelState, Wake, deliver, room, fails, selects, close, pass_turn, unregister_getter,
  unregister_putter, register_select_watcher, unregister_select_watcher, forward_select_wakeup,
}
use gsyncio.Channel.System.{
  System, fresh, Action, sends, registers_putter, cancels_putter, sends_again, receives, closes,
  forwards, registers_getter, cancels_getter, watches, unwatches, delivered, told_room, step,
}
use gsyncio.Channel.Invariant.{Inv, registers_putter-Inv, receives-Inv, registers_getter-Inv}
use gsyncio.Channel.Sends.{sends-Inv, sends_again-Inv}

-- At most one entry goes.
length-remove_le : (a : ℕ) (xs : List ℕ) → length xs ≤ suc (length (remove a xs))
unfolding remove
length-remove_le a [] = omega arith
length-remove_le a (x ∷ xs) = ground (arith, length-remove_le a xs)

module _ {A : Type 0} where
  watches-Inv : (fut : ℕ) (s t : System A) → step (watches fut) s ≡ some t → Inv s → Inv t
  unfolding step register_select_watcher
  watches-Inv fut s t e v = ground arith

  unwatches-Inv : (fut : ℕ) (s t : System A) → step (unwatches fut) s ≡ some t → Inv s → Inv t
  unfolding step unregister_select_watcher
  unwatches-Inv fut s t e v = ground (arith, retain-nil fut s.channel.select_watchers)

  -- Wakes that hand nothing out and tell nobody of room.
  pub record Quiet (wakes : List (Wake A)) : Type 0 where
    pub gives : delivered wakes ≡ []
    pub tells : told_room wakes ≡ []

  Quiet-append : (ws vs : List (Wake A)) → Quiet ws → Quiet vs → Quiet (ws ++ vs)
  Quiet-append [] vs q r = r
  Quiet-append (deliver fut item ∷ ws) vs q r = absurd (ground (arith, q.gives))
  Quiet-append (room fut ∷ ws) vs q r = absurd (ground (arith, q.tells))
  Quiet-append (fails fut ∷ ws) vs q r = ground (arith, Quiet-append ws vs (ground arith) r)
  Quiet-append (selects fut ∷ ws) vs q r = ground (arith, Quiet-append ws vs (ground arith) r)

  map-fails-Quiet : (futs : List ℕ) → Quiet (map fails futs)
  map-fails-Quiet [] = ground arith
  map-fails-Quiet (fut ∷ futs) = ground (arith, map-fails-Quiet futs)

  map-selects-Quiet : (futs : List ℕ) → Quiet (map selects futs)
  map-selects-Quiet [] = ground arith
  map-selects-Quiet (fut ∷ futs) = ground (arith, map-selects-Quiet futs)

  close_wakes : (c : ChannelState A) → Quiet (close c).1
  unfolding close
  close_wakes c = elim (Bool-cases c.is_closed) [
    | inl closed ↦ ground arith
    | inr opened ↦ rw opened (
        Quiet-append _ _ (map-fails-Quiet c.getters)
          (Quiet-append _ _ (map-fails-Quiet c.putters) (map-selects-Quiet c.select_watchers)))
  ]

  close_state :
      (c : ChannelState A)
      → ((close c).0 ≡ c)
        ⊎ ((close c).0
            ≡ record c { is_closed = true; getters = []; putters = []; select_watchers = [] })
  unfolding close
  close_state c = elim (Bool-cases c.is_closed) [
    | inl closed ↦ inl (rw closed)
    | inr opened ↦ inr (rw opened)
  ]

  closes-Inv : (s t : System A) → step closes s ≡ some t → Inv s → Inv t
  unfolding step
  closes-Inv s t e v =
      let quiet = close_wakes s.channel in
      ground (
        arith,
        close_state s.channel,
        quiet.gives,
        quiet.tells,
        append-nil s.told,
        append-nil s.handed,
      )

  cancels_getter-Inv :
      (fut : ℕ) (s t : System A) → step (cancels_getter fut) s ≡ some t → Inv s → Inv t
  unfolding step unregister_getter pass_turn
  cancels_getter-Inv fut s t e v =
      ground (arith, retain-nil fut s.channel.getters, append-nil s.told, append-nil s.handed)

  cancels_putter-Inv :
      (fut : ℕ) (s t : System A) → step (cancels_putter fut) s ≡ some t → Inv s → Inv t
  unfolding step unregister_putter
  cancels_putter-Inv fut s t e v = elim (List-cases (retain fut s.channel.putters)) [
    | inl none_left ↦
        ground (arith, retain-nil fut s.channel.putters, append-nil s.told, append-nil s.handed)
    | inr (p, putters, left) ↦ ground (
      arith,
      length-append (remove fut s.told) (p ∷ []),
      length-remove_le fut s.told,
      retain-nil fut s.channel.putters,
      append-nil s.told,
      append-nil (remove fut s.told),
      append-nil s.handed,
    )
  ]

  forwards-Inv : (s t : System A) → step forwards s ≡ some t → Inv s → Inv t
  unfolding step forward_select_wakeup
  forwards-Inv s t e v = ground (arith, append-nil s.told, append-nil s.handed)

  pub step-Inv : (a : Action A) (s t : System A) → step a s ≡ some t → Inv s → Inv t
  step-Inv (sends item) = sends-Inv item
  step-Inv (registers_putter fut) = registers_putter-Inv fut
  step-Inv (cancels_putter fut) = cancels_putter-Inv fut
  step-Inv (sends_again fut item) = sends_again-Inv fut item
  step-Inv receives = receives-Inv
  step-Inv closes = closes-Inv
  step-Inv forwards = forwards-Inv
  step-Inv (registers_getter fut) = registers_getter-Inv fut
  step-Inv (cancels_getter fut) = cancels_getter-Inv fut
  step-Inv (watches fut) = watches-Inv fut
  step-Inv (unwatches fut) = unwatches-Inv fut

  fresh-Inv : (maxsize : ℕ) → Inv {A = A} (fresh maxsize)
  fresh-Inv maxsize = ground arith

  pub Reach-Inv : (maxsize : ℕ) {s : System A} → Reach step (fresh maxsize) s → Inv s
  Reach-Inv maxsize r = Reach-invariant step Inv step-Inv (fresh-Inv maxsize) r

  -- For every list of critical sections on a fresh channel: the items handed out, then those in the
  -- buffer, are the accepted items in the order in which they were accepted.
  pub fifo :
      (maxsize : ℕ) (s : System A)
      → Reach step (fresh maxsize) s
      → s.handed ++ s.channel.buffer ≡ s.accepted
  fifo maxsize s r = (Reach-Inv maxsize r).ordered

  -- While a sender is queued, the channel is bounded, and the items in the buffer and the senders
  -- that were told of room and have not tried again fill it together.
  pub no_sender_forgotten :
      (maxsize : ℕ) (s : System A) (p : ℕ) (rest : List ℕ)
      → Reach step (fresh maxsize) s
      → s.channel.putters ≡ p ∷ rest
      → (0 < s.channel.maxsize) × (s.channel.maxsize ≤ length s.channel.buffer + length s.told)
  no_sender_forgotten maxsize s p rest r e = let v = Reach-Inv maxsize r in ground arith

  -- In every state reached from a fresh channel no receiver is queued, or the buffer is empty and
  -- the channel is open.
  pub receivers_wait_for_items :
      (maxsize : ℕ) (s : System A)
      → Reach step (fresh maxsize) s
      → (s.channel.getters ≡ []) ⊎ ((s.channel.buffer ≡ []) × (s.channel.is_closed ≡ false))
  receivers_wait_for_items maxsize s r = let v = Reach-Inv maxsize r in ground arith
