-- ===== src/Channel/Raw.antt =====
-- src/channel.rs, RawAsyncChannel: each method runs under the mutex of the state and wakes behind it.
-- A waiter is known by its future; its loop and its channel token are those of the future.
use gsyncio.Common.{
  ℕ, Bool, true, false, not, ◌&&◌, ◌||◌, Option, none, some, List, [], ◌∷◌, ◌++◌, map,
  if◌then◌else◌, ltb, leb, ◌==◌, length, is_empty, contains, retain, runtime_error, Result, ok, err,
}

-- `ChannelState`
pub record ChannelState (A : Type 0) : Type 0 where
  pub maxsize : ℕ
  pub is_closed : Bool
  pub buffer : List A
  pub getters : List ℕ
  pub putters : List ℕ
  pub select_watchers : List ℕ

-- What is scheduled behind the lock (`WakeTarget`): a receiver gets an item, a sender is told that
-- there is room, a receiver or a sender that the channel is closed, a selector that it is ready.
pub data Wake (A : Type 0) : Type 0 where
  deliver : (fut : ℕ) (item : A) → Wake A
  room fails selects : (fut : ℕ) → Wake A

-- `new`
abbrev pub new : {A : Type 0} → ℕ → ChannelState A
new maxsize = record {
  maxsize = maxsize;
  is_closed = false;
  buffer = [];
  getters = [];
  putters = [];
  select_watchers = [];
}

module _ {A : Type 0} where
  -- The buffer can take one more item.
  abbrev pub has_room : ChannelState A → Bool
  has_room s = (s.maxsize == 0) || ltb (length s.buffer) s.maxsize

  unfoldable pub close : ChannelState A → ChannelState A × List (Wake A)
  close s = if s.is_closed then (s, []) else (
    record s { is_closed = true; getters = []; putters = []; select_watchers = [] },
    map fails s.getters ++ (map fails s.putters ++ map selects s.select_watchers),
  )

  -- The loop that wakes senders while the buffer is below its size; it leaves the buffer alone.
  unfoldable pub wake_putters : (below : Bool) → List ℕ → List ℕ × List (Wake A)
  wake_putters below [] = ([], [])
  wake_putters below (p ∷ putters) =
      let rest = wake_putters below putters in
      if below then (rest.0, room p ∷ rest.1) else (p ∷ putters, [])

  -- The first receiver gets the item.
  unfoldable pub hand_to :
      (getter : ℕ) (rest : List ℕ) → A → ChannelState A → ChannelState A × Bool × List (Wake A)
  hand_to getter rest item s =
      let woken = wake_putters (ltb (length s.buffer) s.maxsize) s.putters in
      if ltb 0 s.maxsize
      then (record s { getters = rest; putters = woken.0 }, true, deliver getter item ∷ woken.1)
      else (record s { getters = rest }, true, deliver getter item ∷ [])

  -- No receiver waits: a selector is woken, or the buffer takes the item if it can.
  unfoldable pub enqueue : A → ChannelState A → ChannelState A × Bool × List (Wake A)
  enqueue item s = elim s.select_watchers [
    | w ∷ rest ↦
        (record s { buffer = s.buffer ++ item ∷ []; select_watchers = rest }, true, selects w ∷ [])
    | [] ↦
        if ltb 0 s.maxsize && leb s.maxsize (length s.buffer)
        then (s, false, [])
        else (record s { buffer = s.buffer ++ item ∷ [] }, true, [])
  ]

  unfoldable pub try_send : A → ChannelState A → Result (ChannelState A × Bool × List (Wake A))
  try_send item s =
      if s.is_closed
      then err runtime_error
      else elim s.getters [ g ∷ rest ↦ ok (hand_to g rest item s) | [] ↦ ok (enqueue item s) ]

  -- The first item is taken, and the first sender is told.
  unfoldable pub take_item : (rest : List A) → ChannelState A → ChannelState A × List (Wake A)
  take_item rest s =
      let s' = record s { buffer = rest } in
      if ltb 0 s.maxsize
      then elim s.putters [
        | [] ↦ (s', [])
        | p ∷ putters ↦ (record s' { putters = putters }, room p ∷ [])
      ]
      else (s', [])

  -- `try_recv`; none stands for an empty buffer.
  unfoldable pub try_recv : ChannelState A → Result (ChannelState A × Option A × List (Wake A))
  try_recv s = elim s.buffer [
    | item ∷ rest ↦ ok ((take_item rest s).0, some item, (take_item rest s).1)
    | [] ↦ if s.is_closed then err runtime_error else ok (s, none, [])
  ]

  -- A receiver takes the first item if nobody waits before it, or queues up.
  unfoldable pub register_getter :
      ℕ → ChannelState A → Result (ChannelState A × Option A × List (Wake A))
  register_getter fut s =
      let queued = record s { getters = s.getters ++ fut ∷ [] } in
      let otherwise : Result (ChannelState A × Option A × List (Wake A)) =
        if s.is_closed then err runtime_error else ok (queued, none, []) in
      if is_empty s.getters
      then elim s.buffer [
        | item ∷ rest ↦ ok ((take_item rest s).0, some item, (take_item rest s).1)
        | [] ↦ otherwise
      ]
      else otherwise

  -- A receiver that was taken out of the queue passes its turn on if items are there.
  unfoldable pub pass_turn : ChannelState A → ChannelState A × List (Wake A)
  pass_turn s = elim s.buffer [
    | [] ↦ (s, [])
    | item ∷ rest ↦ elim s.getters [
      | g ∷ getters ↦ (record s { buffer = rest; getters = getters }, deliver g item ∷ [])
      | [] ↦ elim s.select_watchers [
        | w ∷ watchers ↦ (record s { select_watchers = watchers }, selects w ∷ [])
        | [] ↦ (s, [])
      ]
    ]
  ]

  unfoldable pub unregister_getter : ℕ → ChannelState A → ChannelState A × Bool × List (Wake A)
  unregister_getter fut s =
      let removed = contains fut s.getters in
      let s' = record s { getters = retain fut s.getters } in
      let passed = pass_turn s' in if removed then (s', true, []) else (passed.0, false, passed.1)

  -- True if there is room and nobody waits for it; else the sender queues up.
  unfoldable pub register_putter : ℕ → ChannelState A → Result (ChannelState A × Bool)
  register_putter fut s =
      if s.is_closed
      then err runtime_error
      else (if is_empty s.putters && has_room s
          then ok (s, true)
          else ok (record s { putters = s.putters ++ fut ∷ [] }, false))

  unfoldable pub unregister_putter : ℕ → ChannelState A → ChannelState A × Bool × List (Wake A)
  unregister_putter fut s =
      let removed = contains fut s.putters in
      let s' = record s { putters = retain fut s.putters } in
      if removed
      then (s', true, [])
      else (if has_room s
          then elim s'.putters [
            | p ∷ putters ↦ (record s' { putters = putters }, false, room p ∷ [])
            | [] ↦ (s', false, [])
          ]
          else (s', false, []))

  -- False if an item is there, or none will come.
  unfoldable pub register_select_watcher : ℕ → ChannelState A → ChannelState A × Bool
  register_select_watcher fut s =
      if (s.is_closed && is_empty s.buffer) || not (is_empty s.buffer)
      then (s, false)
      else (record s { select_watchers = s.select_watchers ++ fut ∷ [] }, true)

  unfoldable pub unregister_select_watcher : ℕ → ChannelState A → ChannelState A × Bool
  unregister_select_watcher fut s =
      (record s { select_watchers = retain fut s.select_watchers }, contains fut s.select_watchers)

  -- The next selector is woken if an item is there and no receiver waits.
  unfoldable pub forward_select_wakeup : ChannelState A → ChannelState A × List (Wake A)
  forward_select_wakeup s =
      if not (is_empty s.buffer) && is_empty s.getters
      then elim s.select_watchers [
        | w ∷ watchers ↦ (record s { select_watchers = watchers }, selects w ∷ [])
        | [] ↦ (s, [])
      ]
      else (s, [])
