-- ===== src/Channel/System.antt =====
-- Tasks and threads on one channel: each action is one critical section, in any order.
use gsyncio.Common.{
  ℕ, Bool, true, false, Option, none, some, List, [], ◌∷◌, ◌++◌, if◌then◌else◌, contains, remove,
  Result, ok, err,
}
use gsyncio.Channel.Raw.{
  ChannelState, Wake, deliver, room, fails, selects, new, close, try_send, try_recv,
  register_getter, unregister_getter, register_putter, unregister_putter, register_select_watcher,
  unregister_select_watcher, forward_select_wakeup,
}

-- The channel; the items it has accepted; the items it has handed out, to a caller or to a waiting
-- future; and the senders that were told of room and have not tried again. All oldest first.
pub record System (A : Type 0) : Type 0 where
  pub channel : ChannelState A
  pub accepted : List A
  pub handed : List A
  pub told : List ℕ

abbrev pub fresh : {A : Type 0} → ℕ → System A
fresh maxsize = record { channel = new maxsize; accepted = []; handed = []; told = [] }

-- Senders try, register, try again when told, and are cancelled; receivers and selectors likewise.
pub data Action (A : Type 0) : Type 0 where
  sends : (item : A) → Action A
  registers_putter cancels_putter : (fut : ℕ) → Action A
  sends_again : (fut : ℕ) (item : A) → Action A
  receives closes forwards : Action A
  registers_getter cancels_getter watches unwatches : (fut : ℕ) → Action A

-- The items that wakes hand out, and the senders that they tell of room.
abbrev pub delivered : {A : Type 0} → List (Wake A) → List A
delivered [] = []
delivered (deliver fut item ∷ wakes) = item ∷ delivered wakes
delivered (room fut ∷ wakes) = delivered wakes
delivered (fails fut ∷ wakes) = delivered wakes
delivered (selects fut ∷ wakes) = delivered wakes

abbrev pub told_room : {A : Type 0} → List (Wake A) → List ℕ
told_room [] = []
told_room (room fut ∷ wakes) = fut ∷ told_room wakes
told_room (deliver fut item ∷ wakes) = told_room wakes
told_room (fails fut ∷ wakes) = told_room wakes
told_room (selects fut ∷ wakes) = told_room wakes

module _ {A : Type 0} where
  -- A new channel state and its wakes.
  abbrev pub after : System A → ChannelState A → List (Wake A) → System A
  after s channel wakes = record s {
    channel = channel;
    handed = s.handed ++ delivered wakes;
    told = s.told ++ told_room wakes;
  }

  -- What a method that gives an item hands out besides its wakes.
  abbrev pub took : System A → Option A → System A
  took s none = s
  took s (some item) = record s { handed = s.handed ++ item ∷ [] }

  abbrev pub received : System A → Result (ChannelState A × Option A × List (Wake A)) → System A
  received s (err e) = s
  received s (ok (channel, item, wakes)) = after (took s item) channel wakes

  abbrev pub sent : System A → A → Result (ChannelState A × Bool × List (Wake A)) → System A
  sent s item (err e) = s
  sent s item (ok (channel, false, wakes)) = after s channel wakes
  sent s item (ok (channel, true, wakes)) =
      after (record s { accepted = s.accepted ++ item ∷ [] }) channel wakes

  abbrev pub registered : System A → Result (ChannelState A × Bool) → System A
  registered s (err e) = s
  registered s (ok (channel, r)) = record s { channel = channel }

  -- A sender whose future is still queued has not been told of room.
  unfoldable pub step : Action A → System A → Option (System A)
  step (sends item) s = some (sent s item (try_send item s.channel))
  step (registers_putter fut) s = some (registered s (register_putter fut s.channel))
  step (sends_again fut item) s =
      if contains fut s.told
      then some (sent (record s { told = remove fut s.told }) item (try_send item s.channel))
      else none
  step (cancels_putter fut) s =
      let (channel, removed, wakes) = unregister_putter fut s.channel in
      let told = if removed then s.told else remove fut s.told in
      some (after (record s { told = told }) channel wakes)
  step receives s = some (received s (try_recv s.channel))
  step (registers_getter fut) s = some (received s (register_getter fut s.channel))
  step (cancels_getter fut) s =
      let (channel, removed, wakes) = unregister_getter fut s.channel in
      some (after s channel wakes)
  step (watches fut) s = some (record s { channel = (register_select_watcher fut s.channel).0 })
  step (unwatches fut) s = some (record s { channel = (unregister_select_watcher fut s.channel).0 })
  step forwards s =
      let (channel, wakes) = forward_select_wakeup s.channel in some (after s channel wakes)
  step closes s = let (channel, wakes) = close s.channel in some (after s channel wakes)
