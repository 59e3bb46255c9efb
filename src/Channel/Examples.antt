-- ===== src/Channel/Examples.antt =====
-- The channel at concrete schedules: items 10, 11 and 12, and futures 1, 2 and 3.
use gsyncio.Common.{
  ℕ, ◌+◌, ◌≤◌, ◌<◌, ◌≡◌, refl, ◌⊎◌, true, false, List, [], ◌∷◌, ◌++◌, arith, length, contains,
  get_or, ok, some,
}
use gsyncio.Common.Transition
use gsyncio.Channel.Raw.{
  ChannelState, Wake, deliver, new, enqueue, try_send, take_item, try_recv, unregister_getter,
  register_putter,
}
use gsyncio.Channel.{recv_now, wake_fut, trying, registering, retrying, awaiting, send_step}
use gsyncio.Channel.System.{System, fresh, delivered, sends, registers_putter, receives, step}
use gsyncio.Channel.Order.{fifo, no_sender_forgotten, receivers_wait_for_items}
use gsyncio.Channel.Loss.{lost_item, resent_item, sleeping_sender}
use gsyncio.Channel.Select.{probe, probes, probes-some}

-- Room for one item, which is taken; a second sender queues up.
abbrev one_item : System ℕ
one_item = record (fresh 1) { channel = record (new 1) { buffer = 10 ∷ [] }; accepted = 10 ∷ [] }

abbrev sender_waits : System ℕ
sender_waits = record one_item { channel = record (new 1) { buffer = 10 ∷ []; putters = 2 ∷ [] } }

-- The item is received, and the sender is told of room.
abbrev sender_told : System ℕ
sender_told = record (fresh 1) { accepted = 10 ∷ []; handed = 10 ∷ []; told = 2 ∷ [] }

one_item_reached : Transition.Reach step (fresh 1) one_item
unfolding step try_send enqueue
one_item_reached = Transition.next (sends 10) Transition.start refl

sender_waits_reached : Transition.Reach step (fresh 1) sender_waits
unfolding step register_putter
sender_waits_reached = Transition.next (registers_putter 2) one_item_reached refl

sender_told_reached : Transition.Reach step (fresh 1) sender_told
unfolding step try_recv take_item
sender_told_reached = Transition.next receives sender_waits_reached refl

fifo_example : sender_told.handed ++ sender_told.channel.buffer ≡ sender_told.accepted
fifo_example = fifo 1 sender_told sender_told_reached

no_sender_forgotten_example :
    (0 < sender_waits.channel.maxsize)
    × (sender_waits.channel.maxsize ≤ length sender_waits.channel.buffer + length sender_waits.told)
no_sender_forgotten_example = no_sender_forgotten 1 sender_waits 2 [] sender_waits_reached refl

receivers_wait_for_items_example :
    (sender_told.channel.getters ≡ [])
    ⊎ ((sender_told.channel.buffer ≡ []) × (sender_told.channel.is_closed ≡ false))
receivers_wait_for_items_example = receivers_wait_for_items 1 sender_told sender_told_reached

-- Receivers 1 and 2 wait.
abbrev two_receivers : ChannelState ℕ
two_receivers = record (new 1) { getters = 1 ∷ 2 ∷ [] }

lost_item_example :
    (c' : ChannelState ℕ) × (wakes : List (Wake ℕ)) × (try_send 10 two_receivers
      ≡ ok (c', true, deliver 1 10 ∷ wakes))
    × (let delivery = wake_fut false 10 c' in
        let cancellation = unregister_getter 1 delivery.0 in
        delivered (delivery.1 ++ cancellation.2) ++ cancellation.0.buffer ≡ [])
    × (let cancellation = unregister_getter 1 c' in
        let delivery = wake_fut true 10 cancellation.0 in
        delivered (cancellation.2 ++ delivery.1) ++ delivery.0.buffer ≡ 10 ∷ [])
unfolding contains
lost_item_example = lost_item 10 1 (2 ∷ []) two_receivers refl refl refl refl

resent_item_example :
    (wake_fut {A = ℕ} true 10 (record (new 2) { buffer = 11 ∷ [] })).0.buffer ≡ 11 ∷ 10 ∷ []
resent_item_example = resent_item 10 (record (new 2) { buffer = 11 ∷ [] }) refl refl refl

abbrev full_channel : ChannelState ℕ
full_channel = record (new 1) { buffer = 12 ∷ [] }

sleeping_sender_example :
    (taken filled : ChannelState ℕ) × (send_step 2 10 trying full_channel
      ≡ ok (full_channel, registering, []))
    × (try_recv full_channel ≡ ok (taken, some 12, []))
    × (send_step 2 10 registering taken ≡ ok (taken, retrying, []))
    × (try_send 11 taken ≡ ok (filled, true, []))
    × (send_step 2 10 retrying filled ≡ ok (filled, awaiting, []))
    × (filled.putters ≡ [])
sleeping_sender_example = sleeping_sender 10 11 12 [] 2 full_channel refl refl refl refl refl refl

-- The second of three channels has items.
abbrev three_channels : List (ChannelState ℕ)
three_channels = new 1 ∷ record (new 0) { buffer = 10 ∷ 11 ∷ [] } ∷ new 0 ∷ []

probes-some_example :
    (1 < length three_channels)
    × ((get_or three_channels 1 (new 0)).buffer ≡ 10 ∷ (record (new 0) { buffer = 11 ∷ [] }).buffer)
unfolding probes probe recv_now try_recv take_item
probes-some_example =
    probes-some 2 1 three_channels (record (new 0) { buffer = 11 ∷ [] }) 10 [] refl (omega arith)
