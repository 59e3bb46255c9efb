-- ===== src/Channel.antt =====
-- src/multiloop/primitives.py, class Channel on the compiled RawAsyncChannel, and the probes of
-- select_channel. A coroutine is cut at its `await`.
pub mod Raw
pub mod System
pub mod Invariant
pub mod Sends
pub mod Order
pub mod Loss
pub mod Select
mod Examples
use gsyncio.Common.{
  ℕ, ◌-◌, Bool, true, false, not, ◌||◌, ◌&&◌, Option, none, some, List, [], ◌∷◌, ◌++◌,
  if◌then◌else◌, ltb, leb, ◌==◌, length, is_empty, Exception, channel_closed, would_block, Result,
  ok, err,
}
use gsyncio.Channel.Raw.{
  ChannelState, Wake, try_send, try_recv, register_getter, unregister_getter, register_putter,
  unregister_putter,
}

-- A RuntimeError of the compiled object becomes a ChannelClosedError.
abbrev pub closed_error : {B : Type 0} → Result B → Result B
closed_error (ok b) = ok b
closed_error (err e) = err channel_closed

-- Where a task is in `send`.
pub data SendAt : Type 0 where
  trying registering retrying awaiting returned : SendAt

module _ {A : Type 0} where
  -- `try_send`
  unfoldable pub send_now : A → ChannelState A → Result (ChannelState A × Bool × List (Wake A))
  send_now item s = closed_error (try_send item s)

  -- `try_recv`
  unfoldable pub recv_now : ChannelState A → Result (ChannelState A × A × List (Wake A))
  recv_now s = elim (try_recv s) [
    | err e ↦ err channel_closed
    | ok (s', none, wakes) ↦ err would_block
    | ok (s', some item, wakes) ↦ ok (s', item, wakes)
  ]

  -- `empty` and `full`
  unfoldable pub empty : ChannelState A → Bool
  empty s = is_empty s.buffer

  unfoldable pub full : ChannelState A → Bool
  full s = ltb 0 s.maxsize && leb s.maxsize (length s.buffer)

  -- A critical section of `send`, by the place where the task is. Its first try, its registration
  -- and its second try take the mutex one after another; behind `await fut` the loop begins anew.
  unfoldable pub send_step :
      ℕ → A → SendAt → ChannelState A → Result (ChannelState A × SendAt × List (Wake A))
  send_step fut item trying s = elim (send_now item s) [
    | err e ↦ err e
    | ok (s', true, wakes) ↦ ok (s', returned, wakes)
    | ok (s', false, wakes) ↦ ok (s', registering, wakes)
  ]
  send_step fut item registering s = elim (register_putter fut s) [
    | err e ↦ err channel_closed
    | ok (s', true) ↦ ok (s', retrying, [])
    | ok (s', false) ↦ ok (s', awaiting, [])
  ]
  send_step fut item retrying s = elim (send_now item s) [
    | err e ↦ err e
    | ok (s', true, wakes) ↦ ok (s', returned, wakes)
    | ok (s', false, wakes) ↦ ok (s', awaiting, wakes)
  ]
  send_step fut item awaiting s = ok (s, trying, [])
  send_step fut item returned s = ok (s, returned, [])

  -- `recv` up to its `await`: an item, or none if the task waits for the future.
  unfoldable pub begin_recv :
      ℕ → ChannelState A → Result (ChannelState A × Option A × List (Wake A))
  begin_recv fut s = elim (try_recv s) [
    | err e ↦ err channel_closed
    | ok (s', some item, wakes) ↦ ok (s', some item, wakes)
    | ok (s', none, wakes) ↦ closed_error (register_getter fut s')
  ]

  -- `_wake_fut` with an item: it completes the future, or, if that is done already, sends the item
  -- again and passes over the outcome.
  unfoldable pub wake_fut : (done : Bool) → A → ChannelState A → ChannelState A × List (Wake A)
  wake_fut done item s =
      if done && not s.is_closed
      then elim (try_send item s) [ err e ↦ (s, []) | ok (s', sent, wakes) ↦ (s', wakes) ]
      else (s, [])
