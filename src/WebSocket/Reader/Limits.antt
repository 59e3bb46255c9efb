-- ===== src/WebSocket/Reader/Limits.antt =====
-- What the reader keeps within bounds, whatever frames arrive.
use gsyncio.Common.{
  ℕ, ◌≤◌, ◌≡◌, ◌≢◌, true, Option, List, [], ◌∷◌, ◌⊎◌, arith, length, length-append,
}
use gsyncio.WebSocket.Reader.{
  Frame, Reader, max_ws_message_size, fail, deliver, process, process_data, process_continuation,
  process_close, run_frames,
}

module _ {T : Type 0} (decode : List ℕ → Option T) where
  abbrev Bounded : Reader T → Type 0
  Bounded r = length r.fragment_buffer ≤ max_ws_message_size

  process-Bounded : (f : Frame) (r : Reader T) → Bounded r → Bounded (process decode f r).0
  unfolding process process_data process_continuation process_close deliver fail
  process-Bounded f r h = ground (arith, length-append r.fragment_buffer f.payload)

  -- Whatever frames arrive, the bytes collected for an unfinished message never exceed the limit on
  -- messages.
  pub fragment_buffer_bounded :
      (frames : List Frame) (r : Reader T)
      → length r.fragment_buffer ≤ max_ws_message_size
      → length (run_frames decode frames r).fragment_buffer ≤ max_ws_message_size
  unfolding run_frames
  fragment_buffer_bounded [] r h = h
  fragment_buffer_bounded (f ∷ frames) r h = ground (
    arith,
    process-Bounded f r h,
    fragment_buffer_bounded frames (process decode f r).0 (process-Bounded f r h),
  )

  -- A continuation frame with no message under way, and a data frame while one is, end the loop with
  -- a close frame of code 1002; but the application gets no message and the connection is not marked
  -- as closed, so a task in `receive` is not told.
  pub protocol_error_not_reported :
      (f : Frame) (r : Reader T)
      → ((f.opcode ≡ 0) × (r.fragmented_opcode ≡ 0))
        ⊎ (((f.opcode ≡ 1) ⊎ (f.opcode ≡ 2)) × (r.fragmented_opcode ≢ 0))
      → ((process decode f r).1 ≡ true)
        × ((process decode f r).0.inbound ≡ r.inbound)
        × ((process decode f r).0.is_closed ≡ r.is_closed)
        × ((process decode f r).0.state ≡ r.state)
  unfolding process process_data process_continuation
  protocol_error_not_reported f r bad = ground arith
