-- ===== src/WebSocket/Reader/Fragments.antt =====
-- A fragmented message is put together, also with control frames between its fragments.
use gsyncio.Common.{
  ℕ, ◌+◌, ◌≤◌, ◌≡◌, ◌≢◌, refl, true, false, Option, List, [], ◌∷◌, ◌++◌, arith, length,
  length-append,
}
use mathlib.Core.List.{append_assoc, append-nil}
use gsyncio.WebSocket.Reader.{
  Frame, receive_bytes, Reader, max_ws_message_size, deliver, process, process_data,
  process_continuation, run_frames,
}

-- What may come between the first and the last fragment of a message.
pub data Piece : Type 0 where
  fragment : (payload : List ℕ) → Piece
  ping : (payload : List ℕ) → Piece
  pong : (payload : List ℕ) → Piece

abbrev pub piece_frame : Piece → Frame
piece_frame (fragment payload) = record { fin = false; opcode = 0; payload = payload }
piece_frame (ping payload) = record { fin = true; opcode = 9; payload = payload }
piece_frame (pong payload) = record { fin = true; opcode = 10; payload = payload }

-- The frames of the pieces and of the last fragment.
abbrev pub frames_of : List Piece → List ℕ → List Frame
frames_of [] last = record { fin = true; opcode = 0; payload = last } ∷ []
frames_of (p ∷ pieces) last = piece_frame p ∷ frames_of pieces last

-- The bytes of the message behind the first fragment.
abbrev pub content : List Piece → List ℕ → List ℕ
content [] last = last
content (fragment payload ∷ pieces) last = payload ++ content pieces last
content (ping payload ∷ pieces) last = content pieces last
content (pong payload ∷ pieces) last = content pieces last

-- The answers to the pings.
abbrev pub pongs : List Piece → List (ℕ × List ℕ)
pongs [] = []
pongs (fragment payload ∷ pieces) = pongs pieces
pongs (ping payload ∷ pieces) = (10, payload) ∷ pongs pieces
pongs (pong payload ∷ pieces) = pongs pieces

module _ {T : Type 0} (decode : List ℕ → Option T) where
  run-rest :
      (pieces : List Piece) (last buffer : List ℕ) (r : Reader T)
      → r.is_closed ≡ false
      → r.fragmented_opcode ≢ 0
      → r.fragment_buffer ≡ buffer
      → length buffer + length (content pieces last) ≤ max_ws_message_size
      → run_frames decode (frames_of pieces last) r
        ≡ (deliver decode r.fragmented_opcode (buffer ++ content pieces last) (record r {
          fragment_buffer = [];
          fragmented_opcode = 0;
          sent = r.sent ++ pongs pieces;
        })).0
  unfolding run_frames process process_continuation
  run-rest [] last buffer r live some_op held small = ground (arith, append-nil r.sent)
  run-rest (fragment payload ∷ pieces) last buffer r live some_op held small =
      let rest = content pieces last in
      let ih =
        run-rest pieces last (buffer ++ payload)
          (record r { fragment_buffer = r.fragment_buffer ++ payload }) live some_op (rw held)
          (omega (arith, small, length-append payload rest, length-append buffer payload)) in
      ground (
        arith,
        ih,
        append_assoc buffer payload rest,
        length-append payload rest,
        length-append buffer payload,
      )
  run-rest (ping payload ∷ pieces) last buffer r live some_op held small =
      let ih =
        run-rest pieces last buffer (record r { sent = r.sent ++ (10, payload) ∷ [] }) live some_op
          held small in
      ground (arith, ih, append_assoc r.sent ((10, payload) ∷ []) (pongs pieces))
  run-rest (pong payload ∷ pieces) last buffer r live some_op held small =
      ground (arith, run-rest pieces last buffer r live some_op held small)

  -- A binary message that comes in fragments, with any pings and pongs between them, reaches the
  -- application as one message, the fragments' bytes in order; each ping is answered with its own
  -- payload, in order; nothing else is sent, and the reader is ready for the next message. The
  -- message must fit into the size limit, and no other message may be under way.
  pub fragments_make_one_message :
      (first : List ℕ) (pieces : List Piece) (last : List ℕ) (r : Reader T)
      → r.is_closed ≡ false
      → r.fragmented_opcode ≡ 0
      → length first + length (content pieces last) ≤ max_ws_message_size
      → run_frames decode
          (record { fin = false; opcode = 2; payload = first } ∷ frames_of pieces last)
          r
        ≡ record r {
          fragment_buffer = [];
          fragmented_opcode = 0;
          sent = r.sent ++ pongs pieces;
          inbound = r.inbound ++ receive_bytes (first ++ content pieces last) ∷ [];
        }
  unfolding run_frames process process_data deliver
  fragments_make_one_message first pieces last r live idle small =
      let r' = record r { fragmented_opcode = 2; fragment_buffer = first } in
      ground (arith, run-rest pieces last first r' live (λ e. ground arith) refl small)
