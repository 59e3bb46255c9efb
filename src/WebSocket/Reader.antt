-- ===== src/WebSocket/Reader.antt =====
-- src/multiloop/_websocket.py, `_reader_loop` from its fallback branch on: one frame is read with
-- `readexactly`, checked, and processed. Texts are a parameter, with the UTF-8 decoder.
pub mod Fragments
pub mod Checks
pub mod Limits
pub mod Fuel
mod Examples
use gsyncio.Common.{
  ℕ, zero, suc, ◌+◌, ◌*◌, ◌/◌, ◌%◌, Bool, true, false, not, ◌&&◌, ◌||◌, Option, none, some, List,
  [], ◌∷◌, ◌++◌, if◌then◌else◌, ltb, leb, ◌==◌, length, take, drop, codes,
}
use Prim.Native.String.{String}
use gsyncio.WebSocket.Frame.{pack, unpack, parse_head, read_exactly, read_length, unmask}

-- `WebSocketState`
pub data WebSocketState : Type 0 where
  connecting opened closing closed : WebSocketState

abbrev pub max_ws_frame_size : ℕ
max_ws_frame_size = 16 * 1024 * 1024

abbrev pub max_ws_message_size : ℕ
max_ws_message_size = 32 * 1024 * 1024

-- A frame after unmasking.
pub record Frame : Type 0 where
  pub fin : Bool
  pub opcode : ℕ
  pub payload : List ℕ

-- What `_inbound_channel` carries to the application.
pub data Message (T : Type 0) : Type 0 where
  receive_text : T → Message T
  receive_bytes : List ℕ → Message T
  disconnect : (code : ℕ) → Message T

-- The connection with the locals of `_reader_loop`: `sent` are the opcodes and payloads given to
-- `_send_frame`, `inbound` the messages sent into the channel, both oldest first; `is_closed` is
-- `_closed_event`.
pub record Reader (T : Type 0) : Type 0 where
  pub state : WebSocketState
  pub is_closed : Bool
  pub fragment_buffer : List ℕ
  pub fragmented_opcode : ℕ
  pub sent : List (ℕ × List ℕ)
  pub inbound : List (Message T)

-- A close frame with a code and a reason.
abbrev pub close_payload : ℕ → String → List ℕ
close_payload code reason = pack 2 code ++ codes reason

-- What reading one frame gives: a frame and the bytes behind it, a close frame to send before the
-- loop ends, or IncompleteReadError.
pub data Reading : Type 0 where
  frame : Frame → List ℕ → Reading
  refuse : (payload : List ℕ) → Reading
  incomplete : Reading

-- Behind the length: the checks on control frames and on the size, the mask, the payload.
unfoldable pub read_payload : Bool → ℕ → ℕ → List ℕ → Reading
read_payload fin opcode payload_len bytes =
    if leb 8 opcode && (ltb 125 payload_len || not fin)
    then refuse (close_payload 1002 "Invalid Control Frame")
    else (if ltb max_ws_frame_size payload_len
        then refuse (close_payload 1009 "Message Too Big")
        else elim (read_exactly 4 bytes) [
          | none ↦ incomplete
          | some (mask_key, behind) ↦ elim (read_exactly payload_len behind) [
            | none ↦ incomplete
            | some (raw_payload, rest) ↦
                frame
                  (record { fin = fin; opcode = opcode; payload = unmask mask_key 0 raw_payload })
                  rest
          ]
        ])

-- One frame of the byte stream.
unfoldable pub read_frame : List ℕ → Reading
read_frame [] = incomplete
read_frame (b1 ∷ []) = incomplete
read_frame (b1 ∷ b2 ∷ bytes) =
    let head = parse_head b1 b2 in
    if not head.masked
    then refuse (close_payload 1002 "Unmasked Frame")
    else elim (read_length head.short_length bytes) [
      | none ↦ incomplete
      | some (payload_len, rest) ↦ read_payload head.fin head.opcode payload_len rest
    ]

abbrev pub is_closing : WebSocketState → Bool
is_closing closing = true
is_closing _ = false

abbrev pub protocol_error : {T : Type 0} → Reader T → Reader T × Bool
protocol_error r =
    (record r { sent = r.sent ++ (8, close_payload 1002 "Protocol Error") ∷ [] }, true)

module _ {T : Type 0} (decode : List ℕ → Option T) where
  -- A close frame is sent, the application is told, and the connection is closed.
  unfoldable pub fail : ℕ → String → Reader T → Reader T
  fail code reason r = record r {
    sent = r.sent ++ (8, close_payload code reason) ∷ [];
    inbound = r.inbound ++ disconnect code ∷ [];
    state = closed;
    is_closed = true;
  }

  -- A complete message goes to the application; true if the loop ends.
  unfoldable pub deliver : ℕ → List ℕ → Reader T → Reader T × Bool
  deliver opcode payload r =
      if opcode == 1
      then elim (decode payload) [
        | none ↦ (fail 1007 "Invalid UTF-8" r, true)
        | some text ↦ (record r { inbound = r.inbound ++ receive_text text ∷ [] }, false)
      ]
      else (if opcode == 2
          then (record r { inbound = r.inbound ++ receive_bytes payload ∷ [] }, false)
          else (r, false))

  -- A continuation frame.
  unfoldable pub process_continuation : Bool → List ℕ → Reader T → Reader T × Bool
  process_continuation fin payload r =
      let complete = r.fragment_buffer ++ payload in
      if r.fragmented_opcode == 0
      then protocol_error r
      else (if ltb max_ws_message_size (length r.fragment_buffer + length payload)
          then (fail 1009 "Message Too Big" r, true)
          else (if fin
              then deliver r.fragmented_opcode complete
                  (record r { fragment_buffer = []; fragmented_opcode = 0 })
              else (record r { fragment_buffer = complete }, false)))

  -- A text or binary frame.
  unfoldable pub process_data : Bool → ℕ → List ℕ → Reader T → Reader T × Bool
  process_data fin opcode payload r =
      if not (r.fragmented_opcode == 0)
      then protocol_error r
      else (if fin
          then deliver opcode payload r
          else (if ltb max_ws_message_size (length payload)
              then (fail 1009 "Message Too Big" r, true)
              else (record r { fragmented_opcode = opcode; fragment_buffer = payload }, false)))

  -- A close frame is answered once, and the application is told its code.
  unfoldable pub process_close : List ℕ → Reader T → Reader T × Bool
  process_close payload r =
      let code = if leb 2 (length payload) then unpack 0 (take 2 payload) else 1000 in
      let sent = if is_closing r.state then r.sent else r.sent ++ (8, payload) ∷ [] in
      (
        record r {
          sent = sent;
          inbound = r.inbound ++ disconnect code ∷ [];
          state = closed;
          is_closed = true;
        },
        true,
      )

  -- One frame; true if the loop ends.
  unfoldable pub process : Frame → Reader T → Reader T × Bool
  process f r =
      if f.opcode == 0
      then process_continuation f.fin f.payload r
      else (if f.opcode == 1 || (f.opcode == 2)
          then process_data f.fin f.opcode f.payload r
          else (if f.opcode == 9
              then (record r { sent = r.sent ++ (10, f.payload) ∷ [] }, false)
              else (if f.opcode == 8 then process_close f.payload r else (r, false))))

  -- The loop over frames that have arrived.
  unfoldable pub run_frames : List Frame → Reader T → Reader T
  run_frames [] r = r
  run_frames (f ∷ frames) r =
      let (r', stop) = process f r in
      let rest = run_frames frames r' in if r.is_closed then r else (if stop then r' else rest)

  -- The loop over the bytes of the connection; none if `fuel` rounds are not enough.
  unfoldable pub reader_loop : ℕ → List ℕ → Reader T → Option (Reader T)
  reader_loop zero bytes r = none
  reader_loop (suc fuel) bytes r = if r.is_closed then some r else elim (read_frame bytes) [
    | incomplete ↦
        some (record r {
          inbound = r.inbound ++ disconnect 1006 ∷ [];
          state = closed;
          is_closed = true;
        })
    | refuse payload ↦ some (record r { sent = r.sent ++ (8, payload) ∷ [] })
    | frame f rest ↦
        let next = reader_loop fuel rest (process f r).0 in
        if (process f r).1 then some (process f r).0 else next
  ]
