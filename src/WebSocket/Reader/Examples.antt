-- ===== src/WebSocket/Reader/Examples.antt =====
-- The reader at concrete inputs. Texts are byte lists here, and bytes above 127 do not decode.
use gsyncio.Common.{
  ℕ, ◌≤◌, ◌≡◌, inr, refl, Bool, true, false, Option, none, some, List, [], ◌∷◌, arith, length, ltb,
  ◌&&◌, if◌then◌else◌,
}
use gsyncio.WebSocket.Reader.{
  Frame, opened, receive_bytes, Reader, frame, read_frame, run_frames, reader_loop,
  max_ws_message_size,
}
use gsyncio.WebSocket.Reader.Fragments.{fragment, ping, frames_of, fragments_make_one_message}
use gsyncio.WebSocket.Reader.Checks.{client_frame, client_frame_roundtrip}
use gsyncio.WebSocket.Reader.Limits.{fragment_buffer_bounded}
use gsyncio.WebSocket.Reader.Fuel.{reader_loop_ends}

all_ascii : List ℕ → Bool
all_ascii [] = true
all_ascii (b ∷ bytes) = ltb b 128 && all_ascii bytes

decode_ascii : List ℕ → Option (List ℕ)
decode_ascii bytes = if all_ascii bytes then some bytes else none

abbrev idle : Reader (List ℕ)
idle = record {
  state = opened;
  is_closed = false;
  fragment_buffer = [];
  fragmented_opcode = 0;
  sent = [];
  inbound = [];
}

client_frame_roundtrip_example :
    read_frame (client_frame true 9 1 2 3 4 (72 ∷ 105 ∷ []) (7 ∷ []))
    ≡ frame (record { fin = true; opcode = 9; payload = 72 ∷ 105 ∷ [] }) (7 ∷ [])
client_frame_roundtrip_example =
    client_frame_roundtrip true 9 1 2 3 4 (72 ∷ 105 ∷ []) (7 ∷ []) (omega arith) (omega arith)
      (omega arith) (omega arith, inr (omega arith, refl))

abbrev ping_bytes : List ℕ
ping_bytes = 137 ∷ 129 ∷ 1 ∷ 2 ∷ 3 ∷ 4 ∷ 73 ∷ []

fragments_make_one_message_example :
    run_frames decode_ascii
      (record { fin = false; opcode = 2; payload = 1 ∷ [] }
        ∷ frames_of (ping (9 ∷ []) ∷ fragment (2 ∷ []) ∷ []) (3 ∷ []))
      idle
    ≡ record idle { sent = (10, 9 ∷ []) ∷ []; inbound = receive_bytes (1 ∷ 2 ∷ 3 ∷ []) ∷ [] }
fragments_make_one_message_example =
    fragments_make_one_message decode_ascii (1 ∷ []) (ping (9 ∷ []) ∷ fragment (2 ∷ []) ∷ [])
      (3 ∷ []) idle refl refl (omega arith)

fragment_buffer_bounded_example :
    length
      (run_frames decode_ascii
        (record { fin = false; opcode = 1; payload = 72 ∷ [] } ∷ [])
        idle).fragment_buffer
    ≤ max_ws_message_size
fragment_buffer_bounded_example =
    fragment_buffer_bounded decode_ascii
      (record { fin = false; opcode = 1; payload = 72 ∷ [] } ∷ []) idle (omega arith)

abbrev stray : Frame
stray = record { fin = true; opcode = 0; payload = 1 ∷ [] }

reader_loop_ends_example : (r' : Reader _) × (reader_loop decode_ascii 8 ping_bytes idle ≡ some r')
reader_loop_ends_example = reader_loop_ends decode_ascii 8 ping_bytes idle (omega arith)
