-- ===== src/WebSocket/Session.antt =====
-- src/multiloop/_websocket.py: the ASGI session around the reader, `run`, `receive` and `send` on the
-- connection's own loop. Texts are a parameter, with their UTF-8 encoding; `accept_key` is the value
-- of `_accept_key`.
pub mod Exchange
mod Examples
use gsyncio.Common.{
  ℕ, zero, suc, ◌*◌, Bool, true, false, not, Option, none, some, List, [], ◌∷◌, ◌++◌, if◌then◌else◌,
  leb, is_empty, length, codes, Exception, other_error,
}
use gsyncio.WebSocket.Frame.{pack, frame_bytes}
use gsyncio.WebSocket.Reader.{
  WebSocketState, connecting, opened, closing, closed, Message, disconnect,
}

-- The messages that an application sends.
pub data Outgoing (T : Type 0) : Type 0 where
  accept : (subprotocol : List ℕ) → Outgoing T
  send_text : T → Outgoing T
  send_bytes : List ℕ → Outgoing T
  send_nothing unknown : Outgoing T
  close : (code : ℕ) (reason : T) → Outgoing T

-- What `receive` gives it; it may have to wait for a message.
pub data Incoming (T : Type 0) : Type 0 where
  connect : Incoming T
  item : Message T → Incoming T
  awaits : Incoming T

-- The attributes that change: `inbound` are the messages in `_inbound_channel`, `wire` the arguments
-- of `writer.write`, both oldest first.
pub record Session (T : Type 0) : Type 0 where
  pub state : WebSocketState
  pub connect_sent : Bool
  pub handshake_done : Bool
  pub is_closed : Bool
  pub inbound : List (Message T)
  pub wire : List (List ℕ)
  pub writer_closed : Bool

-- `__init__`
abbrev pub init : {T : Type 0} → Session T
init = record {
  state = connecting;
  connect_sent = false;
  handshake_done = false;
  is_closed = false;
  inbound = [];
  wire = [];
  writer_closed = false;
}

-- Lines with CR LF between them.
unfoldable pub join_lines : List (List ℕ) → List ℕ
join_lines [] = []
join_lines (line ∷ []) = line
join_lines (line ∷ next ∷ rest) = line ++ 13 ∷ 10 ∷ join_lines (next ∷ rest)

-- The response that switches protocols.
unfoldable pub accept_response : List ℕ → List ℕ → List ℕ
accept_response accept_key subprotocol =
    let chosen =
      if is_empty subprotocol then [] else (codes "Sec-WebSocket-Protocol: " ++ subprotocol) ∷ [] in
    join_lines (
      codes "HTTP/1.1 101 Switching Protocols"
      ∷ codes "Upgrade: websocket"
      ∷ codes "Connection: Upgrade"
      ∷ (codes "Sec-WebSocket-Accept: " ++ accept_key)
      ∷ (chosen ++ [] ∷ [] ∷ []))

-- The response to a connection that the application closes before it accepts it.
unfoldable pub forbidden : List ℕ
forbidden = join_lines (
    codes "HTTP/1.1 403 Forbidden"
    ∷ codes "content-length: 0"
    ∷ codes "connection: close"
    ∷ []
    ∷ []
    ∷ [])

-- `receive`. The channel is closed only behind the application's end.
unfoldable pub receive : {T : Type 0} → Session T → Session T × Incoming T
receive s =
    if not s.connect_sent then (record s { connect_sent = true }, connect) else elim s.inbound [
      | [] ↦ (s, if s.is_closed then item (disconnect 1000) else awaits)
      | m ∷ rest ↦ (record s { inbound = rest }, item m)
    ]

-- The `finally` branch of `run`.
unfoldable pub finish : {T : Type 0} → Session T → Session T
finish s = record s { state = closed; is_closed = true }

module _ {T : Type 0} (accept_key : List ℕ) (encode : T → List ℕ) where
  abbrev pub write : List ℕ → Session T → Session T
  write bytes s = record s { wire = s.wire ++ bytes ∷ [] }

  -- `websocket.close` of a session that was accepted; a code beyond 16 bits makes `struct.pack` raise.
  unfoldable pub close_open : ℕ → T → Session T → Session T × Option Exception
  close_open code reason s =
      if leb (256 * 256) code then (record s { state = closing }, some other_error) else (
        record s {
          state = closed;
          is_closed = true;
          wire = s.wire ++ frame_bytes 8 (pack 2 code ++ encode reason) ∷ [];
          writer_closed = true;
        },
        none,
      )

  -- `send`, with the exception that it raises, if any.
  unfoldable pub send : Outgoing T → Session T → Session T × Option Exception
  send (accept subprotocol) s = (
    record s {
      wire = s.wire ++ accept_response accept_key subprotocol ∷ [];
      state = opened;
      handshake_done = true;
    },
    none,
  )
  send (send_text text) s = (write (frame_bytes 1 (encode text)) s, none)
  send (send_bytes payload) s = (write (frame_bytes 2 payload) s, none)
  send send_nothing s = (s, none)
  send unknown s = (s, none)
  send (close code reason) s = if s.handshake_done then close_open code reason s else (
    record s {
      state = closed;
      is_closed = true;
      wire = s.wire ++ forbidden ∷ [];
      writer_closed = true;
    },
    none,
  )

  -- The application sends messages until one raises.
  unfoldable pub send_all : List (Outgoing T) → Session T → Session T × Option Exception
  send_all [] s = (s, none)
  send_all (m ∷ messages) s = elim (send m s).1 [
    | none ↦ send_all messages (send m s).0
    | some e ↦ ((send m s).0, some e)
  ]
