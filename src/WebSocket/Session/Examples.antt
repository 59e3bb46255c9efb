-- ===== src/WebSocket/Session/Examples.antt =====
-- A session at concrete inputs: a text is its own encoding.
use gsyncio.Common.{ℕ, true, List, [], ◌∷◌}
use gsyncio.WebSocket.Reader.{closed, Message, receive_text, receive_bytes}
use gsyncio.WebSocket.Session.{Session, init}

abbrev utf8 : List ℕ → List ℕ
utf8 t = t

abbrev queued : List (Message (List ℕ))
queued = receive_text (104 ∷ []) ∷ receive_bytes (7 ∷ []) ∷ []

abbrev ended_session : Session (List ℕ)
ended_session = record init {
  state = closed;
  connect_sent = true;
  is_closed = true;
  inbound = queued;
}
