-- ===== src/WebSocket/Session/Exchange.antt =====
-- What a session writes for an application, and what the application gets from it.
use gsyncio.Common.{
  ℕ, zero, suc, ◌+◌, ◌*◌, ◌<◌, ◌≡◌, refl, true, false, leb, List, [], ◌∷◌, ◌++◌, map, replicate,
  length, arith, none, some, ap, ◌∙◌, subst, append_assoc,
}
use gsyncio.WebSocket.Frame.{pack, frame_bytes}
use gsyncio.WebSocket.Reader.{closed, Message, disconnect}
use gsyncio.WebSocket.Session.{
  Outgoing, accept, send_text, send_bytes, close, Incoming, item, Session, init, accept_response,
  receive, write, close_open, send, send_all,
}

-- A data message.
pub data Data (T : Type 0) : Type 0 where
  text : T → Data T
  binary : List ℕ → Data T

abbrev pub outgoing : {T : Type 0} → Data T → Outgoing T
outgoing (text t) = send_text t
outgoing (binary payload) = send_bytes payload

-- Calls of `receive`, in turn.
unfoldable pub receive_all : {T : Type 0} → ℕ → Session T → List (Incoming T)
receive_all zero s = []
receive_all (suc n) s = (receive s).1 ∷ receive_all n (receive s).0

module _ {T : Type 0} where
  receive_one :
      (m : Message T) (rest : List (Message T)) (s : Session T)
      → s.connect_sent ≡ true
      → s.inbound ≡ m ∷ rest
      → receive s ≡ (record s { inbound = rest }, item m)
  unfolding receive
  receive_one m rest s c e = ground arith

  receive_none :
      (s : Session T)
      → s.connect_sent ≡ true
      → s.is_closed ≡ true
      → s.inbound ≡ []
      → receive s ≡ (s, item (disconnect 1000))
  unfolding receive
  receive_none s c d e = ground arith

  receive_closed :
      (n : ℕ) (s : Session T)
      → s.connect_sent ≡ true
      → s.is_closed ≡ true
      → s.inbound ≡ []
      → receive_all n s ≡ replicate n (item (disconnect 1000))
  unfolding receive_all
  receive_closed zero s c d e = refl
  receive_closed (suc n) s c d e =
      ap (λ p. p.1 ∷ receive_all n p.0) (receive_none s c d e)
      ∙ ap (λ t. item (disconnect 1000) ∷ t) (receive_closed n s c d e)

  receive_queued :
      (messages : List (Message T)) (k n : ℕ) (s : Session T)
      → k ≡ length messages + n
      → s.connect_sent ≡ true
      → s.is_closed ≡ true
      → s.inbound ≡ messages
      → receive_all k s ≡ map item messages ++ replicate n (item (disconnect 1000))
  unfolding receive_all
  receive_queued [] k n s h c d e =
      subst (λ j. receive_all j s ≡ replicate n (item (disconnect 1000))) (omega arith)
        (receive_closed n s c d e)
  receive_queued (m ∷ messages) zero n s h c d e = absurd (omega arith)
  receive_queued (m ∷ messages) (suc k) n s h c d e =
      ap (λ p. p.1 ∷ receive_all k p.0) (receive_one m messages s c e)
      ∙ ap (λ t. item m ∷ t)
          (receive_queued messages k n (record s { inbound = messages }) (omega arith) c d refl)

  -- On a session that is closed, an application that goes on receiving gets every message that is
  -- still in the channel, in order, then disconnects with code 1000, as often as it asks; it never
  -- waits.
  pub closed_session_drains :
      (messages : List (Message T)) (n : ℕ) (s : Session T)
      → s.connect_sent ≡ true
      → s.is_closed ≡ true
      → s.inbound ≡ messages
      → receive_all (length messages + n) s
        ≡ map item messages ++ replicate n (item (disconnect 1000))
  closed_session_drains messages n s c d e =
      receive_queued messages (length messages + n) n s refl c d e

module _ {T : Type 0} (accept_key : List ℕ) (encode : T → List ℕ) where
  -- The frame of a data message.
  abbrev pub data_frame : Data T → List ℕ
  data_frame (text t) = frame_bytes 1 (encode t)
  data_frame (binary payload) = frame_bytes 2 payload

  -- What is left of an open session after data messages and a close message.
  abbrev pub ended : List (Data T) → ℕ → T → Session T → Session T
  ended messages code reason s = record s {
    state = closed;
    is_closed = true;
    wire = s.wire ++ (map data_frame messages ++ frame_bytes 8 (pack 2 code ++ encode reason) ∷ []);
    writer_closed = true;
  }

  send-close :
      (code : ℕ) (reason : T) (s : Session T)
      → s.handshake_done ≡ true
      → code < 256 * 256
      → send accept_key encode (close code reason) s ≡ (ended [] code reason s, none)
  unfolding send close_open
  send-close code reason s h lt =
      let small : leb (256 * 256) code ≡ false = ground arith in ground arith

  send_data :
      (messages : List (Data T)) (code : ℕ) (reason : T) (s : Session T)
      → s.handshake_done ≡ true
      → code < 256 * 256
      → send_all accept_key encode (map outgoing messages ++ close code reason ∷ []) s
        ≡ (ended messages code reason s, none)
  unfolding send_all send close_open
  send_data [] code reason s h lt =
      ap (λ p. elim p.1 [ none ↦ send_all accept_key encode [] p.0 | some e ↦ (p.0, some e) ])
        (send-close code reason s h lt)
  send_data (text t ∷ messages) code reason s h lt =
      let s' = write accept_key encode (frame_bytes 1 (encode t)) s in
      send_data messages code reason s' h lt
      ∙ ap (λ w. (record (ended messages code reason s) { wire = w }, none))
          (append_assoc s.wire ((frame_bytes 1 (encode t)) ∷ [])
            (map data_frame messages ++ frame_bytes 8 (pack 2 code ++ encode reason) ∷ []))
  send_data (binary payload ∷ messages) code reason s h lt =
      let s' = write accept_key encode (frame_bytes 2 payload) s in
      send_data messages code reason s' h lt
      ∙ ap (λ w. (record (ended messages code reason s) { wire = w }, none))
          (append_assoc s.wire ((frame_bytes 2 payload) ∷ [])
            (map data_frame messages ++ frame_bytes 8 (pack 2 code ++ encode reason) ∷ []))

  -- An application that accepts, sends data messages and closes with a code of 16 bits, on a new
  -- session: the wire carries the handshake response, one frame for each message, in order, and the
  -- close frame with the code and the reason; the session is closed, and nothing raises.
  pub session_on_the_wire :
      (subprotocol : List ℕ) (messages : List (Data T)) (code : ℕ) (reason : T)
      → code < 256 * 256
      → let after =
          send_all accept_key encode
            (accept subprotocol ∷ (map outgoing messages ++ close code reason ∷ []))
            init in
        (after.1 ≡ none)
        × (after.0.wire
            ≡ accept_response accept_key subprotocol
              ∷ (map data_frame messages ++ frame_bytes 8 (pack 2 code ++ encode reason) ∷ []))
        × (after.0.state ≡ closed)
        × (after.0.is_closed ≡ true)
        × (after.0.writer_closed ≡ true)
  unfolding send_all send
  session_on_the_wire subprotocol messages code reason lt =
      let done =
        send_data messages code reason (send accept_key encode (accept subprotocol) init).0 refl
          lt in
      (
        ap (λ p. p.1) done,
        ap (λ p. p.0.wire) done,
        ap (λ p. p.0.state) done,
        ap (λ p. p.0.is_closed) done,
        ap (λ p. p.0.writer_closed) done,
      )
