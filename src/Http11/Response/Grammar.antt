-- ===== src/Http11/Response/Grammar.antt =====
-- What an application can put on the wire: an independent description of one response, and that
-- `send` writes it and nothing else.
use gsyncio.Common.{
  ℕ, ◌≡◌, refl, Bool, true, false, not, ◌&&◌, some, List, [], ◌∷◌, ◌++◌, arith, if◌then◌else◌,
  is_empty, ok, Result, none, Exception,
}
use gsyncio.Http11.Response.{
  Message, response_body, Cycle, is_no_body, send_first, send_chunk, send, play, Sending,
  await_drain, end_first,
}

-- Messages whose errors the application leaves to the server, with no cancellation.
abbrev pub plain : {H : Type 0} → List (Message H) → List (Sending H)
plain [] = []
plain (m ∷ messages) = record { message = m; handles = false; drained = true } ∷ plain messages

-- No wait of the call is cancelled.
abbrev pub Drained : {H : Type 0} → Sending H → Type 0
Drained s = s.drained ≡ true

module _ {H : Type 0} where
  -- The messages of a body in parts; the last part is final if `complete`.
  abbrev pub bodies : List (List ℕ) → (complete : Bool) → List (Message H)
  bodies [] complete = []
  bodies (b ∷ parts) complete =
      response_body b (not (is_empty parts && complete)) ∷ bodies parts complete

module _ {H : Type 0} (is_head : Bool)
    (format_response : (status : ℕ) (headers : H) (body : List ℕ) (more no_body keep_alive : Bool)
      → Result (List ℕ × Bool))
    (format_chunk : (body : List ℕ) (more : Bool) → List ℕ) where
  -- The chunks of the parts behind the first.
  abbrev pub chunks : List (List ℕ) → (complete : Bool) → List (List ℕ)
  chunks [] complete = []
  chunks (b ∷ parts) complete =
      format_chunk b (not (is_empty parts && complete)) ∷ chunks parts complete

  -- A response on the wire: its head with the first part, then a chunk for each other part.
  abbrev pub Responds :
      ℕ → H → Bool → List ℕ → List (List ℕ) → (complete : Bool) → List (List ℕ) → Type 0
  Responds status headers keep_alive b parts complete wire =
      (start : List ℕ) × (keeps : Bool) × (format_response status headers b
          (not (is_empty parts && complete)) (is_no_body is_head status) keep_alive
        ≡ ok (start, keeps))
      × (wire ≡ start ∷ chunks parts complete)

  -- Where a cycle is in its response.
  data Stage (keep_alive : Bool) : Cycle H → Type 0 where
    initial :
        (c : Cycle H)
        → c.resp_status ≡ 0
        → c.wire ≡ []
        → c.keep_alive ≡ keep_alive
        → Stage keep_alive c
    started :
        (c : Cycle H) (status : ℕ) (headers : H)
        → c.resp_status ≡ 1
        → c.start_data ≡ some (status, headers)
        → c.wire ≡ []
        → c.keep_alive ≡ keep_alive
        → Stage keep_alive c
    streaming :
        (c : Cycle H) (status : ℕ) (headers : H) (b : List ℕ) (parts : List (List ℕ))
        → c.resp_status ≡ 2
        → Responds status headers keep_alive b parts false c.wire
        → Stage keep_alive c
    completed :
        (c : Cycle H) (status : ℕ) (headers : H) (b : List ℕ) (parts : List (List ℕ))
        → c.resp_status ≡ 3
        → Responds status headers keep_alive b parts true c.wire
        → Stage keep_alive c

  -- The response with its first part has been written.
  abbrev pub written : List ℕ → Bool → Cycle H → Cycle H
  written start keeps c = record c {
    keep_alive = keeps;
    wire = c.wire ++ start ∷ [];
    bytes_written_to_wire = true;
  }

  pub send_first_written :
      (status : ℕ) (headers : H) (b : List ℕ) (more drained : Bool) (c : Cycle H) (start : List ℕ)
      (keeps : Bool)
      → format_response status headers b more (is_no_body is_head status) c.keep_alive
        ≡ ok (start, keeps)
      → await_drain drained (end_first more) (written start keeps c)
        ≡ send_first is_head format_response format_chunk status headers b more drained c
  unfolding send_first
  send_first_written status headers b more drained c start keeps e = rw (send_first, e) refl

  pub send_started :
      (status : ℕ) (headers : H) (b : List ℕ) (more drained : Bool) (c : Cycle H)
      → c.resp_status ≡ 1
      → c.start_data ≡ some (status, headers)
      → send_first is_head format_response format_chunk status headers b more drained c
        ≡ send is_head format_response format_chunk (response_body b more) drained c
  unfolding send
  send_started status headers b more drained c r d = simp (r, d) refl

  pub send_streaming :
      (b : List ℕ) (more drained : Bool) (c : Cycle H)
      → c.resp_status ≡ 2
      → send_chunk is_head format_response format_chunk b more drained c
        ≡ send is_head format_response format_chunk (response_body b more) drained c
  unfolding send
  send_streaming b more drained c r = simp r refl

  pub play_returned :
      (s : Sending H) (script : List (Sending H)) (c : Cycle H)
      → (send is_head format_response format_chunk s.message s.drained c).1 ≡ none
      → play is_head format_response format_chunk script
          (send is_head format_response format_chunk s.message s.drained c).0
        ≡ play is_head format_response format_chunk (s ∷ script) c
  unfolding play
  play_returned s script c e = ground arith

  pub play_raised :
      (s : Sending H) (script : List (Sending H)) (c : Cycle H) (ex : Exception)
      → (send is_head format_response format_chunk s.message s.drained c).1 ≡ some ex
      → (if s.handles
          then play is_head format_response format_chunk script
              (send is_head format_response format_chunk s.message s.drained c).0
          else send is_head format_response format_chunk s.message s.drained c)
        ≡ play is_head format_response format_chunk (s ∷ script) c
  unfolding play
  play_raised s script c ex e = ground arith
