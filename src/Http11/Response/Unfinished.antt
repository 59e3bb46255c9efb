-- ===== src/Http11/Response/Unfinished.antt =====
-- A response that an application sends in parts and does not end.
use gsyncio.Common.{
  ℕ, ◌≡◌, refl, sym, ap, ◌∙◌, subst, Bool, true, false, not, Option, some, none, List, [], ◌∷◌,
  ◌++◌, append-nil, append_assoc, Exception, Result, ok,
}
use gsyncio.Http11.Response.{
  Message, response_start, response_body, Cycle, fresh, is_no_body, await_drain, end_first,
  end_chunk, send_chunk, send, play, Sending,
}
use gsyncio.Http11.Response.Grammar.{
  plain, bodies, chunks, written, play_returned, send_first_written, send_started, send_streaming,
}

module _ {H : Type 0} (is_head : Bool)
    (format_response : (status : ℕ) (headers : H) (body : List ℕ) (more no_body keep_alive : Bool)
      → Result (List ℕ × Bool))
    (format_chunk : (body : List ℕ) (more : Bool) → List ℕ) where
  -- The application goes on without an error, and the cycle ends up as given, with something
  -- written.
  abbrev pub Sends : Cycle H × Option Exception → List (List ℕ) → Bool → Type 0
  Sends after wire closing =
      (after.1 ≡ none)
      × (after.0.wire ≡ wire)
      × (after.0.is_closing ≡ closing)
      × (after.0.bytes_written_to_wire ≡ true)

  play-plain :
      (m : Message H) (messages : List (Message H)) (c c' : Cycle H) (wire : List (List ℕ))
      (closing : Bool)
      → (c', none) ≡ send is_head format_response format_chunk m true c
      → Sends (play is_head format_response format_chunk (plain messages) c') wire closing
      → Sends (play is_head format_response format_chunk (plain (m ∷ messages)) c) wire closing
  play-plain m messages c c' wire closing e sends =
      let s : Sending H = record { message = m; handles = false; drained = true } in
      subst (λ p. Sends p wire closing)
        (play_returned is_head format_response format_chunk s (plain messages) c
          (sym (ap (λ o. o.1) e)))
        (subst
          (λ o. Sends (play is_head format_response format_chunk (plain messages) o.0) wire closing)
          e sends)

  play-bodies :
      (parts : List (List ℕ)) (complete : Bool) (c : Cycle H)
      → c.resp_status ≡ 2
      → c.bytes_written_to_wire ≡ true
      → Sends
          (play is_head format_response format_chunk (plain (bodies parts complete)) c)
          (c.wire ++ chunks is_head format_response format_chunk parts complete)
          c.is_closing
  unfolding play send_chunk await_drain end_chunk
  play-bodies [] complete c r t = (refl, sym (append-nil c.wire), refl, t)
  play-bodies (b ∷ []) complete c r t =
      play-plain (response_body b (not complete)) [] c _ _ _
        (send_streaming is_head format_response format_chunk b (not complete) true c r)
        (refl, refl, refl, refl)
  play-bodies (b ∷ x ∷ parts) complete c r t =
      let c' = (send_chunk is_head format_response format_chunk b true true c).0 in
      play-plain (response_body b true) (bodies (x ∷ parts) complete) c c' _ _
        (send_streaming is_head format_response format_chunk b true true c r)
        (rw
          (← append_assoc c.wire (format_chunk b true ∷ [])
            (chunks is_head format_response format_chunk (x ∷ parts) complete))
          (play-bodies (x ∷ parts) complete c' r refl))

  bodies_go_on :
      (b : List ℕ) (parts : List (List ℕ))
      → ◌≡◌ {A = List (Message H)}
          (response_body b true ∷ bodies parts false)
          (bodies (b ∷ parts) false)
  bodies_go_on b [] = refl
  bodies_go_on b (x ∷ parts) = refl

  -- An application that starts a response and sends parts of it meets no error, if its headers are
  -- accepted; the wire carries the response so far, and the connection is not closed.
  pub unfinished_response_sent :
      (ka : Bool) (status : ℕ) (headers : H) (b : List ℕ) (parts : List (List ℕ)) (start : List ℕ)
      (keeps : Bool)
      → format_response status headers b true (is_no_body is_head status) ka ≡ ok (start, keeps)
      → Sends
          (play is_head format_response format_chunk
            (plain (response_start status headers ∷ bodies (b ∷ parts) false))
            (fresh ka))
          (start ∷ chunks is_head format_response format_chunk parts false)
          false
  unfolding send await_drain end_first
  unfinished_response_sent ka status headers b parts start keeps f =
      let c : Cycle H = record (fresh ka) {
        resp_status = 1;
        start_data = some (status, headers);
      } in
      let c' = end_first true (written is_head format_response format_chunk start keeps c) in
      subst
        (λ ms.
          Sends
            (play is_head format_response format_chunk (plain (response_start status headers ∷ ms))
              (fresh ka))
            (start ∷ chunks is_head format_response format_chunk parts false) false)
        (bodies_go_on b parts)
        (play-plain (response_start status headers) (response_body b true ∷ bodies parts false)
          (fresh ka) c (start ∷ chunks is_head format_response format_chunk parts false) false refl
          (play-plain (response_body b true) (bodies parts false) c c'
            (start ∷ chunks is_head format_response format_chunk parts false) false
            (send_first_written is_head format_response format_chunk status headers b true true c
                start keeps f
              ∙ send_started is_head format_response format_chunk status headers b true true c refl
                  refl)
            (play-bodies parts false c' refl refl)))
