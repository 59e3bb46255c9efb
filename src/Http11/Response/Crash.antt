-- ===== src/Http11/Response/Crash.antt =====
-- What the client sees when the application raises.
use gsyncio.Common.{ℕ, ◌≡◌, refl, subst, Bool, true, false, none, List, ◌∷◌, arith, Result, ok}
use gsyncio.Http11.Response.{
  response_start, Cycle, fresh, is_no_body, crash, play, fails, conclude, serve, Sending,
}
use gsyncio.Http11.Response.Grammar.{plain, bodies, chunks}
use gsyncio.Http11.Response.Unfinished.{unfinished_response_sent}

module _ {H : Type 0} (is_head : Bool)
    (format_response : (status : ℕ) (headers : H) (body : List ℕ) (more no_body keep_alive : Bool)
      → Result (List ℕ × Bool))
    (format_chunk : (body : List ℕ) (more : Bool) → List ℕ) where
  serve_raised :
      (err_resp : List ℕ) (script : List (Sending H)) (closed : Bool) (c : Cycle H)
      → (play is_head format_response format_chunk script c).1 ≡ none
      → conclude closed (crash err_resp (play is_head format_response format_chunk script c).0)
        ≡ serve is_head format_response format_chunk err_resp script true closed c
  unfolding serve fails
  serve_raised err_resp script closed c e = ground arith

  crash_sent :
      (err_resp : List ℕ) (c : Cycle H) → c.bytes_written_to_wire ≡ true → c ≡ crash err_resp c
  unfolding crash
  crash_sent err_resp c t = simp t refl

  -- An application that starts a response whose headers are accepted, sends the first part of a
  -- streamed body and any further ones, and then raises: the wire ends with the unfinished body,
  -- without an error page or a last chunk, and the transport is closed exactly if the parser is
  -- closed after its reset; so on a connection that is kept alive it is left open.
  pub crash_leaves_stream_open :
      (err_resp : List ℕ) (ka closed : Bool) (status : ℕ) (headers : H) (b : List ℕ)
      (parts : List (List ℕ)) (start : List ℕ) (keeps : Bool)
      → format_response status headers b true (is_no_body is_head status) ka ≡ ok (start, keeps)
      → let after =
          serve is_head format_response format_chunk err_resp
            (plain (response_start status headers ∷ bodies (b ∷ parts) false))
            true
            closed
            (fresh ka) in
        (after.wire ≡ start ∷ chunks is_head format_response format_chunk parts false)
        × (after.is_closing ≡ closed)
  unfolding conclude crash
  crash_leaves_stream_open err_resp ka closed status headers b parts start keeps f =
      let script = plain (response_start status headers ∷ bodies (b ∷ parts) false) in
      let (returned, wire, opened, sent) =
        unfinished_response_sent is_head format_response format_chunk ka status headers b parts
          start keeps f in
      subst
        (λ after.
          (after.wire ≡ start ∷ chunks is_head format_response format_chunk parts false)
          × (after.is_closing ≡ closed))
        (serve_raised err_resp script closed (fresh ka) returned)
        (subst
          (λ d.
            (d.wire ≡ start ∷ chunks is_head format_response format_chunk parts false)
            × ((conclude closed d).is_closing ≡ closed))
          (crash_sent err_resp _ sent) (wire, ground arith))
