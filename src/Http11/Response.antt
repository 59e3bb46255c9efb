-- ===== src/Http11/Response.antt =====
-- src/multiloop/_http11.py, `_serve_http_cycle`: the `send` that an application calls, and what the
-- cycle does when the application raises or ends. The two wire formats of the compiled
-- `FastHttpConnection` are parameters; the first one stands for the call with the server and date
-- headers filled in, and may raise, as it does for a line break in a header. The application calls
-- `send` when the call before it has ended.
pub mod Grammar
pub mod Unfinished
pub mod Crash
mod Examples
use gsyncio.Common.{
  ℕ, Bool, true, false, not, ◌&&◌, ◌||◌, Option, none, some, List, [], ◌∷◌, ◌++◌, if◌then◌else◌,
  ◌==◌, codes, is_empty, Exception, runtime_error, value_error, other_error, cancelled_error,
  Result, ok, err,
}
use Prim.Native.String.{String}

-- The messages that an application sends.
pub data Message (H : Type 0) : Type 0 where
  response_start : (status : ℕ) (headers : H) → Message H
  response_body : (body : List ℕ) (more_body : Bool) → Message H
  unknown : Message H

-- The variables of one cycle. `wire` are the arguments of `transport.write`, oldest first.
pub record Cycle (H : Type 0) : Type 0 where
  pub resp_status : ℕ
  pub start_data : Option (ℕ × H)
  pub keep_alive : Bool
  pub bytes_written_to_wire : Bool
  pub wire : List (List ℕ)
  pub is_closing : Bool

abbrev pub fresh : {H : Type 0} → Bool → Cycle H
fresh req_keep_alive = record {
  resp_status = 0;
  start_data = none;
  keep_alive = req_keep_alive;
  bytes_written_to_wire = false;
  wire = [];
  is_closing = false;
}

-- `is_no_body`
abbrev pub is_no_body : Bool → ℕ → Bool
is_no_body is_head status = (status == 204) || (status == 304) || is_head

-- What an application does: it sends a message, and handles an exception of `send` or not. `drained`
-- is false if the write buffer is full and the task is cancelled while `send` waits for it.
pub record Sending (H : Type 0) : Type 0 where
  pub message : Message H
  pub handles : Bool
  pub drained : Bool

-- The wait for `_drain_event`, with what follows it; a cancellation skips that.
unfoldable pub await_drain :
    {H : Type 0} → (drained : Bool) → (Cycle H → Cycle H) → Cycle H → Cycle H × Option Exception
await_drain true follows c = (follows c, none)
await_drain false follows c = (c, some cancelled_error)

-- Behind the wait, after the first body message.
unfoldable pub end_first : {H : Type 0} → (more_body : Bool) → Cycle H → Cycle H
end_first more_body c = record c {
  resp_status = if more_body then 2 else 3;
  is_closing = c.is_closing || (not more_body && not c.keep_alive);
}

-- Behind the wait, after a chunk.
unfoldable pub end_chunk : {H : Type 0} → (more_body : Bool) → Cycle H → Cycle H
end_chunk more_body c = record c { resp_status = if more_body then c.resp_status else 3 }

-- The `except Exception` branch: an error page, if nothing has been written. The page's bytes
-- depend on the clock.
unfoldable pub crash : {H : Type 0} → List ℕ → Cycle H → Cycle H
crash err_resp c =
    if not c.bytes_written_to_wire && not c.is_closing
    then record c { wire = c.wire ++ err_resp ∷ []; is_closing = true }
    else c

-- Whether the `except Exception` branch runs: not for a CancelledError. `raises` says that the
-- application raises an exception of its own.
unfoldable pub fails : Option Exception → (raises : Bool) → Bool
fails none raises = raises
fails (some cancelled_error) raises = false
fails (some e) raises = true

-- The `finally` branch, where `parser_closed` is what the parser's `is_closed` says after the reset.
-- What it does for the next request is a matter of Http11.Protocol.
unfoldable pub conclude : {H : Type 0} → (parser_closed : Bool) → Cycle H → Cycle H
conclude parser_closed c = record c { is_closing = c.is_closing || parser_closed }

module _ {H : Type 0} (is_head : Bool)
    (format_response : (status : ℕ) (headers : H) (body : List ℕ) (more no_body keep_alive : Bool)
      → Result (List ℕ × Bool))
    (format_chunk : (body : List ℕ) (more : Bool) → List ℕ) where
  -- The first body message writes the response with its headers.
  unfoldable pub send_first :
      ℕ → H → List ℕ → Bool → (drained : Bool) → Cycle H → Cycle H × Option Exception
  send_first status headers body more_body drained c =
      elim (format_response status headers body more_body (is_no_body is_head status)
        c.keep_alive) [
          | err e ↦ (c, some e)
          | ok (wire_bytes, conn_keep_alive) ↦ await_drain drained (end_first more_body) (record c {
            keep_alive = conn_keep_alive;
            wire = c.wire ++ wire_bytes ∷ [];
            bytes_written_to_wire = true;
          })
        ]

  -- The others write a chunk.
  unfoldable pub send_chunk :
      List ℕ → Bool → (drained : Bool) → Cycle H → Cycle H × Option Exception
  send_chunk body more_body drained c =
      await_drain drained (end_chunk more_body) (record c {
        wire = c.wire ++ format_chunk body more_body ∷ [];
        bytes_written_to_wire = true;
      })

  -- `send`, with the exception that it raises.
  unfoldable pub send : Message H → (drained : Bool) → Cycle H → Cycle H × Option Exception
  send (response_start status headers) drained c =
      if c.resp_status == 0
      then (record c { resp_status = 1; start_data = some (status, headers) }, none)
      else (c, some runtime_error)
  send (response_body body more_body) drained c =
      if c.resp_status == 1
      then elim c.start_data [
        | none ↦ (c, some other_error)
        | some (status, headers) ↦ send_first status headers body more_body drained c
      ]
      else (if c.resp_status == 2
          then send_chunk body more_body drained c
          else (c, some runtime_error))
  send unknown drained c = (c, some value_error)

  -- The application sends messages in turn, up to an exception that it does not handle.
  unfoldable pub play : List (Sending H) → Cycle H → Cycle H × Option Exception
  play [] c = (c, none)
  play (s ∷ script) c =
      let sent = send s.message s.drained c in
      let rest = play script sent.0 in
      elim sent.1 [ none ↦ rest | some e ↦ if s.handles then rest else sent ]

  -- A whole cycle.
  unfoldable pub serve :
      List ℕ → List (Sending H) → (raises parser_closed : Bool) → Cycle H → Cycle H
  serve err_resp script raises parser_closed c =
      let played = play script c in
      conclude parser_closed (if fails played.1 raises then crash err_resp played.0 else played.0)
