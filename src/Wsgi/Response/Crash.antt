-- ===== src/Wsgi/Response/Crash.antt =====
-- Applications that fail, or start again.
use gsyncio.Common.{ℕ, ◌≡◌, refl, Bool, true, false, List, [], ◌∷◌, arith}
use gsyncio.Wsgi.Response.{
  Message, start_of, data_of, error_of, end_of, Act, starts, yields, raises, run_wsgi_sync, Writer,
  error_page, send_head, send_data, on_message, consume, respond,
}

-- What decides what is written behind the head.
record Alike (w v : Writer) : Type 0 where
  wire : w.wire ≡ v.wire
  sent : (w.headers_sent ≡ true) × (v.headers_sent ≡ true)
  chunked : w.is_chunked ≡ v.is_chunked
  over : w.over ≡ v.over

on_message-Alike :
    (message : Message) (w v : Writer)
    → Alike w v
    → Alike (on_message message w) (on_message message v)
unfolding on_message send_head send_data
on_message-Alike (start_of status headers) w v a = record {
  wire = a.wire;
  sent = a.sent;
  chunked = a.chunked;
  over = a.over;
}
on_message-Alike (data_of chunk) w v a = ground (arith, a)
on_message-Alike error_of w v a = ground (arith, a)
on_message-Alike end_of w v a = ground (arith, a)

-- Behind the head, the status and the headers that are kept do not matter.
consume-Alike :
    (messages : List Message) (w v : Writer)
    → Alike w v
    → (consume messages w).wire ≡ (consume messages v).wire
unfolding consume
consume-Alike [] w v a = a.wire
consume-Alike (message ∷ messages) w v a = ground (
  arith,
  a.wire,
  a.over,
  consume-Alike messages (on_message message w) (on_message message v)
      (on_message-Alike message w v a),
)

-- An application that starts, yields some bytes, and starts again with an error while the event
-- that tells that the head was sent is not yet set: the new status and headers are dropped without
-- an exception, and the response is what it is without this call.
pub late_start_dropped :
    (status status' : List ℕ) (headers headers' : List (List ℕ × List ℕ)) (head_sent : Bool) (b : ℕ)
    (bs : List ℕ) (acts : List Act)
    → respond (
        starts status headers false head_sent
        ∷ yields (b ∷ bs)
        ∷ starts status' headers' true false
        ∷ acts)
      ≡ respond (starts status headers false head_sent ∷ yields (b ∷ bs) ∷ acts)
unfolding respond run_wsgi_sync consume on_message send_head send_data
late_start_dropped status status' headers headers' head_sent b bs acts =
    consume-Alike (run_wsgi_sync true acts) _ _
      (record { wire = refl; sent = (refl, refl); chunked = refl; over = refl })

-- If the application raises before any data, the response is the error page, however often it has
-- started a response before.
starts_only : List (List ℕ × List (List ℕ × List ℕ)) → List Act → List Act
starts_only [] acts = acts
starts_only ((status, headers) ∷ more) acts =
    starts status headers true false ∷ starts_only more acts

raise_before_data :
    (headers_set : Bool) (more : List (List ℕ × List (List ℕ × List ℕ))) (w : Writer)
    → w.wire ≡ []
    → w.headers_sent ≡ false
    → w.over ≡ false
    → (consume (run_wsgi_sync headers_set (starts_only more (raises ∷ []))) w).wire ≡ error_page
unfolding run_wsgi_sync starts_only consume on_message
raise_before_data headers_set [] w nothing unsent on = ground arith
raise_before_data headers_set ((status, headers) ∷ more) w nothing unsent on = ground (
  arith,
  raise_before_data true more (record w { active_status = status; response_headers = headers })
      nothing unsent on,
)
