-- ===== src/Http11/Protocol/Examples.antt =====
-- The protocol at concrete inputs; a scope is a number.
use gsyncio.Common.{ℕ, ◌≡◌, refl, true, false, [], ◌∷◌, ◌++◌}
use gsyncio.Common.Transition
use gsyncio.Http11.Protocol.{
  serving_app, closed, Request, Protocol, init, request_start, start_cycle, create_task,
  handle_events, handle_event, end_cycle, finish, connection_lost,
}
use gsyncio.Http11.Protocol.Pipeline.{
  request, arrives, ends, System, step, fresh, pipelined_in_order,
}
use gsyncio.Http11.Protocol.Closing.{lost_connection_serves_on}

abbrev get_page : Request ℕ
get_page = record { scope = 1; keep_alive = true; has_body = false }

abbrev post_form : Request ℕ
post_form = record { scope = 2; keep_alive = true; has_body = true }

-- Two requests arrive at once; the first is served, then the second, which reads its body.
abbrev one : System ℕ
one = record {
  protocol = record (start_cycle get_page init) { pending_pipeline_events = post_form ∷ [] };
  received = get_page ∷ post_form ∷ [];
  ended = 0;
}

abbrev two : System ℕ
two = record {
  protocol =
      start_cycle post_form (record (start_cycle get_page init) { pending_pipeline_events = [] });
  received = get_page ∷ post_form ∷ [];
  ended = 1;
}

one_reached : Transition.Reach step fresh one
unfolding step handle_events handle_event start_cycle create_task
one_reached =
    Transition.next (arrives (request get_page ∷ request post_form ∷ [])) Transition.start refl

two_reached : Transition.Reach step fresh two
unfolding step finish end_cycle start_cycle create_task
two_reached = Transition.next (ends 0 []) one_reached refl

pipelined_in_order_example :
    two.protocol.started ++ two.protocol.pending_pipeline_events ≡ get_page ∷ post_form ∷ []
pipelined_in_order_example = pipelined_in_order two two_reached

abbrev serving : Protocol ℕ
serving = start_cycle get_page init

lost_connection_serves_on_example :
    let after = finish 0 false (request_start post_form ∷ []) (connection_lost serving) in
    ((connection_lost serving).state ≡ closed)
    × (after.started ≡ serving.started ++ post_form ∷ [])
    × (after.state ≡ serving_app)
    × (after.is_closing ≡ true)
    × (after.closed_event ≡ true)
unfolding start_cycle create_task
lost_connection_serves_on_example = lost_connection_serves_on serving 0 post_form refl refl
