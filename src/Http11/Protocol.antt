-- ===== src/Http11/Protocol.antt =====
-- src/multiloop/_http11.py, class Http11Protocol, on a transport that has been connected. What the
-- compiled parser reports are the events; whether it has closed after a request, and what it reports
-- when it is pumped, are arguments. Scopes are a parameter. A task is known by its number in the
-- order of creation.
pub mod Pipeline
pub mod Closing
mod Examples
use gsyncio.Common.{
  ℕ, ◌+◌, Bool, true, false, not, ◌&&◌, ◌||◌, Option, none, some, List, [], ◌∷◌, ◌++◌,
  if◌then◌else◌, leb, length, is_some_eq,
}

-- `HTTPState`
pub data HttpState : Type 0 where
  waiting_header serving_app keep_alive_wait closed : HttpState

abbrev pub is_serving : HttpState → Bool
is_serving serving_app = true
is_serving _ = false

abbrev pub is_closed : HttpState → Bool
is_closed closed = true
is_closed _ = false

abbrev pub queue_max_size : ℕ
queue_max_size = 32

abbrev pub queue_resume_size : ℕ
queue_resume_size = 16

-- The arguments of `_serve_http_cycle`.
pub record Request (S : Type 0) : Type 0 where
  pub scope : S
  pub keep_alive : Bool
  pub has_body : Bool

-- What the parser reports, by its tags 1 (of both kinds), 2, 3, 5 and 6.
pub data Event (S : Type 0) : Type 0 where
  request_start : Request S → Event S
  websocket_start : Request S → Event S
  body_chunk : (chunk : List ℕ) (more : Bool) → Event S
  request_end : Event S
  protocol_error : (wire : List ℕ) → Event S
  closes : Event S

-- The attributes that change. `started` are the requests that a task was created for, oldest first;
-- `current_task` is the number of one, `task_done` whether it is done, `cancelled` the tasks whose
-- `cancel` was called.
pub record Protocol (S : Type 0) : Type 0 where
  pub state : HttpState
  pub written : List (List ℕ)
  pub is_closing : Bool
  pub reading_paused : Bool
  pub closed_event : Bool
  pub disconnect_event : Bool
  pub drain_event : Bool
  pub body_queue : Option (List (List ℕ × Bool))
  pub pending_pipeline_events : List (Request S)
  pub started : List (Request S)
  pub current_task : Option ℕ
  pub task_done : Bool
  pub cancelled : List ℕ

-- `__init__` and `connection_made`
abbrev pub init : {S : Type 0} → Protocol S
init = record {
  state = waiting_header;
  written = [];
  is_closing = false;
  reading_paused = false;
  closed_event = false;
  disconnect_event = false;
  drain_event = true;
  body_queue = none;
  pending_pipeline_events = [];
  started = [];
  current_task = none;
  task_done = false;
  cancelled = [];
}

-- What `receive` gives the application. It may have to wait for the queue or for the end.
pub data Received : Type 0 where
  request_body : (chunk : List ℕ) (more : Bool) → Received
  awaits_chunk awaits_disconnect : Received

-- The task that `close` cancels, if there is one that is not done.
abbrev pub to_cancel : Option ℕ → Bool → List ℕ
to_cancel none done = []
to_cancel (some task) done = if done then [] else task ∷ []

module _ {S : Type 0} where
  -- `close`
  unfoldable pub close : Protocol S → Protocol S
  close s = if is_closed s.state then s else record s {
    state = closed;
    closed_event = true;
    disconnect_event = true;
    is_closing = true;
    cancelled = s.cancelled ++ to_cancel s.current_task s.task_done;
    current_task = none;
    drain_event = true;
  }

  -- A task is created for a request.
  unfoldable pub create_task : Request S → Protocol S → Protocol S
  create_task r s = record s {
    state = serving_app;
    started = s.started ++ r ∷ [];
    current_task = some (length s.started);
    task_done = false;
  }

  -- The steps that start a cycle.
  unfoldable pub start_cycle : Request S → Protocol S → Protocol S
  start_cycle r s =
      create_task r
        (record s { body_queue = if r.has_body then some [] else none; disconnect_event = false })

  -- A chunk goes into the queue, and a full queue stops the reading.
  unfoldable pub put_chunk : List ℕ → Bool → Protocol S → Protocol S
  put_chunk chunk more s = elim s.body_queue [
    | none ↦ s
    | some queue ↦ record s {
      body_queue = some (queue ++ (chunk, more) ∷ []);
      reading_paused = s.reading_paused || leb queue_max_size (length queue + 1);
    }
  ]

  -- One event of `_handle_events`.
  unfoldable pub handle_event : Event S → Protocol S → Protocol S
  handle_event (websocket_start r) s = create_task r s
  handle_event (request_start r) s =
      if is_serving s.state
      then record s { pending_pipeline_events = s.pending_pipeline_events ++ r ∷ [] }
      else start_cycle r s
  handle_event (body_chunk chunk more) s = put_chunk chunk more s
  handle_event request_end s = s
  handle_event (protocol_error wire) s =
      close (record s { written = s.written ++ wire ∷ []; is_closing = true })
  handle_event closes s = close (record s { is_closing = true })

  -- `_handle_events`
  unfoldable pub handle_events : List (Event S) → Protocol S → Protocol S
  handle_events [] s = s
  handle_events (ev ∷ events) s = handle_events events (handle_event ev s)

  -- The `finally` branch of `_serve_http_cycle`, behind `reset_for_next_request`.
  unfoldable pub end_cycle : (conn_closed : Bool) → List (Event S) → Protocol S → Protocol S
  end_cycle true pumped s = record s { disconnect_event = true; is_closing = true }
  end_cycle false pumped s =
      let s' = record s { disconnect_event = true; state = keep_alive_wait } in
      elim s.pending_pipeline_events [
        | [] ↦ handle_events pumped s'
        | r ∷ rest ↦ start_cycle r (record s' { pending_pipeline_events = rest })
      ]

  -- The task `task` ends: its `finally` branch, and then it is done.
  unfoldable pub finish : (task : ℕ) → Bool → List (Event S) → Protocol S → Protocol S
  finish task conn_closed pumped s =
      let s' = end_cycle conn_closed pumped s in
      record s' { task_done = s'.task_done || is_some_eq s'.current_task task }

  -- `receive` of a cycle, with the flag `empty_body_delivered`.
  unfoldable pub receive :
      (has_body delivered : Bool) → List (Event S) → Protocol S → Protocol S × Bool × Received
  receive false false pumped s = (s, true, request_body [] false)
  receive false true pumped s = (s, true, awaits_disconnect)
  receive true delivered pumped s = elim s.body_queue [
    | none ↦ (s, delivered, awaits_disconnect)
    | some [] ↦ (s, delivered, awaits_chunk)
    | some ((chunk, false) ∷ queue) ↦
        (record s { body_queue = none }, delivered, request_body chunk false)
    | some ((chunk, true) ∷ queue) ↦
        let s' = record s { body_queue = some queue } in
        let resumed = handle_events pumped (record s' { reading_paused = false }) in
        (
          if leb (length queue) queue_resume_size then resumed else s',
          delivered,
          request_body chunk true,
        )
  ]

  -- `pause_writing` and `resume_writing`
  abbrev pub pause_writing : Protocol S → Protocol S
  pause_writing s = record s { drain_event = false }

  abbrev pub resume_writing : Protocol S → Protocol S
  resume_writing s = record s { drain_event = true }

  -- `connection_lost` of a connection that was not upgraded.
  abbrev pub connection_lost : Protocol S → Protocol S
  connection_lost s = close s

  -- `data_received`, of a connection that was not upgraded: the parser's events, or its exception.
  unfoldable pub data_received : Option (List (Event S)) → List ℕ → Protocol S → Protocol S
  data_received none bad_request s =
      close (record s { written = s.written ++ bad_request ∷ []; is_closing = true })
  data_received (some events) bad_request s = handle_events events s
