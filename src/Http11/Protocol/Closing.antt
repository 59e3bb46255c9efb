-- ===== src/Http11/Protocol/Closing.antt =====
-- What closing a connection does, and what it leaves undone.
use gsyncio.Common.{ℕ, ◌≡◌, refl, true, false, [], ◌∷◌, ◌++◌, arith}
use gsyncio.Http11.Protocol.{
  HttpState, waiting_header, serving_app, keep_alive_wait, closed, is_closed, is_serving, Request,
  request_start, Protocol, close, create_task, start_cycle, handle_event, handle_events, end_cycle,
  finish, connection_lost, to_cancel,
}

serving_open : (t : HttpState) → is_serving t ≡ true → is_closed t ≡ false
serving_open serving_app h = refl
serving_open waiting_header h = absurd (ground arith)
serving_open keep_alive_wait h = absurd (ground arith)
serving_open closed h = absurd (ground arith)

module _ {S : Type 0} where
  -- Closing a connection that is not closed yet sets the three events that a task of it can wait for,
  -- closes the transport, and cancels the running task, and only that; closing it again changes
  -- nothing.
  pub close_releases_everyone :
      (s : Protocol S)
      → is_closed s.state ≡ false
      → let c = close s in
        (c.closed_event ≡ true)
        × (c.disconnect_event ≡ true)
        × (c.drain_event ≡ true)
        × (c.is_closing ≡ true)
        × (c.cancelled ≡ s.cancelled ++ to_cancel s.current_task s.task_done)
        × (close c ≡ c)
  unfolding close
  close_releases_everyone s h = rw (close, h) (refl, refl, refl, refl, refl, refl)

  -- A connection that is lost while it serves a request, when the parser holds a further one: the
  -- cancelled task's `finally` branch takes the connection out of `CLOSED` and starts a task for that
  -- request, on a transport that is closed.
  pub lost_connection_serves_on :
      (s : Protocol S) (task : ℕ) (r : Request S)
      → is_serving s.state ≡ true
      → s.pending_pipeline_events ≡ []
      → let lost = connection_lost s in
        let after = finish task false (request_start r ∷ []) lost in
        (lost.state ≡ closed)
        × (after.started ≡ s.started ++ r ∷ [])
        × (after.state ≡ serving_app)
        × (after.is_closing ≡ true)
        × (after.closed_event ≡ true)
  unfolding finish end_cycle handle_events handle_event close start_cycle create_task
  lost_connection_serves_on s task r h e =
      rw (close, serving_open s.state h, e) (refl, refl, refl, refl, refl)
