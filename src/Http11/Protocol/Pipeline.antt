-- ===== src/Http11/Protocol/Pipeline.antt =====
-- Pipelined requests on an open connection, whatever the applications do and however the reading,
-- the serving and the writing interleave.
use gsyncio.Common.{
  ℕ, ◌+◌, ◌≡◌, refl, sym, ◌∙◌, ap, ◌⊎◌, inl, inr, Bool, true, false, Option, none, some, List, [],
  ◌∷◌, ◌++◌, map, arith, if◌then◌else◌, length, leb, is_empty, subst, length-append, append-nil,
  append_assoc, Bool-cases, Option-cases,
}
use mathlib.Core.Option.{some-injective}
use gsyncio.Common.Transition
use gsyncio.Http11.Protocol.{
  queue_resume_size, keep_alive_wait, is_serving, Request, Event, request_start, body_chunk,
  request_end, Protocol, init, create_task, start_cycle, put_chunk, handle_event, handle_events,
  end_cycle, finish, receive, pause_writing, resume_writing,
}

-- What arrives on a connection that stays open and is not upgraded.
pub data Arrival (S : Type 0) : Type 0 where
  request : Request S → Arrival S
  chunk_of : (chunk : List ℕ) (more : Bool) → Arrival S
  last : Arrival S

abbrev pub event : {S : Type 0} → Arrival S → Event S
event (request r) = request_start r
event (chunk_of chunk more) = body_chunk chunk more
event last = request_end

abbrev pub requests : {S : Type 0} → List (Arrival S) → List (Request S)
requests [] = []
requests (request r ∷ arrivals) = r ∷ requests arrivals
requests (chunk_of chunk more ∷ arrivals) = requests arrivals
requests (last ∷ arrivals) = requests arrivals

-- One thing that happens: data arrives, the cycle that is served ends, its application calls
-- `receive` (with what the parser reports if it is pumped), or the transport's buffer fills and
-- empties.
pub data Action (S : Type 0) : Type 0 where
  arrives : (arrivals : List (Arrival S)) → Action S
  ends : (task : ℕ) (pumped : List (Arrival S)) → Action S
  receives : (has_body delivered : Bool) (pumped : List (Arrival S)) → Action S
  pauses resumes : Action S

-- The connection with the requests that the parser has reported, and the number of cycles that
-- have ended.
pub record System (S : Type 0) : Type 0 where
  pub protocol : Protocol S
  pub received : List (Request S)
  pub ended : ℕ

-- Does `receive` pump the parser?
abbrev pub receive_pumps : Bool → Option (List (List ℕ × Bool)) → Bool
receive_pumps true (some ((chunk, true) ∷ queue)) = leb (length queue) queue_resume_size
receive_pumps _ _ = false

unfoldable pub step : {S : Type 0} → Action S → System S → Option (System S)
step (arrives arrivals) s = some (record {
  protocol = handle_events (map event arrivals) s.protocol;
  received = s.received ++ requests arrivals;
  ended = s.ended;
})
step (ends task pumped) s =
    if is_serving s.protocol.state
    then some (record {
      protocol = finish task false (map event pumped) s.protocol;
      received =
          s.received
          ++ (if is_empty s.protocol.pending_pipeline_events then requests pumped else []);
      ended = s.ended + 1;
    })
    else none
step (receives has_body delivered pumped) s = some (record {
  protocol = (receive has_body delivered (map event pumped) s.protocol).0;
  received =
      s.received ++ (if receive_pumps has_body s.protocol.body_queue then requests pumped else []);
  ended = s.ended;
})
step pauses s = some (record s { protocol = pause_writing s.protocol })
step resumes s = some (record s { protocol = resume_writing s.protocol })

abbrev pub fresh : {S : Type 0} → System S
fresh = record { protocol = init; received = []; ended = 0 }

module _ {S : Type 0} where
  record Inv (p : Protocol S) (received : List (Request S)) (ended : ℕ) : Type 0 where
    ordered : p.started ++ p.pending_pipeline_events ≡ received
    idle : (p.pending_pipeline_events ≡ []) ⊎ (is_serving p.state ≡ true)
    counted : length p.started ≡ ended + (if is_serving p.state then 1 else 0)

  -- The invariant does not look at the rest of the state.
  Inv-same :
      (p q : Protocol S) (received : List (Request S)) (ended : ℕ)
      → (q.started ≡ p.started)
        × (q.pending_pipeline_events ≡ p.pending_pipeline_events)
        × (q.state ≡ p.state)
      → Inv p received ended
      → Inv q received ended
  Inv-same p q received ended (e, f, g) v = record {
    ordered = rw (e, f) v.ordered;
    idle = rw (f, g) v.idle;
    counted = rw (e, g) v.counted;
  }

  put_chunk_same :
      (chunk : List ℕ) (more : Bool) (p : Protocol S)
      → let q = put_chunk chunk more p in
        (q.started ≡ p.started)
        × (q.pending_pipeline_events ≡ p.pending_pipeline_events)
        × (q.state ≡ p.state)
  unfolding put_chunk
  put_chunk_same chunk more p = elim (Option-cases p.body_queue) [
    | inl e ↦ rw e (refl, refl, refl)
    | inr (queue, e) ↦ rw e (refl, refl, refl)
  ]

  start-Inv :
      (r : Request S) (p : Protocol S) (received : List (Request S)) (ended : ℕ)
      → p.started ≡ received
      → length p.started ≡ ended
      → (rest : List (Request S)) → p.pending_pipeline_events ≡ rest
      → Inv (start_cycle r p) (received ++ r ∷ rest) ended
  unfolding start_cycle create_task
  start-Inv r p received ended e f rest g = record {
    ordered =
        append_assoc p.started (r ∷ []) p.pending_pipeline_events
        ∙ (ap (λ t. t ++ r ∷ p.pending_pipeline_events) e ∙ ap (λ t. received ++ r ∷ t) g);
    idle = inr refl;
    counted = ground (arith, length-append p.started (r ∷ []));
  }

  none_pending :
      (p : Protocol S) (received : List (Request S)) (ended : ℕ)
      → Inv p received ended
      → is_serving p.state ≡ false
      → p.pending_pipeline_events ≡ []
  none_pending p received ended v h = elim v.idle [ inl e ↦ e | inr e ↦ absurd (ground arith) ]

  all_started :
      (p : Protocol S) (received : List (Request S)) (ended : ℕ)
      → Inv p received ended
      → is_serving p.state ≡ false
      → p.started ≡ received
  all_started p received ended v h =
      sym (append-nil p.started)
      ∙ (ap (λ t. p.started ++ t) (sym (none_pending p received ended v h)) ∙ v.ordered)

  requests_cons :
      (a : Arrival S) (arrivals : List (Arrival S))
      → requests (a ∷ arrivals) ≡ requests (a ∷ []) ++ requests arrivals
  requests_cons (request r) arrivals = refl
  requests_cons (chunk_of chunk more) arrivals = refl
  requests_cons last arrivals = refl

  arrival-Inv :
      (a : Arrival S) (p : Protocol S) (received : List (Request S)) (ended : ℕ)
      → Inv p received ended
      → Inv (handle_event (event a) p) (received ++ requests (a ∷ [])) ended
  unfolding handle_event
  arrival-Inv (request r) p received ended v = elim (Bool-cases (is_serving p.state)) [
    | inl h ↦ rw h (record {
      ordered =
          sym (append_assoc p.started p.pending_pipeline_events (r ∷ []))
          ∙ ap (λ t. t ++ r ∷ []) v.ordered;
      idle = inr h;
      counted = v.counted;
    })
    | inr h ↦ rw h (
        start-Inv r p received ended (all_started p received ended v h) (ground arith) []
          (none_pending p received ended v h))
  ]
  arrival-Inv (chunk_of chunk more) p received ended v =
      rw (append-nil received) (Inv-same p _ received ended (put_chunk_same chunk more p) v)
  arrival-Inv last p received ended v = rw (append-nil received) v

  arrivals-Inv :
      (arrivals : List (Arrival S)) (p : Protocol S) (received : List (Request S)) (ended : ℕ)
      → Inv p received ended
      → Inv (handle_events (map event arrivals) p) (received ++ requests arrivals) ended
  unfolding handle_events
  arrivals-Inv [] p received ended v = rw (append-nil received) v
  arrivals-Inv (a ∷ arrivals) p received ended v =
      subst (λ t. Inv (handle_events (map event (a ∷ arrivals)) p) t ended)
        (append_assoc received (requests (a ∷ [])) (requests arrivals)
          ∙ ap (λ t. received ++ t) (sym (requests_cons a arrivals)))
        (arrivals-Inv arrivals (handle_event (event a) p) (received ++ requests (a ∷ [])) ended
          (arrival-Inv a p received ended v))

  end_cycle-Inv :
      (pumped : List (Arrival S)) (p : Protocol S) (received : List (Request S)) (ended : ℕ)
      → Inv p received ended
      → is_serving p.state ≡ true
      → Inv
          (end_cycle false (map event pumped) p)
          (received ++ (if is_empty p.pending_pipeline_events then requests pumped else []))
          (ended + 1)
  unfolding end_cycle
  end_cycle-Inv pumped p received ended v h = pending p.pending_pipeline_events refl
    where
      idle : Protocol S
      idle = record p { disconnect_event = true; state = keep_alive_wait }

      pending :
          (q : List (Request S))
          → p.pending_pipeline_events ≡ q
          → Inv
              (end_cycle false (map event pumped) p)
              (received ++ (if is_empty p.pending_pipeline_events then requests pumped else []))
              (ended + 1)
      pending [] e =
          rw (end_cycle, e)
            (arrivals-Inv pumped idle received (ended + 1)
              (record { ordered = v.ordered; idle = inl e; counted = ground (arith, v.counted) }))
      pending (r ∷ rest) e =
          rw (end_cycle, e, append-nil received)
            (subst
              (λ t.
                Inv (start_cycle r (record idle { pending_pipeline_events = rest })) t (ended + 1))
              (ap (λ t. p.started ++ t) (sym e) ∙ v.ordered)
              (start-Inv r (record idle { pending_pipeline_events = rest }) p.started (ended + 1)
                refl (ground (arith, v.counted)) rest refl))

  receive-Inv :
      (has_body delivered : Bool) (pumped : List (Arrival S)) (p : Protocol S)
      (received : List (Request S)) (ended : ℕ)
      → Inv p received ended
      → Inv
          (receive has_body delivered (map event pumped) p).0
          (received ++ (if receive_pumps has_body p.body_queue then requests pumped else []))
          ended
  unfolding receive
  receive-Inv false false pumped p received ended v = rw (append-nil received) v
  receive-Inv false true pumped p received ended v = rw (append-nil received) v
  receive-Inv true delivered pumped p received ended v = queued p.body_queue refl
    where
      queued :
          (q : Option (List (List ℕ × Bool)))
          → p.body_queue ≡ q
          → Inv
              (receive true delivered (map event pumped) p).0
              (received ++ (if receive_pumps true p.body_queue then requests pumped else []))
              ended
      queued none e = rw (receive, e, append-nil received) v
      queued (some []) e = rw (receive, e, append-nil received) v
      queued (some ((chunk, false) ∷ queue)) e =
          rw (receive, e, append-nil received) (Inv-same p _ received ended (refl, refl, refl) v)
      queued (some ((chunk, true) ∷ queue)) e =
          elim (Bool-cases (leb (length queue) queue_resume_size)) [
            | inl h ↦
                rw (receive, e, h)
                  (arrivals-Inv pumped
                    (record p { body_queue = some queue; reading_paused = false }) received ended
                    (Inv-same p _ received ended (refl, refl, refl) v))
            | inr h ↦
                rw (receive, e, h, append-nil received)
                  (Inv-same p _ received ended (refl, refl, refl) v)
          ]

  abbrev SystemInv : System S → Type 0
  SystemInv s = Inv s.protocol s.received s.ended

  step-Inv : (a : Action S) (s t : System S) → step a s ≡ some t → SystemInv s → SystemInv t
  unfolding step finish
  step-Inv (arrives arrivals) s t e v =
      subst SystemInv (some-injective _ _ e) (arrivals-Inv arrivals s.protocol s.received s.ended v)
  step-Inv (ends task pumped) s t e v = elim (Bool-cases (is_serving s.protocol.state)) [
    | inl h ↦ subst SystemInv (some-injective _ _ (rw h at e)) (
        Inv-same (end_cycle false (map event pumped) s.protocol) _ _ _ (refl, refl, refl)
          (end_cycle-Inv pumped s.protocol s.received s.ended v h))
    | inr h ↦ absurd (ground arith)
  ]
  step-Inv (receives has_body delivered pumped) s t e v =
      subst SystemInv (some-injective _ _ e)
        (receive-Inv has_body delivered pumped s.protocol s.received s.ended v)
  step-Inv pauses s t e v =
      subst SystemInv (some-injective _ _ e) (Inv-same s.protocol _ _ _ (refl, refl, refl) v)
  step-Inv resumes s t e v =
      subst SystemInv (some-injective _ _ e) (Inv-same s.protocol _ _ _ (refl, refl, refl) v)

  fresh-Inv : SystemInv (fresh {S = S})
  fresh-Inv = record { ordered = refl; idle = inl refl; counted = refl }

  -- However arrivals, ends of cycles, `receive` calls and write pauses interleave on a connection
  -- that stays open: the requests that a task was created for, followed by those still queued, are
  -- the requests received, in their order.
  pub pipelined_in_order :
      (s : System S)
      → Transition.Reach step fresh s
      → s.protocol.started ++ s.protocol.pending_pipeline_events ≡ s.received
  pipelined_in_order s r = (Transition.Reach-invariant step SystemInv step-Inv fresh-Inv r).ordered

  -- At all such times one cycle at most runs, exactly while the state is `SERVING_APP`, and a request
  -- is queued only while one does.
  pub one_cycle_at_a_time :
      (s : System S)
      → Transition.Reach step fresh s
      → (length s.protocol.started ≡ s.ended + (if is_serving s.protocol.state then 1 else 0))
        × ((s.protocol.pending_pipeline_events ≡ []) ⊎ (is_serving s.protocol.state ≡ true))
  one_cycle_at_a_time s r =
      let v = Transition.Reach-invariant step SystemInv step-Inv fresh-Inv r in (v.counted, v.idle)
