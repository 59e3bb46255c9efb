-- ===== src/Wsgi/Response/Stream.antt =====
-- The response of an application that yields its body.
use gsyncio.Common.{
  ℕ, ◌≤◌, ◌<◌, ◌≡◌, ◌≢◌, refl, sym, ap, ◌∙◌, Bool, true, false, some, List, [], ◌∷◌, ◌++◌, map,
  if◌then◌else◌, arith, length, is_empty, All, ok, append_assoc, append-nil,
}
use gsyncio.Wsgi.Stream.{total}
use gsyncio.Wsgi.Stream.Whole.{concat}
use gsyncio.Wsgi.Chunked.{read_chunked_body, encode_chunk}
use gsyncio.Wsgi.Chunked.Roundtrip.{encode_chunks, chunked_roundtrip}
use gsyncio.Wsgi.Response.{
  Message, start_of, data_of, end_of, starts, yields, run_wsgi_sync, Writer, init, head,
  needs_chunks, data_headers, send_head, send_data, on_message, consume, respond,
}

-- The chunks that are sent: an empty one is passed over.
abbrev pub nonempty : List (List ℕ) → List (List ℕ)
nonempty [] = []
nonempty ([] ∷ chunks) = nonempty chunks
nonempty ((b ∷ bs) ∷ chunks) = (b ∷ bs) ∷ nonempty chunks

concat-nonempty : (chunks : List (List ℕ)) → concat (nonempty chunks) ≡ concat chunks
concat-nonempty [] = refl
concat-nonempty ([] ∷ chunks) = concat-nonempty chunks
concat-nonempty ((b ∷ bs) ∷ chunks) = ap ((b ∷ bs) ++◌) (concat-nonempty chunks)

total-nonempty : (chunks : List (List ℕ)) → total (nonempty chunks) ≡ total chunks
total-nonempty [] = refl
total-nonempty ([] ∷ chunks) = omega (arith, total-nonempty chunks)
total-nonempty ((b ∷ bs) ∷ chunks) = omega (arith, total-nonempty chunks)

nonempty-All : (chunks : List (List ℕ)) → All (λ chunk. is_empty chunk ≡ false) (nonempty chunks)
nonempty-All [] = tt
nonempty-All ([] ∷ chunks) = nonempty-All chunks
nonempty-All ((b ∷ bs) ∷ chunks) = (refl, nonempty-All chunks)

-- The messages of an application that only yields.
pub run-yields :
    (headers_set : Bool) (chunks : List (List ℕ))
    → run_wsgi_sync headers_set (map yields chunks) ≡ map data_of (nonempty chunks) ++ end_of ∷ []
unfolding run_wsgi_sync
run-yields headers_set [] = refl
run-yields headers_set ([] ∷ chunks) = run-yields headers_set chunks
run-yields headers_set ((b ∷ bs) ∷ chunks) =
    ap (data_of (b ∷ bs) ∷◌) (run-yields headers_set chunks)

pub consume_on :
    (message : Message) (messages : List Message) (w : Writer)
    → w.over ≡ false
    → consume (message ∷ messages) w ≡ consume messages (on_message message w)
unfolding consume
consume_on message messages w on = ground arith

pub data_sent :
    (chunk : List ℕ) (w : Writer)
    → w.headers_sent ≡ true
    → on_message (data_of chunk) w
      ≡ record w { wire = w.wire ++ (if w.is_chunked then encode_chunk chunk else chunk) }
unfolding on_message send_head send_data
data_sent chunk w sent = ground arith

-- Data behind the head, in chunks or as it is.
chunks_follow :
    (chunks : List (List ℕ)) (w : Writer)
    → w.headers_sent ≡ true
    → w.is_chunked ≡ true
    → w.over ≡ false
    → (consume (map data_of chunks ++ end_of ∷ []) w).wire ≡ w.wire ++ encode_chunks chunks
unfolding consume on_message
chunks_follow [] w sent chunked on = ground arith
chunks_follow (c ∷ cs) w sent chunked on =
    let w' = record w { wire = w.wire ++ encode_chunk c } in
    let step : consume (map data_of (c ∷ cs) ++ end_of ∷ []) w
        ≡ consume (map data_of cs ++ end_of ∷ []) w' =
      consume_on (data_of c) (map data_of cs ++ end_of ∷ []) w on
      ∙ ap (consume (map data_of cs ++ end_of ∷ [])) (data_sent c w sent ∙ ground arith) in
    ap (λ v. v.wire) step
    ∙ (chunks_follow cs w' sent chunked on
        ∙ append_assoc w.wire (encode_chunk c) (encode_chunks cs))

bytes_follow :
    (chunks : List (List ℕ)) (w : Writer)
    → w.headers_sent ≡ true
    → w.is_chunked ≡ false
    → w.over ≡ false
    → (consume (map data_of chunks ++ end_of ∷ []) w).wire ≡ w.wire ++ concat chunks
unfolding consume on_message
bytes_follow [] w sent plain on = ground arith
bytes_follow (c ∷ cs) w sent plain on =
    let w' = record w { wire = w.wire ++ c } in
    let step : consume (map data_of (c ∷ cs) ++ end_of ∷ []) w
        ≡ consume (map data_of cs ++ end_of ∷ []) w' =
      consume_on (data_of c) (map data_of cs ++ end_of ∷ []) w on
      ∙ ap (consume (map data_of cs ++ end_of ∷ [])) (data_sent c w sent ∙ ground arith) in
    ap (λ v. v.wire) step ∙ (bytes_follow cs w' sent plain on ∙ append_assoc w.wire c (concat cs))

-- The writer behind its head.
pub headed : (status : List ℕ) → List (List ℕ × List ℕ) → Writer
headed status headers = record init {
  wire = head status (data_headers headers);
  headers_sent = true;
  is_chunked = needs_chunks headers;
  active_status = status;
  response_headers = data_headers headers;
}

-- The first data of a response comes behind the head.
first_data :
    (status : List ℕ) (headers : List (List ℕ × List ℕ)) (c : List ℕ) (messages : List Message)
    → consume (start_of status headers ∷ data_of c ∷ messages) init
      ≡ consume (data_of c ∷ messages) (headed status headers)
unfolding consume on_message send_head headed send_data
first_data status headers c messages = refl

nonempty-cons :
    (chunks : List (List ℕ))
    → concat chunks ≢ []
    → (c : List ℕ) × (cs : List (List ℕ)) × (nonempty chunks ≡ c ∷ cs)
nonempty-cons [] h = absurd (h refl)
nonempty-cons ([] ∷ chunks) h = nonempty-cons chunks h
nonempty-cons ((b ∷ bs) ∷ chunks) h = (b ∷ bs, nonempty chunks, refl)

-- The response of an application that starts it and yields some data.
started :
    (status : List ℕ) (headers : List (List ℕ × List ℕ)) (head_sent : Bool) (chunks : List (List ℕ))
    → concat chunks ≢ []
    → respond (starts status headers false head_sent ∷ map yields chunks)
      ≡ (consume (map data_of (nonempty chunks) ++ end_of ∷ []) (headed status headers)).wire
unfolding respond run_wsgi_sync
started status headers head_sent chunks h =
    let (c, cs, e) = nonempty-cons chunks h in
    ap (λ ms. (consume (start_of status headers ∷ ms) init).wire)
      (run-yields true chunks ∙ ap (λ ns. map data_of ns ++ end_of ∷ []) e)
    ∙ (ap (λ w. w.wire) (first_data status headers c (map data_of cs ++ end_of ∷ []))
        ∙ ap (λ ns. (consume (map data_of ns ++ end_of ∷ []) (headed status headers)).wire) (sym e))

-- An application starts its response, without a content-length or a transfer-encoding of its own,
-- and yields chunks that are not all empty: the response is its head and a body that
-- _read_chunked_body reads back as the chunks joined, if they are within the limit and the fuel is
-- more than the number of chunks that are not empty.
pub response_read_back :
    (fuel m : ℕ) (status : List ℕ) (headers : List (List ℕ × List ℕ)) (head_sent : Bool)
    (chunks : List (List ℕ))
    → needs_chunks headers ≡ true
    → concat chunks ≢ []
    → total chunks ≤ m
    → length (nonempty chunks) < fuel
    → (body : List ℕ) × (left : List (List ℕ)) × (respond
          (starts status headers false head_sent ∷ map yields chunks)
        ≡ head status (data_headers headers) ++ body)
      × (read_chunked_body fuel m [] body [] ≡ some (ok (concat chunks, left)))
unfolding headed
response_read_back fuel m status headers head_sent chunks needs some_data fits lt =
    let (left, read) =
      chunked_roundtrip fuel m (nonempty chunks) [] (encode_chunks (nonempty chunks)) []
        (nonempty-All chunks) tt (omega (arith, total-nonempty chunks)) lt
        (append-nil (encode_chunks (nonempty chunks))) in
    (
      encode_chunks (nonempty chunks),
      left,
      started status headers head_sent chunks some_data
          ∙ chunks_follow (nonempty chunks) (headed status headers) refl needs refl,
      read ∙ ap (λ b. some (ok (b, left))) (concat-nonempty chunks),
    )

-- With a content-length or a transfer-encoding of its own, the chunks follow the head as they are.
pub plain_response :
    (status : List ℕ) (headers : List (List ℕ × List ℕ)) (head_sent : Bool) (chunks : List (List ℕ))
    → needs_chunks headers ≡ false
    → concat chunks ≢ []
    → respond (starts status headers false head_sent ∷ map yields chunks)
      ≡ head status (data_headers headers) ++ concat chunks
unfolding headed
plain_response status headers head_sent chunks plain some_data =
    started status headers head_sent chunks some_data
    ∙ (bytes_follow (nonempty chunks) (headed status headers) refl plain refl
        ∙ ap (head status (data_headers headers) ++◌) (concat-nonempty chunks))
