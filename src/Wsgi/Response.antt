-- ===== src/Wsgi/Response.antt =====
-- src/multiloop/wsgi.py: the messages that the application's thread sends (start_response and
-- _run_wsgi_sync), and the loop that makes the response of them. The connection stays up; text is
-- its latin-1 bytes.
pub mod Stream
pub mod Crash
use gsyncio.Common.{
  ℕ, zero, suc, ◌+◌, Bool, true, false, not, ◌&&◌, ◌||◌, Option, none, some, List, [], ◌∷◌, ◌++◌,
  map, if◌then◌else◌, ltb, leb, ◌==◌, length, is_empty, codes,
}
use gsyncio.Wsgi.Chunked.{encode_chunk, last_chunk}

pub data Message : Type 0 where
  start_of : (status : List ℕ) (headers : List (List ℕ × List ℕ)) → Message
  data_of : (chunk : List ℕ) → Message
  error_of end_of : Message

-- What an application does: it calls start_response, with an error or not, when the response's head
-- has been sent or not; it yields or writes bytes; it raises.
pub data Act : Type 0 where
  starts : (status : List ℕ) (headers : List (List ℕ × List ℕ)) (exc_info head_sent : Bool) → Act
  yields : (chunk : List ℕ) → Act
  raises : Act

-- `_run_wsgi_sync`; an exception of `start_response` ends the application.
unfoldable pub run_wsgi_sync : (headers_set : Bool) → List Act → List Message
run_wsgi_sync headers_set [] = end_of ∷ []
run_wsgi_sync headers_set (raises ∷ acts) = error_of ∷ end_of ∷ []
run_wsgi_sync headers_set (yields [] ∷ acts) = run_wsgi_sync headers_set acts
run_wsgi_sync headers_set (yields (b ∷ bs) ∷ acts) =
    data_of (b ∷ bs) ∷ run_wsgi_sync headers_set acts
run_wsgi_sync headers_set (starts status headers exc_info head_sent ∷ acts) =
    let rest = run_wsgi_sync true acts in
    if (if exc_info then head_sent else headers_set)
    then error_of ∷ end_of ∷ []
    else start_of status headers ∷ rest

-- The locals of the loop; `over` is its `break`, and `wire` what it has written.
pub record Writer : Type 0 where
  pub wire : List ℕ
  pub headers_sent : Bool
  pub is_chunked : Bool
  pub active_status : List ℕ
  pub response_headers : List (List ℕ × List ℕ)
  pub over : Bool

abbrev pub init : Writer
init = record {
  wire = [];
  headers_sent = false;
  is_chunked = false;
  active_status = codes "200 OK";
  response_headers = [];
  over = false;
}

-- `name.lower() == lower`, for names in ASCII
abbrev pub lower_byte : ℕ → ℕ
lower_byte b = if leb 65 b && leb b 90 then b + 32 else b

unfoldable pub same_bytes : List ℕ → List ℕ → Bool
same_bytes [] [] = true
same_bytes [] (y ∷ ys) = false
same_bytes (x ∷ xs) [] = false
same_bytes (x ∷ xs) (y ∷ ys) = (x == y) && same_bytes xs ys

unfoldable pub has_header : (lower : List ℕ) → List (List ℕ × List ℕ) → Bool
has_header lower [] = false
has_header lower ((k, v) ∷ headers) =
    same_bytes (map lower_byte k) lower || has_header lower headers

-- The status line and the header lines, each with its line break, and an empty line.
unfoldable pub header_lines : List (List ℕ × List ℕ) → List ℕ
header_lines [] = 13 ∷ 10 ∷ []
header_lines ((k, v) ∷ headers) = k ++ (58 ∷ 32 ∷ (v ++ 13 ∷ 10 ∷ header_lines headers))

unfoldable pub head : (status : List ℕ) → List (List ℕ × List ℕ) → List ℕ
head status headers = codes "HTTP/1.1 " ++ (status ++ 13 ∷ 10 ∷ header_lines headers)

abbrev pub needs_chunks : List (List ℕ × List ℕ) → Bool
needs_chunks headers =
    not (has_header (codes "content-length") headers)
    && not (has_header (codes "transfer-encoding") headers)

abbrev pub connection_close : List (List ℕ × List ℕ)
connection_close = (codes "connection", codes "close") ∷ []

-- The headers of a response with data, and of one without.
unfoldable pub data_headers : List (List ℕ × List ℕ) → List (List ℕ × List ℕ)
data_headers headers =
    (if needs_chunks headers
      then headers ++ (codes "transfer-encoding", codes "chunked") ∷ []
      else headers)
    ++ connection_close

unfoldable pub empty_headers : List (List ℕ × List ℕ) → List (List ℕ × List ℕ)
empty_headers headers =
    (if has_header (codes "content-length") headers
      then headers
      else headers ++ (codes "content-length", codes "0") ∷ [])
    ++ connection_close

abbrev pub error_page : List ℕ
error_page =
    head (codes "500 Internal Server Error") (
      (codes "content-type", codes "text/plain")
      ∷ (codes "content-length", codes "21")
      ∷ connection_close)
    ++ codes "Internal Server Error"

-- The head, before the first data.
unfoldable pub send_head : Writer → Writer
send_head w = if w.headers_sent then w else record w {
  wire = w.wire ++ head w.active_status (data_headers w.response_headers);
  headers_sent = true;
  is_chunked = w.is_chunked || needs_chunks w.response_headers;
  response_headers = data_headers w.response_headers;
}

unfoldable pub send_data : List ℕ → Writer → Writer
send_data chunk w = record w {
  wire = w.wire ++ (if w.is_chunked then encode_chunk chunk else chunk);
}

-- A round of the loop.
unfoldable pub on_message : Message → Writer → Writer
on_message (start_of status headers) w = record w {
  active_status = status;
  response_headers = headers;
}
on_message (data_of chunk) w = send_data chunk (send_head w)
on_message error_of w =
    if w.headers_sent
    then record w { over = true }
    else record w { wire = w.wire ++ error_page; headers_sent = true; over = true }
on_message end_of w =
    if w.headers_sent
    then record w { wire = w.wire ++ (if w.is_chunked then last_chunk else []); over = true }
    else record w {
      wire = w.wire ++ head w.active_status (empty_headers w.response_headers);
      headers_sent = true;
      response_headers = empty_headers w.response_headers;
      over = true;
    }

unfoldable pub consume : List Message → Writer → Writer
consume [] w = w
consume (message ∷ messages) w =
    let rest = consume messages (on_message message w) in if w.over then w else rest

-- What an application's response is on the wire.
unfoldable pub respond : List Act → List ℕ
respond acts = (consume (run_wsgi_sync false acts) init).wire
