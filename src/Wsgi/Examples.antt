-- ===== src/Wsgi/Examples.antt =====
-- The WSGI worker at concrete requests and responses.
use gsyncio.Common.{
  ℕ, ◌≡◌, refl, true, false, none, some, List, [], ◌∷◌, ◌++◌, arith, codes, pos, negsuc, ok, Result,
}
use gsyncio.Wsgi.Bytes.{find, first_line}
use gsyncio.Wsgi.Bytes
use gsyncio.Wsgi.Stream.{SyncStreamReader, init, read, readline, readlines_loop}
use gsyncio.Wsgi.Stream.Refine.{content, read_refines}
use gsyncio.Wsgi.Stream.Whole.{concat, readline_refines, readlines_whole}
use gsyncio.Wsgi.Feed.{feed_body, body_is_read}
use gsyncio.Wsgi.Chunked.{read_chunked_body, read_chunk, more, encode_chunk}
use gsyncio.Wsgi.Chunked.Fuel.{chunked_body_ends}
use gsyncio.Wsgi.Chunked.Roundtrip.{chunked_roundtrip}
use gsyncio.Wsgi.Chunked.Signs.{negative_size_accepted}
use gsyncio.Wsgi.Hex.{format_hex, format_digits}
use gsyncio.Wsgi.Response.{starts, yields, respond, head, data_headers, has_header, same_bytes}
use gsyncio.Wsgi.Response.Stream.{response_read_back}
use gsyncio.Wsgi.Response.Crash.{late_start_dropped}
use gsyncio.Wsgi.Environ.{HeaderFields, sort_headers}
use gsyncio.Wsgi.Environ.Headers.{values, header_values}

-- Two chunks are on their way, and a line ends in the second.
abbrev two_chunks : SyncStreamReader
two_chunks = record {
  bio = none;
  buffer = codes "a";
  channel = some (codes "bc" ∷ codes "d\ne" ∷ [] ∷ []);
  eof = false;
}

read_refines_example :
    ((read (pos 4) two_chunks).0 ≡ codes "abcd")
    × (content (read (pos 4) two_chunks).1 ≡ codes "\ne")
unfolding Bytes.read
read_refines_example = read_refines (pos 4) two_chunks

readline_refines_example :
    ((readline none two_chunks).0 ≡ codes "abcd\n")
    × (content (readline none two_chunks).1 ≡ codes "e")
unfolding Bytes.readline first_line
readline_refines_example = readline_refines none two_chunks (λ e. absurd (ground arith))

readlines_whole_example :
    (more : List (List ℕ)) × (s' : SyncStreamReader) × (readlines_loop 7 (negsuc 0) [] two_chunks
      ≡ some (more, s'))
    × (concat more ≡ codes "abcd\ne")
    × (content s' ≡ [])
readlines_whole_example = readlines_whole 7 0 [] two_chunks (omega arith)

body_is_read_example :
    (sent : List (List ℕ)) × (feed_body 5 3 (codes "bc" ∷ codes "de" ∷ []) ≡ some sent)
    × ((read (negsuc 0) (init (some (codes "a")) (some sent))).0 ≡ codes "abcd")
body_is_read_example =
    body_is_read 5 4 (codes "a") (codes "bc" ∷ codes "de" ∷ []) (omega arith) (omega arith)

chunked_body_ends_example :
    (r : Result (List ℕ × List (List ℕ))) × (read_chunked_body 5 100
        (codes "\r\na" ∷ [])
        (codes "1")
        []
      ≡ some r)
chunked_body_ends_example =
    chunked_body_ends 5 100 (codes "\r\na" ∷ []) (codes "1") [] (omega arith)

chunked_roundtrip_example :
    (left : List (List ℕ)) × (read_chunked_body 2 100
        (codes "\nabc" ∷ codes "\r\n0\r\n\r\n" ∷ [])
        (codes "3\r")
        []
      ≡ some (ok (codes "abc", left)))
unfolding encode_chunk format_hex format_digits
chunked_roundtrip_example =
    chunked_roundtrip 2 100 (codes "abc" ∷ []) (codes "\nabc" ∷ codes "\r\n0\r\n\r\n" ∷ [])
      (codes "3\r") [] (refl, tt) (refl, (refl, tt)) (omega arith) (omega arith) refl

negative_size_accepted_example :
    read_chunk 100 [] (codes "-3\r\nabcde") [] ≡ more (codes "e") (codes "ab") []
unfolding format_hex format_digits
negative_size_accepted_example = negative_size_accepted 0 100 (codes "abcde") [] [] (omega arith)

response_read_back_example :
    (body : List ℕ) × (left : List (List ℕ)) × (respond
        (starts (codes "200 OK") [] false false ∷ yields (codes "ab") ∷ yields [] ∷ [])
      ≡ head (codes "200 OK") (data_headers []) ++ body)
    × (read_chunked_body 2 100 [] body [] ≡ some (ok (codes "ab", left)))
unfolding has_header
response_read_back_example =
    response_read_back 2 100 (codes "200 OK") [] false (codes "ab" ∷ [] ∷ []) refl
      (λ e. absurd (ground arith)) (omega arith) (omega arith)

late_start_dropped_example :
    respond (
      starts (codes "200 OK") [] false false
      ∷ yields (codes "ab")
      ∷ starts (codes "500 Failed") [] true false
      ∷ [])
    ≡ respond (starts (codes "200 OK") [] false false ∷ yields (codes "ab") ∷ [])
late_start_dropped_example =
    late_start_dropped (codes "200 OK") (codes "500 Failed") [] [] false 97 (codes "b") []

-- Two names that differ in a dash give one key.
abbrev none_given : HeaderFields
none_given = record { content_type = []; content_length = []; http = [] }

header_values_example :
    values
      (codes "HTTP_X_A")
      (sort_headers ((codes "x-a", codes "1") ∷ (codes "x_a", codes "2") ∷ []) none_given).http
    ≡ codes "1" ∷ codes "2" ∷ []
unfolding same_bytes
header_values_example =
    header_values (codes "HTTP_X_A") ((codes "x-a", codes "1") ∷ (codes "x_a", codes "2") ∷ [])
      none_given
