-- ===== src/Http11/Response/Examples.antt =====
-- Responses at concrete inputs: headers are a number, where 0 is refused, and the wire formats are
-- markers around the body.
use gsyncio.Common.{
  ℕ, ◌≡◌, refl, Bool, true, false, List, [], ◌∷◌, if◌then◌else◌, ◌==◌, Result, ok, err, value_error,
}
use gsyncio.Http11.Response.{Message, response_start, response_body, fresh, serve, Sending}
use gsyncio.Http11.Response.Grammar.{plain, bodies}
use gsyncio.Http11.Response.Crash.{crash_leaves_stream_open}

abbrev format_response : ℕ → ℕ → List ℕ → Bool → Bool → Bool → Result (List ℕ × Bool)
format_response status headers body more no_body keep_alive =
    if headers == 0
    then err value_error
    else ok (status ∷ headers ∷ (if more then 7 else 8) ∷ body, keep_alive)

abbrev format_chunk : List ℕ → Bool → List ℕ
format_chunk body more = (if more then 5 else 6) ∷ body

abbrev says : Message ℕ → Bool → Sending ℕ
says message handles = record { message = message; handles = handles; drained = true }

-- A duplicate start and a message after the end are handled; the rest is one response.
abbrev script : List (Sending ℕ)
script =
    says (response_start 200 3) false
    ∷ says (response_start 500 3) true
    ∷ says (response_body (65 ∷ []) true) false
    ∷ says (response_body (66 ∷ []) false) false
    ∷ says (response_body (67 ∷ []) false) true
    ∷ []

crash_leaves_stream_open_example :
    let after =
      serve false format_response format_chunk
        (1 ∷ [])
        (plain (response_start 200 3 ∷ bodies ((65 ∷ []) ∷ (66 ∷ []) ∷ []) false))
        true
        false
        (fresh true) in
    (after.wire ≡ (200 ∷ 3 ∷ 7 ∷ 65 ∷ []) ∷ (5 ∷ 66 ∷ []) ∷ []) × (after.is_closing ≡ false)
crash_leaves_stream_open_example =
    crash_leaves_stream_open false format_response format_chunk (1 ∷ []) true false 200 3 (65 ∷ [])
      ((66 ∷ []) ∷ []) (200 ∷ 3 ∷ 7 ∷ 65 ∷ []) true refl
