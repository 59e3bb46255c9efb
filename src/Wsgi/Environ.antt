-- ===== src/Wsgi/Environ.antt =====
-- src/multiloop/wsgi.py: the part of the environ that comes from the request's headers, the name of
-- the server, and the admission of connections. Header names are in ASCII and lower case.
pub mod Headers
use gsyncio.Common.{
  ℕ, zero, suc, ◌+◌, ◌-◌, ◌*◌, Bool, true, false, not, ◌&&◌, ◌||◌, Option, none, some, List, [],
  ◌∷◌, ◌++◌, map, if◌then◌else◌, ltb, leb, ◌==◌, is_empty, codes,
}
use gsyncio.Wsgi.Response.{same_bytes}

-- `f"HTTP_{k.upper().replace('-', '_')}"`
abbrev pub key_byte : ℕ → ℕ
key_byte b = if leb 97 b && leb b 122 then b - 32 else (if b == 45 then 95 else b)

abbrev pub header_key : List ℕ → List ℕ
header_key k = codes "HTTP_" ++ map key_byte k

-- `header_dict_pep.setdefault(key, []).append(v)`
unfoldable pub add_header :
    (key v : List ℕ) → List (List ℕ × List (List ℕ)) → List (List ℕ × List (List ℕ))
add_header key v [] = (key, v ∷ []) ∷ []
add_header key v ((k, vs) ∷ rest) =
    let rest' = add_header key v rest in
    if same_bytes k key then (k, vs ++ v ∷ []) ∷ rest else (k, vs) ∷ rest'

-- `", ".join(values)`
unfoldable pub join : List (List ℕ) → List ℕ
join [] = []
join (v ∷ []) = v
join (v ∷ w ∷ vs) = v ++ 44 ∷ 32 ∷ join (w ∷ vs)

pub record HeaderFields : Type 0 where
  pub content_type : List ℕ
  pub content_length : List ℕ
  pub http : List (List ℕ × List (List ℕ))

-- The loop over the headers.
unfoldable pub sort_header : (k v : List ℕ) → HeaderFields → HeaderFields
sort_header k v h =
    if same_bytes k (codes "content-type")
    then record h { content_type = v }
    else (if same_bytes k (codes "content-length")
        then record h { content_length = v }
        else record h { http = add_header (header_key k) v h.http })

unfoldable pub sort_headers : List (List ℕ × List ℕ) → HeaderFields → HeaderFields
sort_headers [] h = h
sort_headers ((k, v) ∷ headers) h = sort_headers headers (sort_header k v h)

-- The entries that are set behind the fixed ones; the length is that of the body unless a header
-- gives one.
abbrev pub if_any : (key v : List ℕ) → List (List ℕ × List ℕ)
if_any key v = if is_empty v then [] else (key, v) ∷ []

abbrev pub joined : List (List ℕ × List (List ℕ)) → List (List ℕ × List ℕ)
joined [] = []
joined ((k, vs) ∷ rest) = (k, join vs) ∷ joined rest

unfoldable pub header_environ :
    (body_length : List ℕ) → List (List ℕ × List ℕ) → List (List ℕ × List ℕ)
header_environ body_length headers =
    let h =
      sort_headers headers
        (record { content_type = []; content_length = body_length; http = [] }) in
    if_any (codes "CONTENT_TYPE") h.content_type
    ++ (if_any (codes "CONTENT_LENGTH") h.content_length ++ joined h.http)

-- `server_name in ("0.0.0.0", "::", "")`
unfoldable pub is_wildcard : List ℕ → Bool
is_wildcard name =
    same_bytes name (codes "0.0.0.0") || (same_bytes name (codes "::") || is_empty name)

-- `c.isalnum() or c in ".-_"`, for latin-1
abbrev pub is_alnum : ℕ → Bool
is_alnum c =
    (leb 48 c && leb c 57)
    || ((leb 65 c && leb c 90)
        || ((leb 97 c && leb c 122)
            || ((c == 170)
                || ((c == 178)
                    || ((c == 179)
                        || ((c == 181)
                            || ((c == 185)
                                || ((c == 186)
                                    || ((leb 188 c && leb c 190)
                                        || ((leb 192 c && leb c 214)
                                            || ((leb 216 c && leb c 246)
                                                || (leb 248 c && leb c 255))))))))))))

unfoldable pub is_host : List ℕ → Bool
is_host [] = true
is_host (c ∷ cs) =
    let rest = is_host cs in (is_alnum c || ((c == 46) || ((c == 45) || (c == 95)))) && rest

-- `v.split(":")[0].strip()`, for latin-1
unfoldable pub before_colon : List ℕ → List ℕ
before_colon [] = []
before_colon (c ∷ cs) = let rest = before_colon cs in if c == 58 then [] else c ∷ rest

abbrev pub is_blank : ℕ → Bool
is_blank c = (leb 9 c && leb c 13) || ((leb 28 c && leb c 32) || ((c == 133) || (c == 160)))

unfoldable pub lstrip : List ℕ → List ℕ
lstrip [] = []
lstrip (c ∷ cs) = let rest = lstrip cs in if is_blank c then rest else c ∷ cs

unfoldable pub rstrip : List ℕ → List ℕ
rstrip [] = []
rstrip (c ∷ cs) = let rest = rstrip cs in if is_blank c && is_empty rest then [] else c ∷ rest

-- The first `host` header decides.
unfoldable pub host_name : List (List ℕ × List ℕ) → (server_name : List ℕ) → List ℕ
host_name [] server_name = server_name
host_name ((k, v) ∷ headers) server_name =
    let later = host_name headers server_name in
    let cand = rstrip (lstrip (before_colon v)) in
    if same_bytes k (codes "host")
    then (if not (is_empty cand) && is_host cand then cand else server_name)
    else later

unfoldable pub resolve_server_name : (host : List ℕ) → List (List ℕ × List ℕ) → List ℕ
resolve_server_name host headers =
    if is_wildcard host
    then (if is_wildcard (host_name headers host)
        then codes "127.0.0.1"
        else host_name headers host)
    else host

-- `_sync_task_count`, at the beginning and in the `finally` of a connection; none is the answer 503.
unfoldable pub admit : (max_sync_workers count : ℕ) → Option ℕ
admit max_sync_workers count = if leb (max_sync_workers * 3) count then none else some (count + 1)

unfoldable pub leave : ℕ → ℕ
leave count = count - 1
