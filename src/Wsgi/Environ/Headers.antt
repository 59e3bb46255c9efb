-- ===== src/Wsgi/Environ/Headers.antt =====
-- Repeated headers, the name of the server, and the count of connections.
use gsyncio.Common.{
  ℕ, ◌≡◌, refl, sym, ap, ◌∙◌, ◌⊎◌, inl, inr, Bool, true, false, not, ◌&&◌, List, [], ◌∷◌, ◌++◌,
  if◌then◌else◌, arith, append_assoc, append-nil, Bool-cases, codes,
}
use gsyncio.Wsgi.Response.{same_bytes}
use gsyncio.Wsgi.Environ.{
  header_key, add_header, HeaderFields, sort_header, sort_headers, is_wildcard, host_name,
  resolve_server_name,
}

same_bytes_eq : (xs ys : List ℕ) → same_bytes xs ys ≡ true → xs ≡ ys
unfolding same_bytes
same_bytes_eq [] [] h = refl
same_bytes_eq [] (y ∷ ys) h = absurd (ground arith)
same_bytes_eq (x ∷ xs) [] h = absurd (ground arith)
same_bytes_eq (x ∷ xs) (y ∷ ys) h = ground (arith, same_bytes_eq xs ys)

same_bytes_refl : (xs : List ℕ) → same_bytes xs xs ≡ true
unfolding same_bytes
same_bytes_refl [] = refl
same_bytes_refl (x ∷ xs) = ground (arith, same_bytes_refl xs)

-- The values under a key.
abbrev pub values : (key : List ℕ) → List (List ℕ × List (List ℕ)) → List (List ℕ)
values key [] = []
values key ((k, vs) ∷ rest) = let later = values key rest in if same_bytes k key then vs else later

same_bytes_apart :
    (k key key' : List ℕ)
    → same_bytes k key' ≡ false
    → (same_bytes k key ≡ false) ⊎ (same_bytes key' key ≡ false)
same_bytes_apart k key key' other = elim (Bool-cases (same_bytes k key)) [
  | inr n ↦ inl n
  | inl e ↦ elim (Bool-cases (same_bytes key' key)) [
    | inr n ↦ inr n
    | inl e' ↦
        let same : k ≡ key' = same_bytes_eq k key e ∙ sym (same_bytes_eq key' key e') in
        absurd (ground (arith, same_bytes_refl k, ap (same_bytes k) same))
  ]
]

values-add :
    (key key' v : List ℕ) (d : List (List ℕ × List (List ℕ)))
    → values key (add_header key' v d)
      ≡ (if same_bytes key' key then values key d ++ v ∷ [] else values key d)
unfolding add_header
values-add key key' v [] = ground arith
values-add key key' v ((k, vs) ∷ rest) = elim (Bool-cases (same_bytes k key')) [
  | inl same ↦
      let e : same_bytes k key ≡ same_bytes key' key =
        ap (λ x. same_bytes x key) (same_bytes_eq k key' same) in
      ground (arith, e)
  | inr other ↦ ground (arith, same_bytes_apart k key key' other, values-add key key' v rest)
]

-- The values that the request gives under a key of the environ.
abbrev pub gives : (key k : List ℕ) → Bool
gives key k =
    not (same_bytes k (codes "content-type"))
    && (not (same_bytes k (codes "content-length")) && same_bytes (header_key k) key)

abbrev pub given : (key : List ℕ) → List (List ℕ × List ℕ) → List (List ℕ)
given key [] = []
given key ((k, v) ∷ headers) =
    let rest = given key headers in if gives key k then v ∷ rest else rest

values-sort_header :
    (key k v : List ℕ) (h : HeaderFields)
    → values key (sort_header k v h).http
      ≡ (if gives key k then values key h.http ++ v ∷ [] else values key h.http)
unfolding sort_header
values-sort_header key k v h = ground (arith, values-add key (header_key k) v h.http)

-- For every key, the values that are collected under it are those that were there and those of the
-- headers whose names give the key, in their order; two names may give one key.
pub header_values :
    (key : List ℕ) (headers : List (List ℕ × List ℕ)) (h : HeaderFields)
    → values key (sort_headers headers h).http ≡ values key h.http ++ given key headers
unfolding sort_headers
header_values key [] h = sym (append-nil (values key h.http))
header_values key ((k, v) ∷ headers) h =
    header_values key headers (sort_header k v h)
    ∙ ground (
      arith,
      values-sort_header key k v h,
      append_assoc (values key h.http) (v ∷ []) (given key headers),
    )

loopback_concrete : is_wildcard (codes "127.0.0.1") ≡ false
unfolding is_wildcard same_bytes
loopback_concrete = refl

-- The name of the server is never a wildcard address.
pub server_name_concrete :
    (host : List ℕ) (headers : List (List ℕ × List ℕ))
    → is_wildcard (resolve_server_name host headers) ≡ false
unfolding resolve_server_name
server_name_concrete host headers = elim (Bool-cases (is_wildcard host)) [
  | inr concrete ↦ rw concrete concrete
  | inl wild ↦ elim (Bool-cases (is_wildcard (host_name headers host))) [
    | inl still ↦ rw (wild, still) loopback_concrete
    | inr found ↦ rw (wild, found) found
  ]
]
