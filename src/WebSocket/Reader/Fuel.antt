-- ===== src/WebSocket/Reader/Fuel.antt =====
-- The loop over the bytes: how many rounds it needs.
use gsyncio.Common.{
  ℕ, zero, suc, ◌≤◌, ◌<◌, ◌≡◌, refl, Bool, Option, some, List, [], ◌∷◌, ◌++◌, true, ◌⊎◌, inl, inr,
  arith, length, drop, Option-cases, Bool-cases, length-drop,
}
use gsyncio.WebSocket.Frame.{parse_head, read_exactly, read_length}
use gsyncio.WebSocket.Reader.{
  Frame, Reading, frame, refuse, incomplete, disconnect, closed, Reader, read_payload, read_frame,
  process, reader_loop,
}

read_exactly-le :
    (n : ℕ) (bytes b rest : List ℕ)
    → read_exactly n bytes ≡ some (b, rest)
    → length rest ≤ length bytes
unfolding read_exactly
read_exactly-le n bytes b rest e = ground (arith, length-drop n bytes)

read_length-le :
    (short n : ℕ) (bytes rest : List ℕ)
    → read_length short bytes ≡ some (n, rest)
    → length rest ≤ length bytes
unfolding read_length
read_length-le short n bytes rest e = ground (arith, length-drop 2 bytes, length-drop 8 bytes)

read_payload-le :
    (fin : Bool) (opcode n : ℕ) (bytes : List ℕ) (f : Frame) (rest : List ℕ)
    → read_payload fin opcode n bytes ≡ frame f rest
    → length rest ≤ length bytes
unfolding read_payload read_exactly
read_payload-le fin opcode n bytes f rest e =
    ground (arith, length-drop 4 bytes, length-drop n (drop 4 bytes))

read_frame-lt :
    (bytes : List ℕ) (f : Frame) (rest : List ℕ)
    → read_frame bytes ≡ frame f rest
    → length rest < length bytes
unfolding read_frame
read_frame-lt [] f rest e = absurd (ground arith)
read_frame-lt (b1 ∷ []) f rest e = absurd (ground arith)
read_frame-lt (b1 ∷ b2 ∷ bytes) f rest e =
    let head = parse_head b1 b2 in
    elim (Option-cases (read_length head.short_length bytes)) [
      | inl short ↦ absurd (ground arith)
      | inr ((n, behind), found) ↦ ground (
        arith,
        read_length-le head.short_length n bytes behind found,
        read_payload-le head.fin head.opcode n behind f rest,
      )
    ]

Reading-cases :
    (r : Reading)
    → ((f : Frame) × (rest : List ℕ) × (r ≡ frame f rest))
      ⊎ (((payload : List ℕ) × (r ≡ refuse payload)) ⊎ (r ≡ incomplete))
Reading-cases (frame f rest) = inl (f, rest, refl)
Reading-cases (refuse payload) = inr (inl (payload, refl))
Reading-cases incomplete = inr (inr refl)

-- With more fuel than bytes the loop ends, for any bytes and any state.
pub reader_loop_ends :
    {T : Type 0} (decode : List ℕ → Option T) (fuel : ℕ) (bytes : List ℕ) (r : Reader T)
    → length bytes < fuel
    → (r' : Reader T) × (reader_loop decode fuel bytes r ≡ some r')
unfolding reader_loop
reader_loop_ends decode zero bytes r h = absurd (omega arith)
reader_loop_ends decode (suc fuel) bytes r h = elim (Bool-cases r.is_closed) [
  | inl c ↦ (r, ground arith)
  | inr c ↦ elim (Reading-cases (read_frame bytes)) [
    | inr (inl (payload, e)) ↦ (record r { sent = r.sent ++ (8, payload) ∷ [] }, ground arith)
    | inr (inr e) ↦ (
      record r { inbound = r.inbound ++ disconnect 1006 ∷ []; state = closed; is_closed = true },
      ground arith,
    )
    | inl (f, rest, e) ↦ elim (Bool-cases (process decode f r).1) [
      | inl stop ↦ ((process decode f r).0, ground arith)
      | inr on ↦
          let shorter = read_frame-lt bytes f rest e in
          let (r', ends) = reader_loop_ends decode fuel rest (process decode f r).0 (omega arith) in
          (r', ground arith)
    ]
  ]
]
