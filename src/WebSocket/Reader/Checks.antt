-- ===== src/WebSocket/Reader/Checks.antt =====
-- Which byte streams give a frame.
use gsyncio.Common.{
  ℕ, ◌+◌, ◌/◌, ◌%◌, ◌^◌, ◌≤◌, ◌<◌, ◌≡◌, refl, Bool, true, false, some, List, [], ◌∷◌, ◌++◌, ◌⊎◌,
  inl, inr, arith, length, length-append, ltb, leb, ◌==◌, Bool-cases, take, drop, All,
  if◌then◌else◌, Option-cases, length-take,
}
use gsyncio.WebSocket.Frame.{pack, length_bytes, parse_head, read_exactly, read_length, unmask}
use gsyncio.WebSocket.Masking.{IsByte, unmask_twice}
use gsyncio.WebSocket.Lengths.{unpack-pack_two, unpack-pack_eight}
use gsyncio.WebSocket.Reader.{Frame, frame, max_ws_frame_size, read_payload, read_frame}

-- The payload length as a client writes it: with the mask bit set in its first byte.
abbrev pub set_mask_bit : List ℕ → List ℕ
set_mask_bit [] = []
set_mask_bit (b ∷ bytes) = (128 + b) ∷ bytes

-- A frame as RFC 6455 has a client send it, before other bytes.
abbrev pub client_frame : Bool → ℕ → ℕ → ℕ → ℕ → ℕ → List ℕ → List ℕ → List ℕ
client_frame fin opcode k0 k1 k2 k3 payload rest =
    (if fin then 128 + opcode else opcode)
    ∷ (set_mask_bit (length_bytes (length payload))
        ++ k0 ∷ k1 ∷ k2 ∷ k3 ∷ (unmask (k0 ∷ k1 ∷ k2 ∷ k3 ∷ []) 0 payload ++ rest))

length-unmask :
    (key : List ℕ) (i : ℕ) (payload : List ℕ) → length (unmask key i payload) ≡ length payload
unfolding unmask
length-unmask key i [] = refl
length-unmask key i (b ∷ payload) = omega (arith, length-unmask key (i + 1) payload)

take-append : (xs ys : List ℕ) → take (length xs) (xs ++ ys) ≡ xs
take-append [] ys = refl
take-append (x ∷ xs) ys = rw (take-append xs ys)

drop-append : (xs ys : List ℕ) → drop (length xs) (xs ++ ys) ≡ ys
drop-append [] ys = refl
drop-append (x ∷ xs) ys = drop-append xs ys

read_exactly-append : (xs ys : List ℕ) → read_exactly (length xs) (xs ++ ys) ≡ some (xs, ys)
unfolding read_exactly
read_exactly-append xs ys =
    ground (arith, take-append xs ys, drop-append xs ys, length-append xs ys)

-- The checks that a control frame has to pass.
abbrev pub IsAllowed : Bool → ℕ → ℕ → Type 0
IsAllowed fin opcode n = (n ≤ max_ws_frame_size) × ((opcode < 8) ⊎ ((n ≤ 125) × (fin ≡ true)))

read_payload_client :
    (fin : Bool) (opcode k0 k1 k2 k3 : ℕ) (payload rest : List ℕ)
    → All IsByte (k0 ∷ k1 ∷ k2 ∷ k3 ∷ [])
    → All IsByte payload
    → IsAllowed fin opcode (length payload)
    → read_payload fin opcode
        (length payload)
        (k0 ∷ k1 ∷ k2 ∷ k3 ∷ (unmask (k0 ∷ k1 ∷ k2 ∷ k3 ∷ []) 0 payload ++ rest))
      ≡ frame (record { fin = fin; opcode = opcode; payload = payload }) rest
unfolding read_payload
read_payload_client fin opcode k0 k1 k2 k3 payload rest key bytes allowed =
    let mask = k0 ∷ k1 ∷ k2 ∷ k3 ∷ [] in
    let masked = unmask mask 0 payload in
    let four : read_exactly 4 (k0 ∷ k1 ∷ k2 ∷ k3 ∷ (masked ++ rest)) ≡ some (mask, masked ++ rest) =
      read_exactly-append mask (masked ++ rest) in
    ground (
      arith,
      four,
      read_exactly-append masked rest,
      length-unmask mask 0 payload,
      unmask_twice mask 0 payload key bytes,
    )

read_length_small : (n : ℕ) (rest : List ℕ) → n < 126 → read_length n rest ≡ some (n, rest)
unfolding read_length
read_length_small n rest h = ground arith

read_length_two :
    (n : ℕ) (rest : List ℕ) → n ≤ 0xffff → read_length 126 (pack 2 n ++ rest) ≡ some (n, rest)
unfolding read_length pack
read_length_two n rest h = ground (arith, unpack-pack_two n h)

read_length_eight :
    (n : ℕ) (rest : List ℕ) → n < 2 ^ 64 → read_length 127 (pack 8 n ++ rest) ≡ some (n, rest)
unfolding read_length pack
read_length_eight n rest h = ground (arith, unpack-pack_eight n h)

parse_head_client :
    (fin : Bool) (opcode m : ℕ)
    → opcode < 16
    → m < 128
    → parse_head (if fin then 128 + opcode else opcode) (128 + m)
      ≡ record { fin = fin; opcode = opcode; masked = true; short_length = m }
unfolding parse_head
parse_head_client true opcode m op h = ground arith
parse_head_client false opcode m op h = ground arith

-- The bytes of any frame that a client may send (a payload of at most 16 MB; at most 125 bytes and no
-- fragment, if it is a control frame), under any mask, read as that frame, with the payload unmasked
-- and the bytes behind it left.
pub client_frame_roundtrip :
    (fin : Bool) (opcode k0 k1 k2 k3 : ℕ) (payload rest : List ℕ)
    → opcode < 16
    → All IsByte (k0 ∷ k1 ∷ k2 ∷ k3 ∷ [])
    → All IsByte payload
    → IsAllowed fin opcode (length payload)
    → read_frame (client_frame fin opcode k0 k1 k2 k3 payload rest)
      ≡ frame (record { fin = fin; opcode = opcode; payload = payload }) rest
unfolding read_frame length_bytes
client_frame_roundtrip fin opcode k0 k1 k2 k3 payload rest op key bytes allowed =
    let n = length payload in
    let body = k0 ∷ k1 ∷ k2 ∷ k3 ∷ (unmask (k0 ∷ k1 ∷ k2 ∷ k3 ∷ []) 0 payload ++ rest) in
    let last = read_payload_client fin opcode k0 k1 k2 k3 payload rest key bytes allowed in
    let fits : n < 2 ^ 64 = omega arith in
    elim (Bool-cases (ltb n 126)) [
      | inl small ↦
          rw small
            (ground (arith, parse_head_client fin opcode n op, read_length_small n body, last))
      | inr large ↦ elim (Bool-cases (leb n 0xffff)) [
        | inl two ↦
            rw (large, two)
              (ground (arith, parse_head_client fin opcode 126 op, read_length_two n body, last))
        | inr eight ↦
            rw (large, eight)
              (ground (arith, parse_head_client fin opcode 127 op, read_length_eight n body, last))
      ]
    ]

length-take-le : (n : ℕ) (xs : List ℕ) → leb n (length xs) ≡ true → length (take n xs) ≡ n
length-take-le n xs h = length-take n xs (ground arith)

read_payload-IsAllowed :
    (fin : Bool) (opcode n : ℕ) (bytes : List ℕ) (f : Frame) (rest : List ℕ)
    → read_payload fin opcode n bytes ≡ frame f rest
    → IsAllowed f.fin f.opcode (length f.payload)
unfolding read_payload read_exactly
read_payload-IsAllowed fin opcode n bytes f rest e =
    ground (
      arith,
      length-take-le n (drop 4 bytes),
      length-unmask (take 4 bytes) 0 (take n (drop 4 bytes)),
    )

-- Every frame that the reader accepts was masked, is at most 16 MB long, and, if it is a control
-- frame, is final and at most 125 bytes long.
pub accepted_frame_conforms :
    (b1 b2 : ℕ) (bytes : List ℕ) (f : Frame) (rest : List ℕ)
    → read_frame (b1 ∷ b2 ∷ bytes) ≡ frame f rest
    → (b2 / 128 % 2 ≡ 1) × IsAllowed f.fin f.opcode (length f.payload)
unfolding read_frame parse_head
accepted_frame_conforms b1 b2 bytes f rest e =
    let fin = b1 / 128 % 2 == 1 in
    elim (Option-cases (read_length (b2 % 128) bytes)) [
      | inl short ↦ ground arith
      | inr ((n, behind), found) ↦
          ground (arith, read_payload-IsAllowed fin (b1 % 16) n behind f rest)
    ]
