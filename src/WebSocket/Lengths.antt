-- ===== src/WebSocket/Lengths.antt =====
-- What `_send_frame` writes, the reader understands.
use gsyncio.Common.{
  ℕ, ◌+◌, ◌%◌, ◌^◌, ◌<◌, ◌≤◌, ◌≡◌, true, false, some, List, ◌∷◌, ◌++◌, arith, length, ltb, leb,
  Bool-cases, inl, inr,
}
use gsyncio.WebSocket.Frame.{pack, unpack, length_bytes, frame_bytes, parse_head, read_length}

pub unpack-pack_two : (n : ℕ) → n ≤ 0xffff → unpack 0 (pack 2 n) ≡ n
unfolding pack unpack
unpack-pack_two n h = omega arith

pub unpack-pack_eight : (n : ℕ) → n < 2 ^ 64 → unpack 0 (pack 8 n) ≡ n
unfolding pack unpack
unpack-pack_eight n h = omega arith

-- A frame that `_send_frame` writes starts with two bytes that read as a final, unmasked frame of
-- that opcode; the length read behind them is that of the payload, and the payload is what follows.
-- The length takes 2 bytes of header up to 125, 4 up to 65535, and 10 up to 2 ^ 64 - 1.
pub frame_roundtrip :
    (opcode : ℕ) (payload : List ℕ)
    → opcode < 16
    → length payload < 2 ^ 64
    → (b1 b2 : ℕ) × (rest : List ℕ) × (frame_bytes opcode payload ≡ b1 ∷ b2 ∷ rest)
      × (parse_head b1 b2
          ≡ record { fin = true; opcode = opcode; masked = false; short_length = b2 })
      × (read_length b2 rest ≡ some (length payload, payload))
unfolding frame_bytes length_bytes parse_head read_length pack
frame_roundtrip opcode payload op fits =
    let n = length payload in
    elim (Bool-cases (ltb n 126)) [
      | inl small ↦ (128 + opcode % 16, n, payload, rw small, ground arith, ground arith)
      | inr large ↦ elim (Bool-cases (leb n 0xffff)) [
        | inl two ↦ (
          128 + opcode % 16,
          126,
          pack 2 n ++ payload,
          rw (large, two),
          ground arith,
          ground (arith, unpack-pack_two n),
        )
        | inr eight ↦ (
          128 + opcode % 16,
          127,
          pack 8 n ++ payload,
          rw (large, eight),
          ground arith,
          ground (arith, unpack-pack_eight n fits),
        )
      ]
    ]
