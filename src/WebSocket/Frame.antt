-- ===== src/WebSocket/Frame.antt =====
-- src/multiloop/_websocket.py: the bytes of a frame. `_send_frame` writes frames, the fallback
-- branch of `_reader_loop` reads headers. A byte is a number below 256; `x & 0x0f` is `x % 16`,
-- `0x80 | x` is `128 + x` for x below 128.
use gsyncio.Common.{
  ℕ, zero, suc, ◌+◌, ◌*◌, ◌/◌, ◌%◌, ◌^◌, Bool, Option, none, some, List, [], ◌∷◌, ◌++◌,
  if◌then◌else◌, ltb, leb, ◌==◌, length, take, drop, get_or,
}
use Prim.Native.Nat.{bit_xor}

-- `struct.pack`: the last `k` digits of `n` in base 256, the most significant first.
unfoldable pub pack : ℕ → ℕ → List ℕ
pack zero n = []
pack (suc k) n = (n / 256 ^ k % 256) ∷ pack k n

-- `struct.unpack`
unfoldable pub unpack : ℕ → List ℕ → ℕ
unpack acc [] = acc
unpack acc (b ∷ bytes) = unpack (acc * 256 + b) bytes

-- The length bytes that `_send_frame` appends: 7 bits, 126 and 2 bytes, or 127 and 8 bytes.
unfoldable pub length_bytes : ℕ → List ℕ
unfolding pack
length_bytes n =
    if ltb n 126 then n ∷ [] else (if leb n 0xffff then 126 ∷ pack 2 n else 127 ∷ pack 8 n)

-- `_send_frame`: the bytes written for one frame.
unfoldable pub frame_bytes : ℕ → List ℕ → List ℕ
frame_bytes opcode payload = (128 + opcode % 16) ∷ (length_bytes (length payload) ++ payload)

-- The first two bytes of a frame.
pub record Head : Type 0 where
  pub fin : Bool
  pub opcode : ℕ
  pub masked : Bool
  pub short_length : ℕ

unfoldable pub parse_head : ℕ → ℕ → Head
parse_head b1 b2 = record {
  fin = b1 / 128 % 2 == 1;
  opcode = b1 % 16;
  masked = b2 / 128 % 2 == 1;
  short_length = b2 % 128;
}

-- `readexactly(n)`: none stands for IncompleteReadError.
unfoldable pub read_exactly : ℕ → List ℕ → Option (List ℕ × List ℕ)
read_exactly n bytes = if leb n (length bytes) then some (take n bytes, drop n bytes) else none

-- The payload length behind the first two bytes, with the bytes that follow it.
unfoldable pub read_length : ℕ → List ℕ → Option (ℕ × List ℕ)
unfolding unpack read_exactly
read_length short_length bytes =
    if short_length == 126
    then elim (read_exactly 2 bytes) [ none ↦ none | some (b, rest) ↦ some (unpack 0 b, rest) ]
    else (if short_length == 127
        then elim (read_exactly 8 bytes) [ none ↦ none | some (b, rest) ↦ some (unpack 0 b, rest) ]
        else some (short_length, bytes))

-- `bytes(b ^ mask_key[i % 4] for i, b in enumerate(raw_payload))`, from the index `i` on.
unfoldable pub unmask : List ℕ → ℕ → List ℕ → List ℕ
unmask mask_key i [] = []
unmask mask_key i (b ∷ raw_payload) =
    bit_xor b (get_or mask_key (i % 4) 0) ∷ unmask mask_key (i + 1) raw_payload
