-- ===== src/WebSocket/Masking.antt =====
-- Masking is its own inverse: what the client masks, the reader recovers.
use Prim.Native.Nat.{bit_xor}
use gsyncio.Common.{
  ℕ, zero, suc, ◌+◌, ◌%◌, ◌<◌, ◌≡◌, refl, Bool, true, List, [], ◌∷◌, ◌&&◌, arith, ◌==◌, ==_iff, All,
  get_or,
}
use gsyncio.WebSocket.Frame.{unmask}

-- Does the mask byte k give back every byte below n?
restores : (k : ℕ) → (n : ℕ) → Bool
restores k zero = true
restores k (suc n) = (bit_xor (bit_xor n k) k == n) && restores k n

-- And every mask byte below m every byte?
restore_all : (m : ℕ) → Bool
restore_all zero = true
restore_all (suc m) = restores m 256 && restore_all m

restores-xor : (k n b : ℕ) → b < n → restores k n ≡ true → bit_xor (bit_xor b k) k ≡ b
unfolding restores
restores-xor k zero b lt h = absurd (omega arith)
restores-xor k (suc n) b lt h =
    ground (arith, restores-xor k n b, ==_iff (bit_xor (bit_xor b k) k) b)

restore_all-restores : (m k : ℕ) → k < m → restore_all m ≡ true → restores k 256 ≡ true
unfolding restore_all
restore_all-restores zero k lt h = absurd (omega arith)
restore_all-restores (suc m) k lt h = ground (arith, restore_all-restores m k)

all_bytes_restored : restore_all 256 ≡ true
unfolding restore_all restores
all_bytes_restored = refl

xor_twice : (b k : ℕ) → b < 256 → k < 256 → bit_xor (bit_xor b k) k ≡ b
xor_twice b k hb hk = restores-xor k 256 b hb (restore_all-restores 256 k hk all_bytes_restored)

-- A byte.
abbrev pub IsByte : ℕ → Type 0
IsByte b = b < 256

get_or-IsByte : (xs : List ℕ) (i : ℕ) → All IsByte xs → IsByte (get_or xs i 0)
get_or-IsByte [] i h = omega arith
get_or-IsByte (x ∷ xs) zero h = h.0
get_or-IsByte (x ∷ xs) (suc i) h = get_or-IsByte xs i h.1

-- Applying a mask of bytes twice, from the same position on, gives any payload of bytes back.
pub unmask_twice :
    (mask_key : List ℕ) (i : ℕ) (payload : List ℕ)
    → All IsByte mask_key
    → All IsByte payload
    → unmask mask_key i (unmask mask_key i payload) ≡ payload
unfolding unmask
unmask_twice mask_key i [] m h = refl
unmask_twice mask_key i (b ∷ payload) m h = ground (
  arith,
  xor_twice b (get_or mask_key (i % 4) 0) h.0 (get_or-IsByte mask_key (i % 4) m),
  unmask_twice mask_key (i + 1) payload m h.1,
)
