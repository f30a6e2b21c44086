-- ===== src/Pagination/Bytes.antt =====
-- `struct.pack(">q", …)`, `UUID.bytes` and back: big-endian bytes of a number.
use native.Mathlib.Nat.{pow-suc, mul-le-mul_right, lt_of_lt_of_le}
use chatspace.Prelude.{
  ℕ, zero, suc, ◌+◌, ◌*◌, ◌/◌, ◌%◌, ◌^◌, ◌<◌, ◌≤◌, ◌≡◌, refl, ◌∙◌, List, [], ◌∷◌, ◌++◌, length,
  arith, All,
}

-- The low `k` bytes of a number, the most significant first.
unfoldable pub to_bytes : ℕ → ℕ → List ℕ
to_bytes zero v = []
to_bytes (suc k) v = to_bytes k (v / 256) ++ (v % 256 ∷ [])

unfoldable pub from_bytes : ℕ → List ℕ → ℕ
from_bytes acc [] = acc
from_bytes acc (b ∷ bs) = from_bytes (acc * 256 + b) bs

from_bytes-append_one :
    (acc : ℕ) (bs : List ℕ) (b : ℕ) → from_bytes acc (bs ++ (b ∷ [])) ≡ from_bytes acc bs * 256 + b
unfolding from_bytes
from_bytes-append_one acc [] b = refl
from_bytes-append_one acc (x ∷ bs) b = from_bytes-append_one (acc * 256 + x) bs b

-- What fits in `k` bytes is read back.
pub from_bytes-to_bytes : (k v : ℕ) → v < 256 ^ k → from_bytes 0 (to_bytes k v) ≡ v
unfolding from_bytes to_bytes
from_bytes-to_bytes zero v h = omega arith
from_bytes-to_bytes (suc k) v h =
    from_bytes-append_one 0 (to_bytes k (v / 256)) (v % 256)
    ∙ omega (arith, from_bytes-to_bytes k (v / 256) (omega (arith, pow-suc 256 k)))

-- Bytes read as a number stay below the bound of their length.
pub from_bytes-lt :
    (acc : ℕ) (bs : List ℕ)
    → All (λ b. b < 256) bs
    → from_bytes acc bs < (acc + 1) * 256 ^ length bs
unfolding from_bytes
from_bytes-lt acc [] h = omega arith
from_bytes-lt acc (b ∷ bs) (hb, hs) =
    let p : (acc * 256 + b + 1) * 256 ^ length bs ≤ (acc + 1) * 256 * 256 ^ length bs =
      mul-le-mul_right (256 ^ length bs) (omega arith) in
    let e : (acc + 1) * 256 * 256 ^ length bs ≡ (acc + 1) * 256 ^ suc (length bs) =
      rw pow-suc (grind arith) in
    lt_of_lt_of_le (from_bytes-lt (acc * 256 + b) bs hs) (rw e at p)
