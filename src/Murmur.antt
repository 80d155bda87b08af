-- ===== src/Murmur.antt =====
-- The 32-bit MurmurHash3 digest: internal/engine/impl/sketch/statistic/hash.go.
pub mod Bounds
mod Tests
use go2net_spectra.Base.{
  ℕ, ◌+◌, ◌-◌, ◌*◌, ◌/◌, ◌%◌, ◌^◌, List, [], ◌∷◌, bit_xor, bit_or, length, Bytes,
}

-- `uint32` arithmetic wraps.
abbrev pub u32 : ℕ → ℕ
u32 x = x % 2 ^ 32

abbrev pub c1_32 : ℕ
c1_32 = 0xcc9e2d51

abbrev pub c2_32 : ℕ
c2_32 = 0x1b873593

-- `x << k` on `uint32`.
abbrev pub shl32 : ℕ → ℕ → ℕ
shl32 x k = u32 (x * 2 ^ k)

-- `bits.RotateLeft32(x, k)` for 0 < k < 32.
unfoldable pub rotate_left32 : ℕ → ℕ → ℕ
rotate_left32 x k = bit_or (shl32 x k) (x / 2 ^ (32 - k))

-- What the loop and the tail do to a word before it is mixed in.
unfoldable pub scramble : ℕ → ℕ
unfolding rotate_left32
scramble k1 = u32 (rotate_left32 (u32 (k1 * c1_32)) 15 * c2_32)

-- One round of the loop, with the word read in little-endian order.
unfoldable pub round : ℕ → ℕ → ℕ → ℕ → ℕ → ℕ
unfolding scramble rotate_left32
round h1 a b c d =
    let k1 = bit_or (bit_or (bit_or a (shl32 b 8)) (shl32 c 16)) (shl32 d 24) in
    u32 (rotate_left32 (bit_xor h1 (scramble k1)) 13 * 5 + 0xe6546b64)

-- `for len(data) >= 4` and then the `switch` on what is left.
unfoldable pub absorb : ℕ → Bytes → ℕ
unfolding round scramble
absorb h1 [] = h1
absorb h1 (a ∷ []) = bit_xor h1 (scramble (bit_xor 0 a))
absorb h1 (a ∷ b ∷ []) = bit_xor h1 (scramble (bit_xor (bit_xor 0 (shl32 b 8)) a))
absorb h1 (a ∷ b ∷ c ∷ []) =
    bit_xor h1 (scramble (bit_xor (bit_xor (bit_xor 0 (shl32 c 16)) (shl32 b 8)) a))
absorb h1 (a ∷ b ∷ c ∷ d ∷ rest) = absorb (round h1 a b c d) rest

-- The final mix.
unfoldable pub avalanche : ℕ → ℕ
avalanche h =
    let h1 = u32 (bit_xor h (h / 2 ^ 16) * 0x85ebca6b) in
    let h2 = u32 (bit_xor h1 (h1 / 2 ^ 13) * 0xc2b2ae35) in bit_xor h2 (h2 / 2 ^ 16)

-- `clen := uint32(len(data))` is taken before the loop consumes the data.
unfoldable pub murmur_hash3 : Bytes → ℕ → ℕ
unfolding absorb avalanche
murmur_hash3 input seed = avalanche (bit_xor (absorb seed input) (u32 (length input)))
