-- ===== src/Murmur/Bounds.antt =====
-- The digest is a 32-bit word, and so `MurmurHash3(...) % w` is an index below `w`.
use go2net_spectra.Base.{ℕ, ◌^◌, ◌<◌, Bytes, arith}
use go2net_spectra.Base.Bits.{bit_xor-lt}
use go2net_spectra.Murmur.{avalanche, murmur_hash3}

avalanche-lt : (h : ℕ) → avalanche h < 2 ^ 32
unfolding avalanche
avalanche-lt h = bit_xor-lt 32 _ _ (omega arith) (omega arith)

-- The digest of any data under any seed is a 32-bit word.
pub murmur_hash3-lt : (xs : Bytes) (seed : ℕ) → murmur_hash3 xs seed < 2 ^ 32
unfolding murmur_hash3
murmur_hash3-lt xs seed = avalanche-lt _
