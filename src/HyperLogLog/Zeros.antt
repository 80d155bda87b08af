-- ===== src/HyperLogLog/Zeros.antt =====
-- The loop of `leadingZeros32` ends within 32 rounds, at the first one.
use go2net_spectra.Base.{
  ap, inl, inr, Bool-cases, ℕ, zero, suc, ◌*◌, ◌/◌, ◌%◌, ◌^◌, ◌≤◌, ◌<◌, ◌≡◌, refl, arith, ◌==◌,
}
use go2net_spectra.Murmur.{u32}
use go2net_spectra.HyperLogLog.{count_zeros, leading_zeros32}

double_shift : (x k : ℕ) → x * 2 ^ suc k ≡ x * 2 * 2 ^ k
double_shift x k = grind arith

count_zeros_lem :
    (fuel x : ℕ)
    → 0 < x
    → x < 2 ^ 32
    → 2 ^ 31 ≤ x * 2 ^ fuel
    → (2 ^ 31 ≤ x * 2 ^ count_zeros fuel x) × (x * 2 ^ count_zeros fuel x < 2 ^ 32)
unfolding count_zeros
count_zeros_lem zero x pos small enough = (enough, omega arith)
count_zeros_lem (suc fuel) x pos small enough = elim (Bool-cases (x / 2 ^ 31 % 2 == 0)) [
  | inr high ↦ rw high (ground (arith, high))
  | inl low ↦
      let small' : x < 2 ^ 31 = ground (arith, low) in
      let kept : u32 (x * 2) ≡ x * 2 = omega arith in
      let rest = count_zeros fuel (u32 (x * 2)) in
      let ih =
        count_zeros_lem fuel (u32 (x * 2)) (omega arith) (omega arith)
          (omega (arith, kept, ap (λ y. y * 2 ^ fuel) kept, double_shift x fuel, enough)) in
      rw low (omega (arith, double_shift x rest, ap (λ y. y * 2 ^ rest) kept, ih))
]

leading_zeros32-pos : (x : ℕ) → 0 < x → leading_zeros32 x ≡ count_zeros 32 x
unfolding leading_zeros32
leading_zeros32-pos x pos = elim (Bool-cases (x == 0)) [
  | inl none' ↦ absurd (ground (arith, none', pos))
  | inr e ↦ rw e refl
]

-- For a 32-bit word other than 0, `leadingZeros32` is the shift that brings its first one to the top
-- bit.
pub leading_zeros32_lem :
    (x : ℕ)
    → 0 < x
    → x < 2 ^ 32
    → (2 ^ 31 ≤ x * 2 ^ leading_zeros32 x) × (x * 2 ^ leading_zeros32 x < 2 ^ 32)
leading_zeros32_lem x pos small =
    rw (leading_zeros32-pos x pos) (count_zeros_lem 32 x pos small (omega arith))
