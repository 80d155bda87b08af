-- ===== src/Base/Bits.antt =====
-- Facts about `bit_xor` and `bit_or` at variables, from the digit recursions that they stand for.
use Prim.Native.Nat.{
  ℕ, zero, suc, ◌+◌, ◌*◌, ◌/◌, ◌%◌, ◌^◌, ◌<◌, ◌≤◌, max, bit_xor, bit_or, digits, bit_xor-bitwise,
  bit_or-bitwise, differ,
}
use mathlib.Core.Path.{◌≡◌, refl, ap}
use native.Mathlib.Nat.{pow-suc}
use native.Mathlib.Omega.{arith}

differ-lt : (x y : ℕ) → x < 2 → y < 2 → differ x y < 2
differ-lt zero y p q = q
differ-lt (suc x) zero p q = p
differ-lt (suc zero) (suc zero) p q = omega arith
differ-lt (suc zero) (suc (suc y)) p q = absurd (omega arith)
differ-lt (suc (suc x)) (suc y) p q = absurd (omega arith)

max-lt : (x y : ℕ) → x < 2 → y < 2 → max x y < 2
max-lt x y p q = omega arith

-- An operation on two digits that gives a digit keeps within the width.
module _ (f : ℕ → ℕ → ℕ) (digit : (x y : ℕ) → x < 2 → y < 2 → f x y < 2) where
  digits-lt : (k n a b : ℕ) → a < 2 ^ k → b < 2 ^ k → digits (λ y. y) f n a b < 2 ^ k
  digits-lt k zero a b p q = q
  digits-lt k (suc n) zero b p q = q
  digits-lt zero (suc n) (suc a) b p q = absurd (omega arith)
  digits-lt (suc k) (suc n) (suc a) b p q = omega (
    arith,
    pow-suc 2 k,
    digit (suc a % 2) (b % 2) (omega arith) (omega arith),
    digits-lt k n (suc a / 2) (b / 2) (omega (arith, pow-suc 2 k)) (omega (arith, pow-suc 2 k)),
  )

-- An exclusive or of two words of `k` bits is a word of `k` bits.
pub bit_xor-lt : (k a b : ℕ) → a < 2 ^ k → b < 2 ^ k → bit_xor a b < 2 ^ k
bit_xor-lt k a b p q = simp bit_xor-bitwise (digits-lt differ differ-lt k a a b p q)

pub bit_or-lt : (k a b : ℕ) → a < 2 ^ k → b < 2 ^ k → bit_or a b < 2 ^ k
bit_or-lt k a b p q = simp bit_or-bitwise (digits-lt max max-lt k a a b p q)

or_digits-zero : (n a : ℕ) → a ≤ n → digits (λ y. y) max n a 0 ≡ a
or_digits-zero zero a p = omega arith
or_digits-zero (suc n) zero p = refl
or_digits-zero (suc n) (suc a) p = omega (arith, or_digits-zero n (suc a / 2) (omega arith))

or_digits-fields :
    (k n a q r : ℕ) → a ≤ n → a ≡ q * 2 ^ k → r < 2 ^ k → digits (λ y. y) max n a r ≡ a + r
or_digits-fields k zero a q r p e h = omega arith
or_digits-fields k (suc n) zero q r p e h = omega arith
or_digits-fields zero (suc n) (suc a) q zero p e h = omega (arith, or_digits-zero (suc n) (suc a) p)
or_digits-fields zero (suc n) (suc a) q (suc r) p e h = absurd (omega arith)
or_digits-fields (suc k) (suc n) (suc a) q r p e h =
    let twice : q * 2 ^ suc k ≡ 2 * (q * 2 ^ k) =
      omega (arith, ap (λ (t : ℕ). q * t) (pow-suc 2 k)) in
    omega (
      arith,
      twice,
      or_digits-fields k n (suc a / 2) q (r / 2) (omega arith) (omega (arith, twice))
          (omega (arith, pow-suc 2 k)),
    )

-- `(q << k) | r` is a sum when `r` fits `k` bits.
pub bit_or-shifted : (k q r : ℕ) → r < 2 ^ k → bit_or (q * 2 ^ k) r ≡ q * 2 ^ k + r
bit_or-shifted k q r h =
    simp bit_or-bitwise (or_digits-fields k (q * 2 ^ k) (q * 2 ^ k) q r (omega arith) refl h)
