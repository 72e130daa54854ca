-- ===== src/Prelude/Bits.antt =====
-- Bitwise OR of numbers that share no digit is their sum.
use Prim.Native.Nat.{
  ℕ, zero, suc, ◌+◌, ◌*◌, ◌/◌, ◌%◌, ◌^◌, ◌≤◌, ◌<◌, max, bit_or, digits, bit_or-bitwise,
}
use mathlib.Core.Path.{◌≡◌, refl, ap}
use native.Mathlib.Omega.{arith}
use native.Mathlib.Nat.{pow-suc}

abbrev or_digits : ℕ → ℕ → ℕ → ℕ
or_digits = digits (λ b. b) max

-- Any count of digits that the first number does not exceed gives the same result.
or_digits_count : (n m a b : ℕ) → a ≤ n → a ≤ m → or_digits n a b ≡ or_digits m a b
or_digits_count zero m zero b p q = elim m as (λ k. b ≡ or_digits k zero b) [
  | zero ↦ refl
  | suc k ↦ refl
]
or_digits_count zero m (suc a) b p q = absurd (omega arith)
or_digits_count (suc n) zero zero b p q = refl
or_digits_count (suc n) zero (suc a) b p q = absurd (omega arith)
or_digits_count (suc n) (suc m) zero b p q = refl
or_digits_count (suc n) (suc m) (suc a) b p q =
    omega (arith, or_digits_count n m (suc a / 2) (b / 2) (omega arith) (omega arith))

pub zero-bit_or : (b : ℕ) → bit_or 0 b ≡ b
zero-bit_or b = bit_or-bitwise 0 b

pub bit_or_step : (a b : ℕ) → bit_or a b ≡ bit_or (a / 2) (b / 2) * 2 + max (a % 2) (b % 2)
bit_or_step zero b = omega (arith, zero-bit_or b, zero-bit_or (b / 2))
bit_or_step (suc a) b = omega (
  arith,
  bit_or-bitwise (suc a) b,
  bit_or-bitwise (suc a / 2) (b / 2),
  or_digits_count a (suc a / 2) (suc a / 2) (b / 2) (omega arith) (omega arith),
)

half : (t : ℕ) → 2 * t / 2 ≡ t
half t = omega arith

or_fuel : (n a : ℕ) → a ≤ n → bit_or a 0 ≡ a
or_fuel zero zero h = zero-bit_or 0
or_fuel zero (suc a) h = absurd (omega arith)
or_fuel (suc n) zero h = zero-bit_or 0
or_fuel (suc n) (suc a) h =
    omega (arith, bit_or_step (suc a) 0, or_fuel n (suc a / 2) (omega arith))

pub bit_or-zero : (a : ℕ) → bit_or a 0 ≡ a
bit_or-zero a = or_fuel a a (omega arith)

-- `lo | (hi << k)` where `lo` has at most `k` digits.
pub bit_or_shifted : (k lo hi : ℕ) → lo < 2 ^ k → bit_or lo (hi * 2 ^ k) ≡ lo + hi * 2 ^ k
bit_or_shifted zero zero hi h = omega (arith, zero-bit_or (hi * 2 ^ 0))
bit_or_shifted zero (suc lo) hi h = absurd (omega arith)
bit_or_shifted (suc k) lo hi h =
    let p : 2 ^ suc k ≡ 2 * 2 ^ k = omega (arith, pow-suc 2 k) in
    let e : hi * 2 ^ suc k ≡ 2 * (hi * 2 ^ k) = omega (arith, ap (λ (t : ℕ). hi * t) p) in
    rw e (
      omega (
        arith,
        bit_or_step lo (2 * (hi * 2 ^ k)),
        ap (λ (t : ℕ). bit_or (lo / 2) t) (half (hi * 2 ^ k)),
        bit_or_shifted k (lo / 2) hi (omega (arith, p)),
      ))

-- `(hi << k) | lo`, the other way round.
pub shifted_bit_or : (k lo hi : ℕ) → lo < 2 ^ k → bit_or (hi * 2 ^ k) lo ≡ hi * 2 ^ k + lo
shifted_bit_or zero zero hi h = omega (arith, bit_or-zero (hi * 2 ^ 0))
shifted_bit_or zero (suc lo) hi h = absurd (omega arith)
shifted_bit_or (suc k) lo hi h =
    let p : 2 ^ suc k ≡ 2 * 2 ^ k = omega (arith, pow-suc 2 k) in
    let e : hi * 2 ^ suc k ≡ 2 * (hi * 2 ^ k) = omega (arith, ap (λ (t : ℕ). hi * t) p) in
    rw e (
      omega (
        arith,
        bit_or_step (2 * (hi * 2 ^ k)) lo,
        ap (λ (t : ℕ). bit_or t (lo / 2)) (half (hi * 2 ^ k)),
        shifted_bit_or k (lo / 2) hi (omega (arith, p)),
      ))
