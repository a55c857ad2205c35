-- ===== src/Bits.antt =====
-- Laws of the bit operations on numbers, from the recursion on their binary digits.
use Prim.Native.Nat.{
  min, max, differ, bit_and, bit_or, bit_xor, digits, bit_and-bitwise, bit_or-bitwise,
  bit_xor-bitwise,
}
use native.Mathlib.Nat.{pow-suc, one-le-pow}
use c.Prelude.{ℕ, zero, suc, ◌+◌, ◌-◌, ◌*◌, ◌/◌, ◌%◌, ◌^◌, ◌≤◌, ◌<◌, ◌≡◌, refl, ap, arith}

-- The count of digits to go does not matter, as long as it is enough.
module _ (z : ℕ → ℕ) (f : ℕ → ℕ → ℕ) where
  digits_enough : (n m a b : ℕ) → a ≤ n → a ≤ m → digits z f n a b ≡ digits z f m a b
  digits_enough zero zero a b p q = refl
  digits_enough zero (suc m) zero b p q = refl
  digits_enough zero (suc m) (suc a) b p q = absurd (omega arith)
  digits_enough (suc n) zero zero b p q = refl
  digits_enough (suc n) zero (suc a) b p q = absurd (omega arith)
  digits_enough (suc n) (suc m) zero b p q = refl
  digits_enough (suc n) (suc m) (suc a) b p q =
      omega (arith, digits_enough n m (suc a / 2) (b / 2) (omega arith) (omega arith))

-- The lowest digit, and the others.
pub bit_and-step : (a b : ℕ) → bit_and a b ≡ bit_and (a / 2) (b / 2) * 2 + min (a % 2) (b % 2)
bit_and-step zero b = omega (arith, bit_and-bitwise 0 b, bit_and-bitwise 0 (b / 2))
bit_and-step (suc a) b = omega (
  arith,
  bit_and-bitwise (suc a) b,
  bit_and-bitwise (suc a / 2) (b / 2),
  digits_enough (λ _. zero) min a (suc a / 2) (suc a / 2) (b / 2) (omega arith) (omega arith),
)

pub bit_or-step : (a b : ℕ) → bit_or a b ≡ bit_or (a / 2) (b / 2) * 2 + max (a % 2) (b % 2)
bit_or-step zero b = omega (arith, bit_or-bitwise 0 b, bit_or-bitwise 0 (b / 2))
bit_or-step (suc a) b = omega (
  arith,
  bit_or-bitwise (suc a) b,
  bit_or-bitwise (suc a / 2) (b / 2),
  digits_enough (λ d. d) max a (suc a / 2) (suc a / 2) (b / 2) (omega arith) (omega arith),
)

pub bit_xor-step : (a b : ℕ) → bit_xor a b ≡ bit_xor (a / 2) (b / 2) * 2 + differ (a % 2) (b % 2)
bit_xor-step zero b =
    omega (arith, bit_xor-bitwise 0 b, bit_xor-bitwise 0 (b / 2), differ_zero (b % 2))
  where
    differ_zero : (d : ℕ) → differ 0 d ≡ d
    differ_zero d = refl
bit_xor-step (suc a) b = omega (
  arith,
  bit_xor-bitwise (suc a) b,
  bit_xor-bitwise (suc a / 2) (b / 2),
  digits_enough (λ d. d) differ a (suc a / 2) (suc a / 2) (b / 2) (omega arith) (omega arith),
)

bit_and-zero_right : (n a : ℕ) → a ≤ n → bit_and a 0 ≡ 0
bit_and-zero_right n zero h = refl
bit_and-zero_right zero (suc a) h = absurd (omega arith)
bit_and-zero_right (suc n) (suc a) h =
    omega (arith, bit_and-step (suc a) 0, bit_and-zero_right n (suc a / 2) (omega arith))

-- v & 0x7F and v & 1.
pub bit_and-one : (a : ℕ) → bit_and a 1 ≡ a % 2
bit_and-one a = omega (arith, bit_and-step a 1, bit_and-zero_right (a / 2) (a / 2) (omega arith))

pub bit_and-three : (a : ℕ) → bit_and a 3 ≡ a % 4
bit_and-three a = omega (arith, bit_and-step a 3, bit_and-one (a / 2))

pub bit_and-fifteen : (a : ℕ) → bit_and a 15 ≡ a % 16
bit_and-fifteen a =
    omega (arith, bit_and-step a 15, bit_and-step (a / 2) 7, bit_and-three (a / 2 / 2))

pub bit_and-0x7f : (a : ℕ) → bit_and a 0x7f ≡ a % 128
bit_and-0x7f a = omega (
  arith,
  bit_and-step a 127,
  bit_and-step (a / 2) 63,
  bit_and-step (a / 2 / 2) 31,
  bit_and-fifteen (a / 2 / 2 / 2),
)

bit_or-zero_left : (b : ℕ) → bit_or 0 b ≡ b
bit_or-zero_left b = bit_or-bitwise 0 b

double : (q k : ℕ) → q * 2 ^ suc k ≡ 2 * (q * 2 ^ k)
double q k = omega (arith, ap (λ (t : ℕ). q * t) (pow-suc 2 k))

-- `a | (q << k)` is a sum when `a` fits k bits.
pub bit_or-shifted : (k a q : ℕ) → a < 2 ^ k → bit_or a (q * 2 ^ k) ≡ a + q * 2 ^ k
bit_or-shifted zero a q h = ground (arith, bit_or-zero_left q)
bit_or-shifted (suc k) a q h = ground (
  arith,
  bit_or-step a (q * 2 ^ suc k),
  double q k,
  pow-suc 2 k,
  bit_or-shifted k (a / 2) q (omega (arith, pow-suc 2 k)),
)

-- `x ^ 0` and `x ^ ~0` at k bits.
pub bit_xor-zero : (k x : ℕ) → x < 2 ^ k → bit_xor x 0 ≡ x
bit_xor-zero zero x h = ground (arith, bit_xor-bitwise 0 0)
bit_xor-zero (suc k) x h = omega (
  arith,
  bit_xor-step x 0,
  bit_xor-zero k (x / 2) (omega (arith, pow-suc 2 k)),
  differ_right (x % 2),
)
  where
    differ_right : (d : ℕ) → differ d 0 ≡ d
    differ_right zero = refl
    differ_right (suc d) = refl

differ_one : (d : ℕ) → d < 2 → differ d 1 ≡ 1 - d
differ_one zero h = omega arith
differ_one (suc zero) h = omega arith
differ_one (suc (suc d)) h = absurd (omega arith)

pub bit_xor-ones : (k x : ℕ) → x < 2 ^ k → bit_xor x (2 ^ k - 1) ≡ 2 ^ k - 1 - x
bit_xor-ones zero x h = ground (arith, bit_xor-bitwise 0 0)
bit_xor-ones (suc k) x h = omega (
  arith,
  bit_xor-step x (2 ^ suc k - 1),
  ap (bit_xor (x / 2)) half,
  ap (differ (x % 2)) odd,
  bit_xor-ones k (x / 2) (omega (arith, pow-suc 2 k)),
  differ_one (x % 2) (omega arith),
  pow-suc 2 k,
  one-le-pow k 2,
)
  where
    half : (2 ^ suc k - 1) / 2 ≡ 2 ^ k - 1
    half = omega (arith, pow-suc 2 k, one-le-pow k 2)

    odd : (2 ^ suc k - 1) % 2 ≡ 1
    odd = omega (arith, pow-suc 2 k, one-le-pow k 2)
