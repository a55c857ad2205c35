-- ===== src/Address/Masks.antt =====
-- The lowest bits of a number, by a mask.
use Prim.Native.Nat.{bit_and, bit_or}
use native.Mathlib.Nat.{
  pow-suc, one-le-pow, add-mul-mod_self_right, mod-eq_of_lt, mod-lt, div-add-mod,
}
use c.Prelude.{ℕ, zero, suc, ◌+◌, ◌-◌, ◌*◌, ◌/◌, ◌%◌, ◌^◌, ◌≤◌, ◌<◌, ◌≡◌, refl, ap, ◌∙◌, arith}
use c.Bits.{bit_and-step, bit_or-step}

bit_or-zero_right : (n a : ℕ) → a ≤ n → bit_or a 0 ≡ a
bit_or-zero_right n zero h = refl
bit_or-zero_right zero (suc a) h = absurd (omega arith)
bit_or-zero_right (suc n) (suc a) h =
    omega (arith, bit_or-step (suc a) 0, bit_or-zero_right n (suc a / 2) (omega arith))

bit_and-zero_right : (n a : ℕ) → a ≤ n → bit_and a 0 ≡ 0
bit_and-zero_right n zero h = refl
bit_and-zero_right zero (suc a) h = absurd (omega arith)
bit_and-zero_right (suc n) (suc a) h =
    omega (arith, bit_and-step (suc a) 0, bit_and-zero_right n (suc a / 2) (omega arith))

mod_unique : (m r q : ℕ) → r < m → (r + q * m) % m ≡ r
mod_unique m r q h = add-mul-mod_self_right r q m ∙ mod-eq_of_lt h

twice : (m q : ℕ) → q * (2 * m) ≡ 2 * (m * q)
twice m q = grind arith

-- The lowest bit of a number and the k above it.
mod-double : (a m : ℕ) → 0 < m → a % (2 * m) ≡ (a / 2 % m) * 2 + a % 2
mod-double a m h =
    let split : a ≡ ((a / 2 % m) * 2 + a % 2) + a / 2 / m * (2 * m) =
      omega (arith, div-add-mod (a / 2) m, twice m (a / 2 / m)) in
    ap (λ n. n % (2 * m)) split
    ∙ mod_unique (2 * m) ((a / 2 % m) * 2 + a % 2) (a / 2 / m) (omega (arith, mod-lt (a / 2) h))

one_le_two_pow : (k : ℕ) → 1 ≤ 2 ^ k
one_le_two_pow k = one-le-pow k 2 (omega arith)

double : (k : ℕ) → 2 ^ suc k ≡ 2 * 2 ^ k
double k = grind (arith, pow-suc 2 k)

pub bit_and-mask : (k a : ℕ) → bit_and a (2 ^ k - 1) ≡ a % 2 ^ k
bit_and-mask zero a = omega (arith, bit_and-zero_right a a (omega arith))
bit_and-mask (suc k) a =
    let half : (2 ^ suc k - 1) / 2 ≡ 2 ^ k - 1 = omega (arith, double k, one_le_two_pow k) in
    let odd : (2 ^ suc k - 1) % 2 ≡ 1 = omega (arith, double k, one_le_two_pow k) in
    let below : bit_and (a / 2) ((2 ^ suc k - 1) / 2) ≡ a / 2 % 2 ^ k =
      ap (bit_and (a / 2)) half ∙ bit_and-mask k (a / 2) in
    let d : a % 2 ^ suc k ≡ a / 2 % 2 ^ k * 2 + a % 2 =
      ap (λ m. a % m) (double k) ∙ mod-double a (2 ^ k) (one_le_two_pow k) in
    omega (arith, bit_and-step a (2 ^ suc k - 1), below, d, odd)

pub bit_or-mask : (k a : ℕ) → bit_or a (2 ^ k - 1) + a % 2 ^ k ≡ a + (2 ^ k - 1)
bit_or-mask zero a = omega (arith, bit_or-zero_right a a (omega arith))
bit_or-mask (suc k) a =
    let half : (2 ^ suc k - 1) / 2 ≡ 2 ^ k - 1 = omega (arith, double k, one_le_two_pow k) in
    let odd : (2 ^ suc k - 1) % 2 ≡ 1 = omega (arith, double k, one_le_two_pow k) in
    let below : bit_or (a / 2) ((2 ^ suc k - 1) / 2) + a / 2 % 2 ^ k ≡ a / 2 + (2 ^ k - 1) =
      ap (λ n. bit_or (a / 2) n + a / 2 % 2 ^ k) half ∙ bit_or-mask k (a / 2) in
    let d : a % 2 ^ suc k ≡ a / 2 % 2 ^ k * 2 + a % 2 =
      ap (λ m. a % m) (double k) ∙ mod-double a (2 ^ k) (one_le_two_pow k) in
    omega (arith, bit_or-step a (2 ^ suc k - 1), below, d, odd, double k, one_le_two_pow k)
