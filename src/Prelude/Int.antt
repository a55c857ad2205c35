-- ===== src/Prelude/Int.antt =====
-- Signed integers: `negsuc n` is -(n + 1). An intN_t is written as its two's complement pattern.
use native.Mathlib.Nat.{mod-eq_of_lt}
use c.Prelude.{ℕ, ◌-◌, ◌%◌, ◌^◌, ◌<◌, ◌≡◌, refl, Bool, true, ltb, leb, lt→ltb, if◌then◌else◌, arith}

pub data ℤ : Type 0 where
  pos : ℕ → ℤ
  negsuc : ℕ → ℤ

-- The pattern of a value at w bits, and the value of a pattern.
abbrev pub pattern_of : ℕ → ℤ → ℕ
pattern_of w (pos n) = n % 2 ^ w
pattern_of w (negsuc n) = 2 ^ w - 1 - n % 2 ^ w

abbrev pub signed : ℕ → ℕ → ℤ
signed w p = if ltb p (2 ^ (w - 1)) then pos p else negsuc (2 ^ w - 1 - p)

-- (int)size <= fd, for an fd that is not negative.
abbrev below_int : ℤ → ℕ → Bool
below_int (pos n) fd = leb n fd
below_int (negsuc n) fd = true

unfoldable pub int_at_most : ℕ → ℕ → Bool
int_at_most size fd = below_int (signed 32 (size % 2 ^ 32)) fd

-- A size below 2 ^ 31 is not changed by the cast.
pub int_at_most-small : (size fd : ℕ) → size < 2 ^ 31 → int_at_most size fd ≡ leb size fd
unfolding int_at_most
int_at_most-small size fd h =
    let same : size % 2 ^ 32 ≡ size = mod-eq_of_lt (omega (arith, h)) in
    rw (same, lt→ltb size (2 ^ 31) h) refl
