-- ===== src/Serial/Bytes.antt =====
-- The bytes of a value and back, and byteswap.
use mathlib.Core.List.{reverse, reverse-reverse, reverse-cons}
use native.Mathlib.Nat.{pow-suc}
use c.Prelude.{
  ℕ, zero, suc, ◌+◌, ◌*◌, ◌/◌, ◌%◌, ◌^◌, ◌<◌, ◌≡◌, refl, ap, ◌∙◌, Bool, true, false, List, [], ◌∷◌,
  ◌++◌, length, length-append, arith, All,
}
use c.Serial.{le_bytes, from_le, byteswap, image}

abbrev pub IsByte : ℕ → Type 0
IsByte x = x < 256

pub length-le_bytes : (n v : ℕ) → length (le_bytes n v) ≡ n
unfolding le_bytes
length-le_bytes zero v = refl
length-le_bytes (suc n) v = ap suc (length-le_bytes n (v / 256))

le_bytes-IsByte : (n v : ℕ) → All IsByte (le_bytes n v)
unfolding le_bytes
le_bytes-IsByte zero v = tt
le_bytes-IsByte (suc n) v = (omega arith, le_bytes-IsByte n (v / 256))

pub from_le-le_bytes : (n v : ℕ) → v < 256 ^ n → from_le (le_bytes n v) ≡ v
unfolding le_bytes from_le
from_le-le_bytes zero v h = omega arith
from_le-le_bytes (suc n) v h =
    omega (arith, pow-suc 256 n, from_le-le_bytes n (v / 256) (omega (arith, pow-suc 256 n)))

-- Bytes are determined by their value.
le_bytes-from_le :
    (xs : List ℕ) (n : ℕ) → All IsByte xs → length xs ≡ n → le_bytes n (from_le xs) ≡ xs
unfolding le_bytes from_le
le_bytes-from_le [] zero h e = refl
le_bytes-from_le [] (suc n) h e = absurd (omega arith)
le_bytes-from_le (x ∷ xs) zero h e = absurd (omega arith)
le_bytes-from_le (x ∷ xs) (suc n) (hx, h) e =
    rw (low, high) (ap (◌∷◌ x) (le_bytes-from_le xs n h (omega arith)))
  where
    low : (x + 256 * from_le xs) % 256 ≡ x
    low = omega arith

    high : (x + 256 * from_le xs) / 256 ≡ from_le xs
    high = omega arith

All-snoc : (xs : List ℕ) (y : ℕ) → All IsByte xs → IsByte y → All IsByte (xs ++ y ∷ [])
All-snoc [] y h hy = (hy, tt)
All-snoc (x ∷ xs) y (hx, h) hy = (hx, All-snoc xs y h hy)

All-reverse : (xs : List ℕ) → All IsByte xs → All IsByte (reverse xs)
All-reverse [] h = h
All-reverse (x ∷ xs) (hx, h) =
    rw (reverse-cons x xs) (All-snoc (reverse xs) x (All-reverse xs h) hx)

pub length-reverse : (xs : List ℕ) → length (reverse xs) ≡ length xs
length-reverse [] = refl
length-reverse (x ∷ xs) =
    omega
      (arith, ap length (reverse-cons x xs), length-append (reverse xs) (x ∷ []), length-reverse xs)

pub length-image : (host : Bool) (n v : ℕ) → length (image host n v) ≡ n
length-image true n v = length-le_bytes n v
length-image false n v = length-reverse (le_bytes n v) ∙ length-le_bytes n v

-- Swapping turns the bytes round.
pub le_bytes-byteswap : (n v : ℕ) → le_bytes n (byteswap n v) ≡ reverse (le_bytes n v)
unfolding byteswap
le_bytes-byteswap n v =
    le_bytes-from_le (reverse (le_bytes n v)) n (All-reverse (le_bytes n v) (le_bytes-IsByte n v))
      (length-reverse (le_bytes n v) ∙ length-le_bytes n v)

pub byteswap-reverse : (n v : ℕ) → v < 256 ^ n → byteswap n (from_le (reverse (le_bytes n v))) ≡ v
unfolding byteswap
byteswap-reverse n v h =
    ap (λ (xs : List ℕ). from_le (reverse xs)) (le_bytes-byteswap n v)
    ∙ ap from_le (reverse-reverse (le_bytes n v))
    ∙ from_le-le_bytes n v h
