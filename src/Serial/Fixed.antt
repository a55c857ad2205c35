-- ===== src/Serial/Fixed.antt =====
-- The fixed-size integers: their byte order, and that they are read back.
use mathlib.Core.List.{reverse, reverse-reverse}
use c.Prelude.{
  ℕ, ◌+◌, ◌-◌, ◌^◌, ◌<◌, ◌≡◌, refl, sym, ap, ◌∙◌, Bool, true, false, List, ◌++◌, if◌then◌else◌,
  length, drop, arith, Bool-cases, inl, inr,
}
use c.ByteArray.{ByteArray, Result, ok, out_of_range, undefined, ◌>>=◌, write, read, set_position}
use c.ByteArray.Valid.{Valid}
use c.ByteArray.Content.{content, write-IsWrite}
use c.ByteArray.Ahead.{ahead, read-ahead, IsNext, rewind}
use c.Prelude.Int.{ℤ, pos, negsuc, pattern_of, signed}
use native.Mathlib.Nat.{mod-lt, one-le-pow}
use c.Serial.{
  as_signed, write_fint16, write_fint32, write_fint64, read_fint16, read_fint32, read_fint64,
  le_bytes, from_le, byteswap, image, value_of, same_order, write_fixed, read_fixed,
}
use c.Serial.Bytes.{from_le-le_bytes, le_bytes-byteswap, byteswap-reverse, length-image}

-- The bytes in the array's byte order.
abbrev pub wire : Bool → ℕ → ℕ → List ℕ
wire little n v = if little then le_bytes n v else reverse (le_bytes n v)

wire-image :
    (host : Bool) (n v : ℕ) (b : ByteArray)
    → image host n (if same_order host b then v else byteswap n v) ≡ wire b.little_endian n v
wire-image true n v b = elim (Bool-cases b.little_endian) [
  | inl e ↦ rw e refl
  | inr e ↦ rw e (le_bytes-byteswap n v)
]
wire-image false n v b = elim (Bool-cases b.little_endian) [
  | inl e ↦ rw e (ap reverse (le_bytes-byteswap n v) ∙ reverse-reverse (le_bytes n v))
  | inr e ↦ rw e refl
]

-- On a machine of either byte order, a fixed-size integer is written in the byte order of the array.
pub write_fixed-wire :
    (host : Bool) (n v : ℕ) (b : ByteArray)
    → write_fixed host n v b ≡ write (wire b.little_endian n v) b
unfolding write_fixed
write_fixed-wire host n v b = ap (λ (xs : List ℕ). write xs b) (wire-image host n v b)

value-wire :
    (host : Bool) (n v : ℕ) (b : ByteArray)
    → v < 256 ^ n
    → (if same_order host b
        then value_of host (wire b.little_endian n v)
        else byteswap n (value_of host (wire b.little_endian n v)))
      ≡ v
value-wire true n v b h = elim (Bool-cases b.little_endian) [
  | inl e ↦ rw e (from_le-le_bytes n v h)
  | inr e ↦ rw e (byteswap-reverse n v h)
]
value-wire false n v b h = elim (Bool-cases b.little_endian) [
  | inl e ↦ rw e (byteswap-reverse n v h)
  | inr e ↦ rw e (ap from_le (reverse-reverse (le_bytes n v)) ∙ from_le-le_bytes n v h)
]

-- An integer whose bytes lie ahead is read, on a machine of either byte order.
pub read_fixed-ahead :
    (host : Bool) (n v : ℕ) (ys : List ℕ) (b : ByteArray)
    → Valid b
    → 0 < n
    → v < 256 ^ n
    → ahead b ≡ wire b.little_endian n v ++ ys
    → (b' : ByteArray) × (read_fixed host n b ≡ ok (v, b')) × IsNext ys b b'
unfolding read_fixed
read_fixed-ahead host n v ys b valid nz h e =
    let (b', r, next) =
      read-ahead (wire b.little_endian n v) ys b valid e
        (omega (arith, length-image b.little_endian n v)) in
    (
      b',
      ap (λ (k : ℕ). read k b >>= unpack) (sym (length-image b.little_endian n v))
          ∙ ap (λ m. m >>= unpack) r
          ∙ ap (λ (x : ℕ). ok (x, b')) (value-wire host n v b h),
      next,
    )
  where
    unpack : List ℕ × ByteArray → Result (ℕ × ByteArray)
    unpack r =
        let v' = value_of host r.0 in ok (if same_order host b then v' else byteswap n v', r.1)

-- A reader gets the value v, and leaves a valid array.
abbrev pub ReadsBack {ℓ} : {A : Type ℓ} → Result (A × ByteArray) → A → Type ℓ
ReadsBack m v = (b' : ByteArray) × (m ≡ ok (v, b')) × Valid b'

-- In a valid array: a value that fits n bytes, written on one machine and, with the position set
-- back, read on another of any byte order, is read back, and the array is valid.
pub read_fixed-write_fixed :
    (writer reader : Bool) (n v : ℕ) (b : ByteArray)
    → Valid b
    → 0 < n
    → v < 256 ^ n
    → ReadsBack (write_fixed writer n v b >>= set_position b.position >>= read_fixed reader n) v
read_fixed-write_fixed writer reader n v b valid nz h =
    let (b1, e1, w) = write-IsWrite (wire b.little_endian n v) b valid in
    let (b2, e2, next) = rewind (wire b.little_endian n v) b b1 valid w in
    let (b3, e3, last) = read_fixed-ahead reader n v _ b2 next.valid nz h (
      next.left
      ∙ ap (λ l. wire l n v ++ drop (b.position + length (wire b.little_endian n v)) (content b))
          (sym next.endian)) in
    (b3, rw (write_fixed-wire writer n v b, e1, e2) e3, last.valid)

-- A value in the range of an intN_t, N = 16, 32 or 64.
abbrev pub Fits : ℕ → ℤ → Type 0
Fits w (pos n) = n < 2 ^ (w - 1)
Fits w (negsuc n) = n < 2 ^ (w - 1)

signed-pattern16 : (v : ℤ) → Fits 16 v → signed 16 (pattern_of 16 v) ≡ v
signed-pattern16 (pos n) h = ground arith
signed-pattern16 (negsuc n) h = ground arith

signed-pattern32 : (v : ℤ) → Fits 32 v → signed 32 (pattern_of 32 v) ≡ v
signed-pattern32 (pos n) h = ground arith
signed-pattern32 (negsuc n) h = ground arith

signed-pattern64 : (v : ℤ) → Fits 64 v → signed 64 (pattern_of 64 v) ≡ v
signed-pattern64 (pos n) h = ground arith
signed-pattern64 (negsuc n) h = ground arith

pattern-lt : (w : ℕ) (v : ℤ) → pattern_of w v < 2 ^ w
pattern-lt w (pos n) = mod-lt n (one-le-pow w 2 (omega arith))
pattern-lt w (negsuc n) = omega (arith, one-le-pow w 2 (omega arith))

-- A value read as unsigned is read as signed.
ReadsBack-signed :
    (w p : ℕ) (v : ℤ) (m : Result (ℕ × ByteArray))
    → signed w p ≡ v
    → ReadsBack m p
    → ReadsBack (as_signed w m) v
ReadsBack-signed w p v m e (b', r, valid) = (b', rw r (ap (λ (z : ℤ). ok (z, b')) e), valid)

signed_last :
    (w : ℕ) (m : Result ByteArray) (f : ByteArray → Result (ℕ × ByteArray))
    → (m >>= λ c. as_signed w (f c)) ≡ as_signed w (m >>= f)
signed_last w (ok c) f = refl
signed_last w out_of_range f = refl
signed_last w undefined f = refl

-- In a valid array: an int16_t, int32_t or int64_t that is written, with the position set back, is
-- read back, also on a machine of the other byte order, and the array is valid.
pub read_fint-write_fint :
    (writer reader : Bool) (x y z : ℤ) (b : ByteArray)
    → Valid b
    → Fits 16 x
    → Fits 32 y
    → Fits 64 z
    → ReadsBack (write_fint16 writer x b >>= set_position b.position >>= read_fint16 reader) x
      × ReadsBack (write_fint32 writer y b >>= set_position b.position >>= read_fint32 reader) y
      × ReadsBack (write_fint64 writer z b >>= set_position b.position >>= read_fint64 reader) z
unfolding write_fint16 write_fint32 write_fint64 read_fint16 read_fint32 read_fint64
read_fint-write_fint writer reader x y z b valid hx hy hz = (
  via 16 2 x (omega arith) (signed-pattern16 x hx) (pattern-lt 16 x),
  via 32 4 y (omega arith) (signed-pattern32 y hy) (pattern-lt 32 y),
  via 64 8 z (omega arith) (signed-pattern64 z hz) (pattern-lt 64 z),
)
  where
    via :
        (w n : ℕ) (v : ℤ)
        → 0 < n
        → signed w (pattern_of w v) ≡ v
        → pattern_of w v < 256 ^ n
        → ReadsBack
            (write_fixed writer n (pattern_of w v) b >>= set_position b.position >>= λ c.
              as_signed w (read_fixed reader n c))
            v
    via w n v nz e h =
        rw
          (signed_last w (write_fixed writer n (pattern_of w v) b >>= set_position b.position)
            (read_fixed reader n))
          (ReadsBack-signed w (pattern_of w v) v _ e
            (read_fixed-write_fixed writer reader n (pattern_of w v) b valid nz h))
