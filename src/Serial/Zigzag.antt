-- ===== src/Serial/Zigzag.antt =====
-- writeInt32, readInt32, writeInt64, readInt64: signed varints by the zigzag code.
use Prim.Native.Nat.{bit_and, bit_xor}
use c.Prelude.{
  ℕ, suc, ◌+◌, ◌-◌, ◌*◌, ◌/◌, ◌%◌, ◌^◌, ◌<◌, ◌≡◌, refl, ap, ◌∙◌, ◌↔◌, if◌then◌else◌, ltb, arith,
}
use native.Mathlib.Nat.{mod-eq_of_lt}
use c.Prelude.Int.{ℤ, pos, negsuc, signed}
use c.Bits.{bit_and-one, bit_xor-zero, bit_xor-ones}
use c.ByteArray.{ByteArray, Result, ok, out_of_range, undefined, ◌>>=◌, set_position}
use c.ByteArray.Valid.{Valid}
use c.Serial.{write_uint32, write_uint64, read_uint32, read_uint64}
use c.Serial.Fixed.{ReadsBack}
use c.Serial.Varint.{read_uint-write_uint}

-- EncodeZigzag32 and EncodeZigzag64 at w bits. `-v` and `v * 2` are computed in intN_t, where an
-- overflow is undefined behaviour; `(uintN_t)(-v) * 2 - 1` wraps.
unfoldable pub encode_zigzag : ℕ → ℤ → Result ℕ
encode_zigzag w (pos n) = if ltb (2 * n) (2 ^ (w - 1)) then ok (n * 2) else undefined
encode_zigzag w (negsuc n) =
    if ltb (n + 1) (2 ^ (w - 1)) then ok (((n + 1) * 2 + 2 ^ w - 1) % 2 ^ w) else undefined

-- DecodeZigzag32 and DecodeZigzag64: `(v >> 1) ^ -(v & 1)`, read as signed.
unfoldable pub decode_zigzag : ℕ → ℕ → ℤ
decode_zigzag w v = signed w (bit_xor (v / 2 ^ 1) ((2 ^ w - bit_and v 1) % 2 ^ w))

-- A code is read as its value.
abbrev pub as_decoded : ℕ → Result (ℕ × ByteArray) → Result (ℤ × ByteArray)
as_decoded w m = m >>= λ r. ok (decode_zigzag w r.0, r.1)

pub write_int32 : ℤ → ByteArray → Result ByteArray
write_int32 value b = encode_zigzag 32 value >>= λ v. write_uint32 v b

pub write_int64 : ℤ → ByteArray → Result ByteArray
write_int64 value b = encode_zigzag 64 value >>= λ v. write_uint64 v b

pub read_int32 : ByteArray → Result (ℤ × ByteArray)
read_int32 b = as_decoded 32 (read_uint32 b)

pub read_int64 : ByteArray → Result (ℤ × ByteArray)
read_int64 b = as_decoded 64 (read_uint64 b)

-- The values for which the code is defined: |v| * 2 does not overflow upwards, and v is not the least
-- value.
abbrev pub Encodes : ℕ → ℤ → Type 0
Encodes w (pos n) = 2 * n < 2 ^ (w - 1)
Encodes w (negsuc n) = n + 1 < 2 ^ (w - 1)

-- The code of a value: 0, -1, 1, -2, 2, … become 0, 1, 2, 3, 4, …
abbrev pub zigzag : ℤ → ℕ
zigzag (pos n) = 2 * n
zigzag (negsuc n) = 2 * n + 1

encode32 : (v : ℤ) → Encodes 32 v → encode_zigzag 32 v ≡ ok (zigzag v)
unfolding encode_zigzag
encode32 (pos n) h = ground arith
encode32 (negsuc n) h = ground arith

encode64 : (v : ℤ) → Encodes 64 v → encode_zigzag 64 v ≡ ok (zigzag v)
unfolding encode_zigzag
encode64 (pos n) h = ground arith
encode64 (negsuc n) h = ground arith

module _ (w : ℕ) where
  decode_even : (n : ℕ) → n < 2 ^ w → 0 < 2 ^ w → decode_zigzag w (2 * n) ≡ signed w n
  unfolding decode_zigzag
  decode_even n h some =
      ap (signed w) (rw (half, bit_and-one (2 * n), even, all) (bit_xor-zero w n h))
    where
      half : 2 * n / 2 ^ 1 ≡ n
      half = omega arith

      even : 2 * n % 2 ≡ 0
      even = omega arith

      all : (2 ^ w - 0) % 2 ^ w ≡ 0
      all = grind arith

  decode_odd :
      (n : ℕ) → n < 2 ^ w → 0 < 2 ^ w → decode_zigzag w (2 * n + 1) ≡ signed w (2 ^ w - 1 - n)
  unfolding decode_zigzag
  decode_odd n h some =
      ap (signed w) (rw (half, bit_and-one (2 * n + 1), odd, all) (bit_xor-ones w n h))
    where
      half : (2 * n + 1) / 2 ^ 1 ≡ n
      half = omega arith

      odd : (2 * n + 1) % 2 ≡ 1
      odd = omega arith

      all : (2 ^ w - 1) % 2 ^ w ≡ 2 ^ w - 1
      all = mod-eq_of_lt (omega arith)

decode32 : (v : ℤ) → Encodes 32 v → decode_zigzag 32 (zigzag v) ≡ v
decode32 (pos n) h = decode_even 32 n (omega arith) (omega arith) ∙ ground arith
decode32 (negsuc n) h = decode_odd 32 n (omega arith) (omega arith) ∙ ground arith

decode64 : (v : ℤ) → Encodes 64 v → decode_zigzag 64 (zigzag v) ≡ v
decode64 (pos n) h = decode_even 64 n (omega arith) (omega arith) ∙ ground arith
decode64 (negsuc n) h = decode_odd 64 n (omega arith) (omega arith) ∙ ground arith

zigzag-lt : (w : ℕ) (v : ℤ) → Encodes (suc w) v → zigzag v < 2 * 2 ^ (suc w - 1)
zigzag-lt w (pos n) h = omega arith
zigzag-lt w (negsuc n) h = omega arith

-- A value read as its code is read as itself.
ReadsBack-decode :
    (w : ℕ) (v : ℤ) (m : Result (ℕ × ByteArray))
    → decode_zigzag w (zigzag v) ≡ v
    → ReadsBack m (zigzag v)
    → ReadsBack (as_decoded w m) v
ReadsBack-decode w v m e (b', r, valid) = (b', rw r (ap (λ (z : ℤ). ok (z, b')) e), valid)

decode_last :
    (w : ℕ) (m : Result ByteArray) (f : ByteArray → Result (ℕ × ByteArray))
    → (m >>= λ c. as_decoded w (f c)) ≡ as_decoded w (m >>= f)
decode_last w (ok c) f = refl
decode_last w out_of_range f = refl
decode_last w undefined f = refl

-- In a valid array: a signed value that writeInt32 or writeInt64 can encode without overflow is
-- read back by readInt32 or readInt64, with the position set back in between, and the array is
-- valid.
pub read_int-write_int :
    (x y : ℤ) (b : ByteArray)
    → Valid b
    → Encodes 32 x
    → Encodes 64 y
    → ReadsBack (write_int32 x b >>= set_position b.position >>= read_int32) x
      × ReadsBack (write_int64 y b >>= set_position b.position >>= read_int64) y
unfolding write_int32 write_int64 read_int32 read_int64
read_int-write_int x y b valid hx hy =
    let (back32, back64) =
      read_uint-write_uint (zigzag x) (zigzag y) b valid (zigzag-lt 31 x hx) (zigzag-lt 63 y hy) in
    (
      rw
          (
            encode32 x hx,
            decode_last 32 (write_uint32 (zigzag x) b >>= set_position b.position) read_uint32,
          )
          (ReadsBack-decode 32 x _ (decode32 x hx) back32),
      rw
          (
            encode64 y hy,
            decode_last 64 (write_uint64 (zigzag y) b >>= set_position b.position) read_uint64,
          )
          (ReadsBack-decode 64 y _ (decode64 y hy) back64),
    )

-- EncodeZigzag32 and EncodeZigzag64 overflow in the signed type exactly from 2 ^ (N - 2) on, and at
-- the least value.
pub encode_zigzag-undefined : (w : ℕ) (v : ℤ) → (encode_zigzag w v ≡ undefined) ↔ (¬ Encodes w v)
unfolding encode_zigzag
encode_zigzag-undefined w (pos n) = ((λ e. ground (arith, e)), (λ h. ground (arith, h)))
encode_zigzag-undefined w (negsuc n) = ((λ e. ground (arith, e)), (λ h. ground (arith, h)))
