-- ===== src/Serial.antt =====
-- bytearray.cc, endian.h: the values that a ByteArray writes and reads. An unsigned value is a
-- number; `host` tells whether the machine is little endian (SYLAR_BYTE_ORDER).
pub mod Bytes
pub mod Fixed
pub mod Varint
pub mod Zigzag
pub mod Strings
mod Tests
use Prim.Native.Nat.{bit_and, bit_or, bit_xor}
use mathlib.Core.List.{reverse}
use c.Prelude.{
  ℕ, zero, suc, ◌+◌, ◌-◌, ◌*◌, ◌/◌, ◌%◌, ◌^◌, Bool, true, false, List, [], ◌∷◌, ◌++◌, ltb, leb,
  ◌==◌, if◌then◌else◌, length,
}
use c.Prelude.Int.{ℤ, pos, negsuc, pattern_of, signed}
use c.ByteArray.{ByteArray, Result, ok, out_of_range, undefined, ◌>>=◌, write, read}

-- The n bytes of a value, lowest first, and the value of such bytes.
unfoldable pub le_bytes : ℕ → ℕ → List ℕ
le_bytes zero v = []
le_bytes (suc n) v = v % 256 ∷ le_bytes n (v / 256)

unfoldable pub from_le : List ℕ → ℕ
from_le [] = 0
from_le (x ∷ xs) = x + 256 * from_le xs

-- The value in memory, and the value of a memory.
abbrev pub image : Bool → ℕ → ℕ → List ℕ
image host n v = if host then le_bytes n v else reverse (le_bytes n v)

abbrev pub value_of : Bool → List ℕ → ℕ
value_of host xs = from_le (if host then xs else reverse xs)

-- byteswap of a value of n bytes.
unfoldable pub byteswap : ℕ → ℕ → ℕ
byteswap n v = from_le (reverse (le_bytes n v))

-- m_endian == SYLAR_BYTE_ORDER
abbrev pub same_order : Bool → ByteArray → Bool
same_order host b = if host then b.little_endian else (if b.little_endian then false else true)

-- The common body of writeFint16, writeFuint16, …, writeFuint64, for n bytes.
pub write_fixed : Bool → ℕ → ℕ → ByteArray → Result ByteArray
write_fixed host n value b =
    write (image host n (if same_order host b then value else byteswap n value)) b

-- The macro XX of readFint16, …, readFuint64.
pub read_fixed : Bool → ℕ → ByteArray → Result (ℕ × ByteArray)
read_fixed host n b = read n b >>= λ r.
    let v = value_of host r.0 in ok (if same_order host b then v else byteswap n v, r.1)

pub write_fuint8 : ℕ → ByteArray → Result ByteArray
write_fuint8 value b = write (value ∷ []) b

pub write_fint8 : ℤ → ByteArray → Result ByteArray
unfolding write_fuint8
write_fint8 value b = write_fuint8 (pattern_of 8 value) b

pub write_fint16 : Bool → ℤ → ByteArray → Result ByteArray
unfolding write_fixed
write_fint16 host value b = write_fixed host 2 (pattern_of 16 value) b

pub write_fuint16 : Bool → ℕ → ByteArray → Result ByteArray
unfolding write_fixed
write_fuint16 host value b = write_fixed host 2 value b

pub write_fint32 : Bool → ℤ → ByteArray → Result ByteArray
unfolding write_fixed
write_fint32 host value b = write_fixed host 4 (pattern_of 32 value) b

pub write_fuint32 : Bool → ℕ → ByteArray → Result ByteArray
unfolding write_fixed
write_fuint32 host value b = write_fixed host 4 value b

pub write_fint64 : Bool → ℤ → ByteArray → Result ByteArray
unfolding write_fixed
write_fint64 host value b = write_fixed host 8 (pattern_of 64 value) b

pub write_fuint64 : Bool → ℕ → ByteArray → Result ByteArray
unfolding write_fixed
write_fuint64 host value b = write_fixed host 8 value b

byte_of : List ℕ → ℕ
byte_of [] = 0
byte_of (x ∷ xs) = x

pub read_fuint8 : ByteArray → Result (ℕ × ByteArray)
unfolding byte_of
read_fuint8 b = read 1 b >>= λ r. ok (byte_of r.0, r.1)

-- A signed value is read as its pattern.
abbrev pub as_signed : ℕ → Result (ℕ × ByteArray) → Result (ℤ × ByteArray)
as_signed w m = m >>= λ r. ok (signed w r.0, r.1)

pub read_fint8 : ByteArray → Result (ℤ × ByteArray)
unfolding read_fuint8
read_fint8 b = as_signed 8 (read_fuint8 b)

pub read_fint16 : Bool → ByteArray → Result (ℤ × ByteArray)
unfolding read_fixed
read_fint16 host b = as_signed 16 (read_fixed host 2 b)

pub read_fuint16 : Bool → ByteArray → Result (ℕ × ByteArray)
unfolding read_fixed
read_fuint16 host b = read_fixed host 2 b

pub read_fint32 : Bool → ByteArray → Result (ℤ × ByteArray)
unfolding read_fixed
read_fint32 host b = as_signed 32 (read_fixed host 4 b)

pub read_fuint32 : Bool → ByteArray → Result (ℕ × ByteArray)
unfolding read_fixed
read_fuint32 host b = read_fixed host 4 b

pub read_fint64 : Bool → ByteArray → Result (ℤ × ByteArray)
unfolding read_fixed
read_fint64 host b = as_signed 64 (read_fixed host 8 b)

pub read_fuint64 : Bool → ByteArray → Result (ℕ × ByteArray)
unfolding read_fixed
read_fuint64 host b = read_fixed host 8 b

-- The loop of writeUint32 and writeUint64 into tmp, with `room` elements of tmp left.
unfoldable pub varint : ℕ → ℕ → Result (List ℕ)
varint zero value = undefined
varint (suc room) value =
    let rest = varint room (value / 2 ^ 7) in
    if leb 0x80 value
    then (rest >>= λ xs. ok (bit_or (bit_and value 0x7f) 0x80 % 2 ^ 8 ∷ xs))
    else ok (value % 2 ^ 8 ∷ [])

pub write_uint32 : ℕ → ByteArray → Result ByteArray
write_uint32 value b = varint 5 value >>= λ tmp. write tmp b

pub write_uint64 : ℕ → ByteArray → Result ByteArray
write_uint64 value b = varint 10 value >>= λ tmp. write tmp b

-- The loop of readUint32 and readUint64 over i = 0, 7, 14, …, at w bits, with k rounds left.
unfoldable pub read_varint : ℕ → ℕ → ℕ → ℕ → ByteArray → Result (ℕ × ByteArray)
unfolding read_fuint8
read_varint w zero i result b = ok (result, b)
read_varint w (suc k) i result b = read_fuint8 b >>= λ r.
    if ltb r.0 0x80
    then ok (bit_or result (r.0 * 2 ^ i % 2 ^ w), r.1)
    else read_varint w k (i + 7) (bit_or result (bit_and r.0 0x7f * 2 ^ i % 2 ^ w)) r.1

-- How many of 0, 7, 14, … lie below w.
abbrev pub rounds : ℕ → ℕ
rounds w = (w + 6) / 7

pub read_uint32 : ByteArray → Result (ℕ × ByteArray)
read_uint32 b = read_varint 32 (rounds 32) 0 0 b

pub read_uint64 : ByteArray → Result (ℕ × ByteArray)
read_uint64 b = read_varint 64 (rounds 64) 0 0 b
