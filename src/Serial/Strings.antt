-- ===== src/Serial/Strings.antt =====
-- writeString and readString, with a length of 16, 32 or 64 bits or a varint before the bytes.
use c.Prelude.{
  ℕ, ◌+◌, ◌*◌, ◌%◌, ◌^◌, ◌<◌, ◌≡◌, refl, sym, ap, ◌∙◌, Bool, List, ◌++◌, arith, length, drop,
}
use mathlib.Core.List.{append_assoc}
use native.Mathlib.Nat.{mod-eq_of_lt}
use c.ByteArray.{ByteArray, Result, ok, ◌>>=◌, write, read, set_position}
use c.ByteArray.Valid.{Valid}
use c.ByteArray.Content.{content, write-IsWrite, IsWrite}
use c.ByteArray.Ahead.{ahead, read-ahead, IsNext, rewind, IsWrite-append}
use c.Serial.{
  write_fuint16, write_fuint32, write_fuint64, write_uint64, write_fixed, read_fuint16,
  read_fuint32, read_fuint64, read_uint64, read_fixed, varint, read_varint,
}
use c.Serial.Fixed.{ReadsBack, wire, write_fixed-wire, read_fixed-ahead}
use c.Serial.Varint.{groups, varint-groups, read_varint-groups}

-- writeStringF16 and its kin: value.size() is converted to the type of the length.
pub write_string_f16 : Bool → List ℕ → ByteArray → Result ByteArray
write_string_f16 host value b = write_fuint16 host (length value % 2 ^ 16) b >>= write value

pub write_string_f32 : Bool → List ℕ → ByteArray → Result ByteArray
write_string_f32 host value b = write_fuint32 host (length value % 2 ^ 32) b >>= write value

pub write_string_f64 : Bool → List ℕ → ByteArray → Result ByteArray
write_string_f64 host value b = write_fuint64 host (length value % 2 ^ 64) b >>= write value

pub write_string_vint : List ℕ → ByteArray → Result ByteArray
write_string_vint value b = write_uint64 (length value % 2 ^ 64) b >>= write value

pub write_string_without_length : List ℕ → ByteArray → Result ByteArray
write_string_without_length value b = write value b

-- The length, then as many bytes.
abbrev pub then_bytes : Result (ℕ × ByteArray) → Result (List ℕ × ByteArray)
then_bytes m = m >>= λ r. read r.0 r.1

pub read_string_f16 : Bool → ByteArray → Result (List ℕ × ByteArray)
read_string_f16 host b = then_bytes (read_fuint16 host b)

pub read_string_f32 : Bool → ByteArray → Result (List ℕ × ByteArray)
read_string_f32 host b = then_bytes (read_fuint32 host b)

pub read_string_f64 : Bool → ByteArray → Result (List ℕ × ByteArray)
read_string_f64 host b = then_bytes (read_fuint64 host b)

pub read_string_vint : ByteArray → Result (List ℕ × ByteArray)
read_string_vint b = then_bytes (read_uint64 b)

-- With a reader that gets n from the bytes `head`, and head and the string written one after the
-- other, the string is read back.
module _ (head value : List ℕ) (n : ℕ) (reader : ByteArray → Result (ℕ × ByteArray)) (b : ByteArray)
    (valid : Valid b) (some_bytes : 0 < length value) (sized : n ≡ length value)
    (reads : (ys : List ℕ) (c : ByteArray)
      → Valid c
      → c.little_endian ≡ b.little_endian
      → ahead c ≡ head ++ ys
      → (c' : ByteArray) × (reader c ≡ ok (n, c')) × IsNext ys c c') where
  both_written :
      (b2 : ByteArray) × ((write head b >>= write value) ≡ ok b2) × IsWrite (head ++ value) b b2
  both_written =
      let (b1, e1, w1) = write-IsWrite head b valid in
      let (b2, e2, w2) = write-IsWrite value b1 w1.valid in
      (b2, rw e1 e2, IsWrite-append head value b b1 b2 valid w1 w2)

  string_back :
      ReadsBack
        ((write head b >>= write value) >>= set_position b.position >>= λ c. then_bytes (reader c))
        value
  string_back =
      let (b2, e2, w) = both_written in
      let (b3, e3, next3) = rewind (head ++ value) b b2 valid w in
      let rest = drop (b.position + length (head ++ value)) (content b) in
      let (b4, e4, next4) =
        reads (value ++ rest) b3 next3.valid next3.endian
          (next3.left ∙ append_assoc head value rest) in
      let (b5, e5, next5) = read-ahead value rest b4 next4.valid next4.left some_bytes in
      (b5, rw (e2, e3, e4, sized) e5, next5.valid)

module _ (writer reader : Bool) (value : List ℕ) (b : ByteArray) (valid : Valid b)
    (some_bytes : 0 < length value) where
  fixed_back :
      (k : ℕ)
      → 0 < k
      → length value < 256 ^ k
      → ReadsBack
          ((write_fixed writer k (length value) b >>= write value)
            >>= set_position b.position
            >>= λ c. then_bytes (read_fixed reader k c))
          value
  fixed_back k pos fits = rw (write_fixed-wire writer k (length value) b) (
      string_back (wire b.little_endian k (length value)) value (length value) (read_fixed reader k)
        b valid some_bytes refl
        (λ ys c v same e.
          read_fixed-ahead reader k (length value) ys c v pos fits
            (e ∙ ap (λ l. wire l k (length value) ++ ys) (sym same))))

  varint_back :
      length value < 2 ^ 64
      → ReadsBack
          (((varint 10 (length value) >>= λ tmp. write tmp b) >>= write value)
            >>= set_position b.position
            >>= λ c. then_bytes (read_varint 64 10 0 0 c))
          value
  varint_back fits = rw (varint-groups 9 (length value) (omega arith)) (
      string_back (groups 9 (length value)) value (0 + length value * 2 ^ 0) (read_varint 64 10 0 0)
        b valid some_bytes (omega arith)
        (λ ys c v _ e.
          read_varint-groups 64 9 0 0 (length value) ys c v (omega arith) (omega arith)
            (omega arith) e))

-- In a valid array: a string that is not empty, and whose length fits the length field, is read
-- back by the reader of the same kind, with the position set back, on a machine of either byte
-- order, and the array is valid.
pub read_string-write_string :
    (writer reader : Bool) (s16 s32 s64 vint : List ℕ) (b : ByteArray)
    → Valid b
    → (0 < length s16) × (length s16 < 2 ^ 16)
    → (0 < length s32) × (length s32 < 2 ^ 32)
    → (0 < length s64) × (length s64 < 2 ^ 64)
    → (0 < length vint) × (length vint < 2 ^ 64)
    → ReadsBack
        (write_string_f16 writer s16 b >>= set_position b.position >>= read_string_f16 reader)
        s16
      × ReadsBack
          (write_string_f32 writer s32 b >>= set_position b.position >>= read_string_f32 reader)
          s32
      × ReadsBack
          (write_string_f64 writer s64 b >>= set_position b.position >>= read_string_f64 reader)
          s64
      × ReadsBack (write_string_vint vint b >>= set_position b.position >>= read_string_vint) vint
unfolding write_string_f16 write_string_f32 write_string_f64 write_string_vint read_string_f16
    read_string_f32 read_string_f64 read_string_vint write_fuint16 write_fuint32 write_fuint64
    write_uint64 read_fuint16 read_fuint32 read_fuint64 read_uint64
read_string-write_string writer reader s16 s32 s64 vint b valid h16 h32 h64 hv = (
  rw (mod-eq_of_lt h16.1) (fixed_back writer reader s16 b valid h16.0 2 (omega arith) h16.1),
  rw (mod-eq_of_lt h32.1) (fixed_back writer reader s32 b valid h32.0 4 (omega arith) h32.1),
  rw (mod-eq_of_lt h64.1) (fixed_back writer reader s64 b valid h64.0 8 (omega arith) h64.1),
  rw (mod-eq_of_lt hv.1) (varint_back writer reader vint b valid hv.0 hv.1),
)
