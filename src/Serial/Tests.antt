-- ===== src/Serial/Tests.antt =====
-- Runs of the integers and strings in a ByteArray, and their theorems at concrete inputs.
use c.Prelude.{◌≡◌, refl, ◌^◌, ◌-◌, true, false, [], ◌∷◌, arith}
use c.Prelude.Int.{negsuc}
use c.ByteArray.{ByteArray, ok, undefined, ◌>>=◌, init, set_position}
use c.ByteArray.Valid.{Valid, init-Valid}
use c.Serial.{
  write_uint32, write_uint64, read_uint32, read_uint64, varint, byteswap, le_bytes, from_le,
}
use c.Serial.Fixed.{ReadsBack}
use c.Serial.Varint.{read_uint-write_uint}
use c.Serial.Zigzag.{encode_zigzag, decode_zigzag}
use c.Serial.Strings.{
  write_string_f16, write_string_f32, write_string_f64, write_string_vint, read_string_f16,
  read_string_f32, read_string_f64, read_string_vint, read_string-write_string,
}

abbrev start : ByteArray
start = init 0xcc 4

start-Valid : Valid start
start-Valid = init-Valid 0xcc 4 (omega arith)

varint_run : varint 5 300 ≡ ok (0xac ∷ 0x02 ∷ [])
unfolding varint
varint_run = refl

byteswap_run : byteswap 4 0x01020304 ≡ 0x04030201
unfolding byteswap le_bytes from_le
byteswap_run = refl

zigzag_run : encode_zigzag 32 (negsuc 1) ≡ ok 3
unfolding encode_zigzag
zigzag_run = refl

zigzag_least : encode_zigzag 32 (negsuc (2 ^ 31 - 1)) ≡ undefined
unfolding encode_zigzag
zigzag_least = refl

decode_run : decode_zigzag 32 3 ≡ negsuc 1
unfolding decode_zigzag
decode_run = refl

read_uint-write_uint_example :
    ReadsBack (write_uint32 4294967295 start >>= set_position 0 >>= read_uint32) 4294967295
    × ReadsBack (write_uint64 300 start >>= set_position 0 >>= read_uint64) 300
unfolding init
read_uint-write_uint_example =
    read_uint-write_uint 4294967295 300 start start-Valid (omega arith) (omega arith)

read_string-write_string_example :
    ReadsBack
      (write_string_f16 true (1 ∷ []) start >>= set_position 0 >>= read_string_f16 false)
      (1 ∷ [])
    × ReadsBack
        (write_string_f32 true (2 ∷ []) start >>= set_position 0 >>= read_string_f32 false)
        (2 ∷ [])
    × ReadsBack
        (write_string_f64 true (3 ∷ []) start >>= set_position 0 >>= read_string_f64 false)
        (3 ∷ [])
    × ReadsBack (write_string_vint (4 ∷ []) start >>= set_position 0 >>= read_string_vint) (4 ∷ [])
unfolding init
read_string-write_string_example =
    read_string-write_string true false (1 ∷ []) (2 ∷ []) (3 ∷ []) (4 ∷ []) start start-Valid
      (omega arith, omega arith) (omega arith, omega arith) (omega arith, omega arith)
      (omega arith, omega arith)
