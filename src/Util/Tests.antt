-- ===== src/Util/Tests.antt =====
-- Texts that are encoded, decoded and trimmed.
use mathlib.Core.List.{flat_map}
use c.Prelude.{◌≡◌, refl, true, false, [], All, ◌<◌, arith}
use c.Prelude.Text.{String, codes}
use c.Util.{
  url_encode, url_decode, trim, trim_left, trim_right, blanks, encode_loop, decode_loop,
  decode_step, is_unreserved, escape, hex_digit, isxdigit, two_digits, hex_value, is_among,
}
use c.Util.Encode.{written, url_encode-flat_map}
use c.Util.Decode.{url_decode-url_encode}
use c.Util.Trim.{trim_lem}

abbrev sum : String
sum = codes "a b=1+1%"

sum_encoded : url_encode sum true ≡ codes "a+b=1%2B1%25"
unfolding url_encode encode_loop is_unreserved escape hex_digit
sum_encoded = refl

sum_with_digits : url_encode sum false ≡ codes "a%20b=1%2B1%25"
unfolding url_encode encode_loop is_unreserved escape hex_digit
sum_with_digits = refl

-- A % without two digits behind it stands for itself.
loose_percent : url_decode (codes "100%+%4") true ≡ codes "100% %4"
unfolding url_decode decode_loop decode_step isxdigit two_digits hex_value
loose_percent = refl

url_encode-flat_map_example : url_encode sum true ≡ flat_map (written true) sum
url_encode-flat_map_example = url_encode-flat_map sum true

sum_small : All (λ c. c < 256) sum
sum_small = (
  omega arith,
  (
    omega arith,
    (omega arith, (omega arith, (omega arith, (omega arith, (omega arith, (omega arith, tt)))))),
  ),
)

url_decode-url_encode_example : url_decode (url_encode sum true) true ≡ sum
url_decode-url_encode_example = url_decode-url_encode sum true sum_small

space : All (λ c. is_among blanks c ≡ true) (codes " ")
unfolding is_among
space = (refl, tt)

line_end : All (λ c. is_among blanks c ≡ true) (codes "\r\n")
unfolding is_among
line_end = (refl, (refl, tt))

letters : (is_among blanks b'a' ≡ false) × (is_among blanks b'b' ≡ false)
unfolding is_among
letters = (refl, refl)

trim_lem_example :
    (trim (codes " ") blanks ≡ [])
    × (trim_left (codes " ") blanks ≡ [])
    × (trim_right (codes " ") blanks ≡ [])
    × (trim (codes " a b\r\n") blanks ≡ codes "a b")
    × (trim_left (codes " a b\r\n") blanks ≡ codes "a b\r\n")
    × (trim_right (codes " a b\r\n") blanks ≡ codes " a ")
trim_lem_example =
    trim_lem blanks (codes " ") (codes "\r\n") (codes " b") (codes "a ") b'a' b'b' space line_end
      letters.0 letters.1 refl
