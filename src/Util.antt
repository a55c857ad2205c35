-- ===== src/Util.antt =====
-- util.h, util.cc: the percent encoding of texts, and their trimming. A character is its code, below
-- 256, so that the casts to unsigned char do not show.
pub mod Encode
pub mod Decode
mod Trim
mod Tests
use Prim.Native.Nat.{bit_and, bit_or}
use c.Prelude.{
  ℕ, zero, suc, ◌+◌, ◌-◌, ◌*◌, ◌/◌, ◌^◌, Bool, true, false, ◌&&◌, ◌||◌, List, [], ◌∷◌, ◌++◌, Option,
  none, some, ◌==◌, ltb, leb, if◌then◌else◌, get_or, take, drop,
}
use c.Prelude.Text.{String, codes}

abbrev uri_chars : List ℕ
uri_chars =
    0 ∷ 0 ∷ 0 ∷ 0 ∷ 0 ∷ 0 ∷ 0 ∷ 0 ∷ 0 ∷ 0 ∷ 0 ∷ 0 ∷ 0 ∷ 0 ∷ 0 ∷ 0 ∷ 0 ∷ 0 ∷ 0 ∷ 0 ∷ 0 ∷ 0 ∷ 0 ∷ 0
    ∷ 0 ∷ 0 ∷ 0 ∷ 0 ∷ 0 ∷ 0 ∷ 0 ∷ 0 ∷ 0 ∷ 0 ∷ 0 ∷ 0 ∷ 0 ∷ 0 ∷ 0 ∷ 0 ∷ 0 ∷ 0 ∷ 0 ∷ 0 ∷ 0 ∷ 1 ∷ 1 ∷ 0
    ∷ 1 ∷ 1 ∷ 1 ∷ 1 ∷ 1 ∷ 1 ∷ 1 ∷ 1 ∷ 1 ∷ 1 ∷ 0 ∷ 0 ∷ 0 ∷ 1 ∷ 0 ∷ 0 ∷ 0 ∷ 1 ∷ 1 ∷ 1 ∷ 1 ∷ 1 ∷ 1 ∷ 1
    ∷ 1 ∷ 1 ∷ 1 ∷ 1 ∷ 1 ∷ 1 ∷ 1 ∷ 1 ∷ 1 ∷ 1 ∷ 1 ∷ 1 ∷ 1 ∷ 1 ∷ 1 ∷ 1 ∷ 1 ∷ 1 ∷ 1 ∷ 0 ∷ 0 ∷ 0 ∷ 0 ∷ 1
    ∷ 0 ∷ 1 ∷ 1 ∷ 1 ∷ 1 ∷ 1 ∷ 1 ∷ 1 ∷ 1 ∷ 1 ∷ 1 ∷ 1 ∷ 1 ∷ 1 ∷ 1 ∷ 1 ∷ 1 ∷ 1 ∷ 1 ∷ 1 ∷ 1 ∷ 1 ∷ 1 ∷ 1
    ∷ 1 ∷ 1 ∷ 1 ∷ 0 ∷ 0 ∷ 0 ∷ 1 ∷ 0 ∷ 0 ∷ 0 ∷ 0 ∷ 0 ∷ 0 ∷ 0 ∷ 0 ∷ 0 ∷ 0 ∷ 0 ∷ 0 ∷ 0 ∷ 0 ∷ 0 ∷ 0 ∷ 0
    ∷ 0 ∷ 0 ∷ 0 ∷ 0 ∷ 0 ∷ 0 ∷ 0 ∷ 0 ∷ 0 ∷ 0 ∷ 0 ∷ 0 ∷ 0 ∷ 0 ∷ 0 ∷ 0 ∷ 0 ∷ 0 ∷ 0 ∷ 0 ∷ 0 ∷ 0 ∷ 0 ∷ 0
    ∷ 0 ∷ 0 ∷ 0 ∷ 0 ∷ 0 ∷ 0 ∷ 0 ∷ 0 ∷ 0 ∷ 0 ∷ 0 ∷ 0 ∷ 0 ∷ 0 ∷ 0 ∷ 0 ∷ 0 ∷ 0 ∷ 0 ∷ 0 ∷ 0 ∷ 0 ∷ 0 ∷ 0
    ∷ 0 ∷ 0 ∷ 0 ∷ 0 ∷ 0 ∷ 0 ∷ 0 ∷ 0 ∷ 0 ∷ 0 ∷ 0 ∷ 0 ∷ 0 ∷ 0 ∷ 0 ∷ 0 ∷ 0 ∷ 0 ∷ 0 ∷ 0 ∷ 0 ∷ 0 ∷ 0 ∷ 0
    ∷ 0 ∷ 0 ∷ 0 ∷ 0 ∷ 0 ∷ 0 ∷ 0 ∷ 0 ∷ 0 ∷ 0 ∷ 0 ∷ 0 ∷ 0 ∷ 0 ∷ 0 ∷ 0 ∷ 0 ∷ 0 ∷ 0 ∷ 0 ∷ 0 ∷ 0 ∷ 0 ∷ 0
    ∷ 0 ∷ 0 ∷ 0 ∷ 0 ∷ 0 ∷ 0 ∷ 0 ∷ 0 ∷ 0 ∷ 0 ∷ 0 ∷ 0 ∷ 0 ∷ 0 ∷ 0 ∷ 0 ∷ []

abbrev xdigit_chars : List ℕ
xdigit_chars =
    0 ∷ 0 ∷ 0 ∷ 0 ∷ 0 ∷ 0 ∷ 0 ∷ 0 ∷ 0 ∷ 0 ∷ 0 ∷ 0 ∷ 0 ∷ 0 ∷ 0 ∷ 0 ∷ 0 ∷ 0 ∷ 0 ∷ 0 ∷ 0 ∷ 0 ∷ 0 ∷ 0
    ∷ 0 ∷ 0 ∷ 0 ∷ 0 ∷ 0 ∷ 0 ∷ 0 ∷ 0 ∷ 0 ∷ 0 ∷ 0 ∷ 0 ∷ 0 ∷ 0 ∷ 0 ∷ 0 ∷ 0 ∷ 0 ∷ 0 ∷ 0 ∷ 0 ∷ 0 ∷ 0 ∷ 0
    ∷ 0 ∷ 1 ∷ 2 ∷ 3 ∷ 4 ∷ 5 ∷ 6 ∷ 7 ∷ 8 ∷ 9 ∷ 0 ∷ 0 ∷ 0 ∷ 0 ∷ 0 ∷ 0 ∷ 0 ∷ 10 ∷ 11 ∷ 12 ∷ 13 ∷ 14
    ∷ 15 ∷ 0 ∷ 0 ∷ 0 ∷ 0 ∷ 0 ∷ 0 ∷ 0 ∷ 0 ∷ 0 ∷ 0 ∷ 0 ∷ 0 ∷ 0 ∷ 0 ∷ 0 ∷ 0 ∷ 0 ∷ 0 ∷ 0 ∷ 0 ∷ 0 ∷ 0 ∷ 0
    ∷ 0 ∷ 0 ∷ 0 ∷ 10 ∷ 11 ∷ 12 ∷ 13 ∷ 14 ∷ 15 ∷ 0 ∷ 0 ∷ 0 ∷ 0 ∷ 0 ∷ 0 ∷ 0 ∷ 0 ∷ 0 ∷ 0 ∷ 0 ∷ 0 ∷ 0
    ∷ 0 ∷ 0 ∷ 0 ∷ 0 ∷ 0 ∷ 0 ∷ 0 ∷ 0 ∷ 0 ∷ 0 ∷ 0 ∷ 0 ∷ 0 ∷ 0 ∷ 0 ∷ 0 ∷ 0 ∷ 0 ∷ 0 ∷ 0 ∷ 0 ∷ 0 ∷ 0 ∷ 0
    ∷ 0 ∷ 0 ∷ 0 ∷ 0 ∷ 0 ∷ 0 ∷ 0 ∷ 0 ∷ 0 ∷ 0 ∷ 0 ∷ 0 ∷ 0 ∷ 0 ∷ 0 ∷ 0 ∷ 0 ∷ 0 ∷ 0 ∷ 0 ∷ 0 ∷ 0 ∷ 0 ∷ 0
    ∷ 0 ∷ 0 ∷ 0 ∷ 0 ∷ 0 ∷ 0 ∷ 0 ∷ 0 ∷ 0 ∷ 0 ∷ 0 ∷ 0 ∷ 0 ∷ 0 ∷ 0 ∷ 0 ∷ 0 ∷ 0 ∷ 0 ∷ 0 ∷ 0 ∷ 0 ∷ 0 ∷ 0
    ∷ 0 ∷ 0 ∷ 0 ∷ 0 ∷ 0 ∷ 0 ∷ 0 ∷ 0 ∷ 0 ∷ 0 ∷ 0 ∷ 0 ∷ 0 ∷ 0 ∷ 0 ∷ 0 ∷ 0 ∷ 0 ∷ 0 ∷ 0 ∷ 0 ∷ 0 ∷ 0 ∷ 0
    ∷ 0 ∷ 0 ∷ 0 ∷ 0 ∷ 0 ∷ 0 ∷ 0 ∷ 0 ∷ 0 ∷ 0 ∷ 0 ∷ 0 ∷ 0 ∷ 0 ∷ 0 ∷ 0 ∷ 0 ∷ 0 ∷ 0 ∷ 0 ∷ 0 ∷ 0 ∷ 0 ∷ 0
    ∷ 0 ∷ 0 ∷ 0 ∷ 0 ∷ 0 ∷ 0 ∷ 0 ∷ 0 ∷ 0 ∷ 0 ∷ 0 ∷ 0 ∷ 0 ∷ 0 ∷ 0 ∷ 0 ∷ 0 ∷ 0 ∷ 0 ∷ 0 ∷ []

-- CHAR_IS_UNRESERVED
unfoldable pub is_unreserved : ℕ → Bool
is_unreserved c = ltb 0 (get_or uri_chars c 0)

-- The text *ss, and before it is made the characters that were passed over.
abbrev pub text_of : Option String → String → String
text_of none before = before
text_of (some s) before = s

-- ss->append(1, c), if there is an ss.
abbrev pub append_char : ℕ → Option String → Option String
append_char c none = none
append_char c (some s) = some (s ++ c ∷ [])

unfoldable pub hex_digit : ℕ → ℕ
hex_digit d = get_or (codes "0123456789ABCDEF") d 0

-- What UrlEncode appends for a character that is not unreserved.
unfoldable pub escape : Bool → ℕ → String
escape space_as_plus c =
    if c == b' ' && space_as_plus
    then b'+' ∷ []
    else b'%' ∷ hex_digit (c / 2 ^ 4) ∷ hex_digit (bit_and c 0xf) ∷ []

-- The loop of UrlEncode, with the characters before c, and those from c on.
unfoldable pub encode_loop : Bool → String → String → Option String → Option String
encode_loop space_as_plus before [] ss = ss
encode_loop space_as_plus before (c ∷ rest) ss = encode_loop space_as_plus (before ++ c ∷ []) rest (
    if is_unreserved c
    then append_char c ss
    else some (text_of ss before ++ escape space_as_plus c))

unfoldable pub url_encode : String → Bool → String
url_encode str space_as_plus = text_of (encode_loop space_as_plus [] str none) str

-- isxdigit, in the C locale.
unfoldable pub isxdigit : ℕ → Bool
isxdigit c = (leb b'0' c && leb c b'9') || (leb b'A' c && leb c b'F') || (leb b'a' c && leb c b'f')

-- (c + 2) < end, and the two characters behind c are digits.
unfoldable pub two_digits : String → Bool
two_digits (h ∷ l ∷ rest) = isxdigit h && isxdigit l
two_digits _ = false

-- The character that they give, as a char.
unfoldable pub hex_value : String → ℕ
hex_value (h ∷ l ∷ rest) = bit_or (get_or xdigit_chars h 0 * 2 ^ 4) (get_or xdigit_chars l 0)
hex_value _ = 0

-- One round of UrlDecode at the character c, which `rest` stands behind: by how much c is moved on
-- besides ++c, and the new ss.
unfoldable pub decode_step : Bool → String → ℕ → String → Option String → ℕ × Option String
decode_step space_as_plus before c rest ss =
    if c == b'+' && space_as_plus
    then (0, some (text_of ss before ++ b' ' ∷ []))
    else if c == b'%' && two_digits rest
    then (2, some (text_of ss before ++ hex_value rest ∷ []))
    else (0, append_char c ss)

-- The loop of UrlDecode; `skip` characters are passed over before the next round.
unfoldable pub decode_loop : Bool → String → ℕ → String → Option String → Option String
decode_loop space_as_plus before skip [] ss = ss
decode_loop space_as_plus before (suc skip) (c ∷ rest) ss =
    decode_loop space_as_plus (before ++ c ∷ []) skip rest ss
decode_loop space_as_plus before zero (c ∷ rest) ss =
    let (skip, ss') = decode_step space_as_plus before c rest ss in
    decode_loop space_as_plus (before ++ c ∷ []) skip rest ss'

unfoldable pub url_decode : String → Bool → String
url_decode str space_as_plus = text_of (decode_loop space_as_plus [] 0 str none) str

abbrev pub blanks : String
blanks = codes " \t\r\n"

-- Does the character stand in the text?
unfoldable pub is_among : String → ℕ → Bool
is_among [] c = false
is_among (d ∷ ds) c = c == d || is_among ds c

-- std::string::find_first_not_of and find_last_not_of, with none for npos.
unfoldable pub find_first_not_of : String → String → Option ℕ
find_first_not_of delimit [] = none
find_first_not_of delimit (c ∷ str) =
    if is_among delimit c
    then elim (find_first_not_of delimit str) [ none ↦ none | some i ↦ some (suc i) ]
    else some 0

unfoldable pub find_last_not_of : String → String → Option ℕ
find_last_not_of delimit [] = none
find_last_not_of delimit (c ∷ str) = elim (find_last_not_of delimit str) [
  | some i ↦ some (suc i)
  | none ↦ if is_among delimit c then none else some 0
]

-- str.substr(position, count), the position not behind the end.
abbrev pub substr : String → ℕ → ℕ → String
substr str position count = take count (drop position str)

-- If there is a first such character, there is a last one, and it does not stand before it.
unfoldable pub trim : String → String → String
trim str delimit = elim (find_first_not_of delimit str) [
  | none ↦ []
  | some begin ↦ elim (find_last_not_of delimit str) [
    | none ↦ drop begin str
    | some end ↦ substr str begin (end - begin + 1)
  ]
]

unfoldable pub trim_left : String → String → String
trim_left str delimit = elim (find_first_not_of delimit str) [
  | none ↦ []
  | some begin ↦ drop begin str
]

-- It ends before the character that it should end with.
unfoldable pub trim_right : String → String → String
trim_right str delimit = elim (find_last_not_of delimit str) [
  | none ↦ []
  | some end ↦ substr str 0 end
]
