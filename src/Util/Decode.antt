-- ===== src/Util/Decode.antt =====
-- UrlDecode gives back what UrlEncode was given.
use Prim.Native.Nat.{bit_and}
use mathlib.Core.List.{flat_map, append_assoc, append-nil}
use c.Prelude.{
  ℕ, zero, suc, ◌/◌, ◌^◌, ◌<◌, ◌≡◌, refl, sym, ap, ◌∙◌, Bool, true, false, ◌&&◌, [], ◌∷◌, ◌++◌,
  none, some, ◌==◌, if◌then◌else◌, Bool-cases, inl, inr, arith, All, ==_iff, holds_to,
  holds_to_each,
}
use c.Prelude.Text.{String}
use c.Util.{
  is_unreserved, text_of, escape, hex_digit, isxdigit, two_digits, hex_value, decode_step,
  decode_loop, url_encode, url_decode,
}
use c.Util.Encode.{written, url_encode-flat_map}

-- What UrlDecode reads: characters to skip, and then the text to read.
unfoldable pub read : Bool → ℕ → String → String
read plus skip [] = []
read plus (suc skip) (c ∷ rest) = read plus skip rest
read plus zero (c ∷ rest) =
    let after = read plus 0 rest in
    let behind = read plus 2 rest in
    if c == b'+' && plus
    then b' ' ∷ after
    else if c == b'%' && two_digits rest
    then hex_value rest ∷ behind
    else c ∷ after

module _ (plus : Bool) where
  decode_loop-some :
      (before rest : String) (skip : ℕ) (s : String)
      → decode_loop plus before skip rest (some s) ≡ some (s ++ read plus skip rest)
  unfolding decode_loop decode_step read
  decode_loop-some before [] skip s = ap some (sym (append-nil s))
  decode_loop-some before (c ∷ rest) (suc skip) s = decode_loop-some (before ++ c ∷ []) rest skip s
  decode_loop-some before (c ∷ rest) zero s = elim (Bool-cases (c == b'+' && plus)) [
    | inl space ↦
        rw (space, decode_loop-some (before ++ c ∷ []) rest 0 (s ++ b' ' ∷ []))
          (ap some (append_assoc s (b' ' ∷ []) (read plus 0 rest)))
    | inr other ↦ rw other (elim (Bool-cases (c == b'%' && two_digits rest)) [
      | inl hidden ↦
          rw (hidden, decode_loop-some (before ++ c ∷ []) rest 2 (s ++ hex_value rest ∷ []))
            (ap some (append_assoc s (hex_value rest ∷ []) (read plus 2 rest)))
      | inr plain ↦
          rw (plain, decode_loop-some (before ++ c ∷ []) rest 0 (s ++ c ∷ []))
            (ap some (append_assoc s (c ∷ []) (read plus 0 rest)))
    ])
  ]

  decode_loop-none :
      (before rest : String)
      → text_of (decode_loop plus before 0 rest none) (before ++ rest) ≡ before ++ read plus 0 rest
  unfolding decode_loop decode_step read
  decode_loop-none before [] = refl
  decode_loop-none before (c ∷ rest) = elim (Bool-cases (c == b'+' && plus)) [
    | inl space ↦
        rw (space, decode_loop-some (before ++ c ∷ []) rest 0 (before ++ b' ' ∷ []))
          (append_assoc before (b' ' ∷ []) (read plus 0 rest))
    | inr other ↦ rw other (elim (Bool-cases (c == b'%' && two_digits rest)) [
      | inl hidden ↦
          rw (hidden, decode_loop-some (before ++ c ∷ []) rest 2 (before ++ hex_value rest ∷ []))
            (append_assoc before (hex_value rest ∷ []) (read plus 2 rest))
      | inr plain ↦ rw plain (
          ap (text_of (decode_loop plus (before ++ c ∷ []) 0 rest none))
            (sym (append_assoc before (c ∷ []) rest))
          ∙ decode_loop-none (before ++ c ∷ []) rest
          ∙ append_assoc before (c ∷ []) (read plus 0 rest))
    ])
  ]

pub url_decode-read : (str : String) (plus : Bool) → url_decode str plus ≡ read plus 0 str
unfolding url_decode
url_decode-read str plus = decode_loop-none plus [] str

-- The two digits that are written for a character are two digits, and give it back.
unfoldable pub is_read_back : ℕ → Bool
is_read_back c =
    isxdigit (hex_digit (c / 2 ^ 4))
    && isxdigit (hex_digit (bit_and c 0xf))
    && hex_value (hex_digit (c / 2 ^ 4) ∷ hex_digit (bit_and c 0xf) ∷ []) == c

every_read_back : holds_to is_read_back 255 ≡ true
unfolding holds_to is_read_back isxdigit hex_digit hex_value
every_read_back = refl

digits-read :
    (c : ℕ) (rest : String)
    → c < 256
    → (two_digits (hex_digit (c / 2 ^ 4) ∷ hex_digit (bit_and c 0xf) ∷ rest) ≡ true)
      × (hex_value (hex_digit (c / 2 ^ 4) ∷ hex_digit (bit_and c 0xf) ∷ rest) ≡ c)
unfolding two_digits hex_value is_read_back
digits-read c rest h =
    all_of (isxdigit (hex_digit (c / 2 ^ 4))) (isxdigit (hex_digit (bit_and c 0xf)))
      (hex_value (hex_digit (c / 2 ^ 4) ∷ hex_digit (bit_and c 0xf) ∷ []))
      (holds_to_each is_read_back 255 every_read_back c (omega arith))
  where
    all_of : (a b : Bool) (n : ℕ) → (a && b && n == c) ≡ true → ((a && b) ≡ true) × (n ≡ c)
    all_of true true n e = (refl, (==_iff n c).0 e)
    all_of true false n e = absurd (cc)
    all_of false b n e = absurd (cc)

-- Neither + nor % is unreserved.
reserved : (is_unreserved b'+' ≡ false) × (is_unreserved b'%' ≡ false)
unfolding is_unreserved
reserved = (refl, refl)

unreserved_plain : (c : ℕ) → is_unreserved c ≡ true → ((c == b'+') ≡ false) × ((c == b'%') ≡ false)
unreserved_plain c u = (not_of b'+' reserved.0, not_of b'%' reserved.1)
  where
    not_of : (x : ℕ) → is_unreserved x ≡ false → (c == x) ≡ false
    not_of x r = elim (Bool-cases (c == x)) [
      | inl e ↦ absurd (cc (u, r, (==_iff c x).0 e))
      | inr e ↦ e
    ]

read-written :
    (plus : Bool) (c : ℕ) (rest : String)
    → c < 256
    → read plus 0 (written plus c ++ rest) ≡ c ∷ read plus 0 rest
unfolding read written escape
read-written plus c rest h = elim (Bool-cases (is_unreserved c)) [
  | inl plain ↦ let (p, q) = unreserved_plain c plain in rw (plain, p, q) refl
  | inr hidden ↦ rw hidden (elim (Bool-cases (c == b' ' && plus)) [
    | inl space ↦ rw space (as_space plus c space)
    | inr other ↦ let (two, back) = digits-read c rest h in rw (other, two, back) refl
  ])
]
  where
    as_space :
        (plus : Bool) (c : ℕ)
        → (c == b' ' && plus) ≡ true
        → read plus 0 (b'+' ∷ rest) ≡ c ∷ read plus 0 rest
    as_space true c e = ap (λ (n : ℕ). n ∷ read true 0 rest) (ground (arith, e))
    as_space false c e = absurd (ground (arith, e))

read-flat_map :
    (plus : Bool) (str : String)
    → All (λ c. c < 256) str
    → read plus 0 (flat_map (written plus) str) ≡ str
unfolding flat_map read
read-flat_map plus [] h = refl
read-flat_map plus (c ∷ str) (small, h) =
    read-written plus c (flat_map (written plus) str) small
    ∙ ap (λ (s : String). c ∷ s) (read-flat_map plus str h)

-- UrlDecode undoes UrlEncode on every text of bytes, when both write a space the same way, as + or as
-- %20: whatever the text holds, the characters +, %, = and the hexadecimal digits included.
pub url_decode-url_encode :
    (str : String) (plus : Bool)
    → All (λ c. c < 256) str
    → url_decode (url_encode str plus) plus ≡ str
url_decode-url_encode str plus h =
    rw (url_decode-read (url_encode str plus) plus, url_encode-flat_map str plus)
      (read-flat_map plus str h)
