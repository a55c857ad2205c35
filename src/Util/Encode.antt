-- ===== src/Util/Encode.antt =====
-- UrlEncode writes each character on its own, whether or not it makes a new text.
use mathlib.Core.List.{flat_map, append_assoc, append-nil}
use c.Prelude.{
  ℕ, ◌≡◌, refl, sym, ap, ◌∙◌, Bool, [], ◌∷◌, ◌++◌, Option, none, some, if◌then◌else◌, Bool-cases,
  inl, inr,
}
use c.Prelude.Text.{String}
use c.Util.{is_unreserved, text_of, append_char, escape, encode_loop, url_encode}

-- What stands for one character.
unfoldable pub written : Bool → ℕ → String
written plus c = if is_unreserved c then c ∷ [] else escape plus c

module _ (plus : Bool) where
  text_of-append_char :
      (c : ℕ) (ss : Option String) (before : String)
      → text_of (append_char c ss) (before ++ c ∷ []) ≡ text_of ss before ++ c ∷ []
  text_of-append_char c none before = refl
  text_of-append_char c (some s) before = refl

  encode_loop_lem :
      (before rest : String) (ss : Option String)
      → text_of (encode_loop plus before rest ss) (before ++ rest)
        ≡ text_of ss before ++ flat_map (written plus) rest
  unfolding encode_loop written flat_map
  encode_loop_lem before [] none = refl
  encode_loop_lem before [] (some s) = sym (append-nil s)
  encode_loop_lem before (c ∷ rest) ss = elim (Bool-cases (is_unreserved c)) [
    | inl plain ↦ rw plain (
        one (append_char c ss) (c ∷ []) (text_of-append_char c ss before)
          (encode_loop_lem (before ++ c ∷ []) rest (append_char c ss)))
    | inr hidden ↦ rw hidden (
        one (some (text_of ss before ++ escape plus c)) (escape plus c) refl
          (encode_loop_lem (before ++ c ∷ []) rest (some (text_of ss before ++ escape plus c))))
  ]
    where
      one :
          (ss' : Option String) (w : String)
          → text_of ss' (before ++ c ∷ []) ≡ text_of ss before ++ w
          → text_of (encode_loop plus (before ++ c ∷ []) rest ss') ((before ++ c ∷ []) ++ rest)
            ≡ text_of ss' (before ++ c ∷ []) ++ flat_map (written plus) rest
          → text_of (encode_loop plus (before ++ c ∷ []) rest ss') (before ++ c ∷ rest)
            ≡ text_of ss before ++ (w ++ flat_map (written plus) rest)
      one ss' w e ih =
          ap (text_of (encode_loop plus (before ++ c ∷ []) rest ss'))
            (sym (append_assoc before (c ∷ []) rest))
          ∙ ih
          ∙ ap (λ (s : String). s ++ flat_map (written plus) rest) e
          ∙ append_assoc (text_of ss before) w (flat_map (written plus) rest)

-- UrlEncode, which copies the text only from the first character on that needs it, gives for each text
-- and either way of writing a space the characters' encodings one behind the other: an unreserved
-- character stands for itself, and any other becomes what `escape` gives.
pub url_encode-flat_map :
    (str : String) (plus : Bool) → url_encode str plus ≡ flat_map (written plus) str
unfolding url_encode
url_encode-flat_map str plus = encode_loop_lem plus [] str none
