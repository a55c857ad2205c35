-- ===== src/Util/Trim.antt =====
-- What the trimming functions take off a text.
use mathlib.Core.List.{append_assoc}
use c.Prelude.{
  ℕ, ◌+◌, ◌-◌, ◌≡◌, refl, sym, ap, ◌∙◌, true, false, [], ◌∷◌, ◌++◌, none, some, arith, length,
  length-append, drop, drop-append, take-append, All,
}
use c.Prelude.Text.{String}
use c.Util.{is_among, find_first_not_of, find_last_not_of, trim, trim_left, trim_right}

module _ (delimit : String) where
  -- Every character is one to take off.
  abbrev pub Blank : String → Type 0
  Blank = All (λ c. is_among delimit c ≡ true)

  first-Blank : (a : String) → Blank a → find_first_not_of delimit a ≡ none
  unfolding find_first_not_of
  first-Blank [] h = refl
  first-Blank (c ∷ a) (e, h) = rw (e, first-Blank a h) refl

  last-Blank : (a : String) → Blank a → find_last_not_of delimit a ≡ none
  unfolding find_last_not_of
  last-Blank [] h = refl
  last-Blank (c ∷ a) (e, h) = rw (last-Blank a h, e) refl

  first_lem :
      (a : String) (x : ℕ) (u : String)
      → Blank a
      → is_among delimit x ≡ false
      → find_first_not_of delimit (a ++ x ∷ u) ≡ some (length a)
  unfolding find_first_not_of
  first_lem [] x u h e = rw e refl
  first_lem (c ∷ a) x u (d, h) e = rw (d, first_lem a x u h e) refl

  last_lem :
      (v : String) (y : ℕ) (b : String)
      → Blank b
      → is_among delimit y ≡ false
      → find_last_not_of delimit (v ++ y ∷ b) ≡ some (length v)
  unfolding find_last_not_of
  last_lem [] y b h e = rw (last-Blank b h, e) refl
  last_lem (c ∷ v) y b h e = rw (last_lem v y b h e) refl

  -- A text of delimiters only is trimmed to nothing. Of any other, written as delimiters a, then a middle
  -- that starts with the character x and ends with y, neither a delimiter, then delimiters b: Trim leaves
  -- the middle and TrimLeft the middle and b; TrimRight leaves a and the middle without its last
  -- character y.
  pub trim_lem :
      (a b u v : String) (x y : ℕ)
      → Blank a
      → Blank b
      → is_among delimit x ≡ false
      → is_among delimit y ≡ false
      → x ∷ u ≡ v ++ y ∷ []
      → (trim a delimit ≡ [])
        × (trim_left a delimit ≡ [])
        × (trim_right a delimit ≡ [])
        × (trim (a ++ (x ∷ u) ++ b) delimit ≡ x ∷ u)
        × (trim_left (a ++ (x ∷ u) ++ b) delimit ≡ (x ∷ u) ++ b)
        × (trim_right (a ++ (x ∷ u) ++ b) delimit ≡ a ++ v)
  unfolding trim trim_left trim_right
  trim_lem a b u v x y ha hb hx hy e = (
    rw (trim, first-Blank a ha) refl,
    rw (trim_left, first-Blank a ha) refl,
    rw (trim_right, last-Blank a ha) refl,
    rw (trim, first, last, kept, size) (take-append (x ∷ u) b),
    rw (trim_left, first, kept) refl,
    rw (trim_right, last, whole) (take-append (a ++ v) (y ∷ b)),
  )
    where
      whole : a ++ (x ∷ u) ++ b ≡ (a ++ v) ++ y ∷ b
      whole =
          ap (λ (s : String). a ++ s ++ b) e
          ∙ ap (λ (s : String). s ++ b) (sym (append_assoc a v (y ∷ [])))
          ∙ append_assoc (a ++ v) (y ∷ []) b

      first : find_first_not_of delimit (a ++ (x ∷ u) ++ b) ≡ some (length a)
      first = rw (append_assoc a (x ∷ u) b) (first_lem a x (u ++ b) ha hx)

      last : find_last_not_of delimit (a ++ (x ∷ u) ++ b) ≡ some (length (a ++ v))
      last = rw whole (last_lem (a ++ v) y b hb hy)

      kept : drop (length a) (a ++ (x ∷ u) ++ b) ≡ (x ∷ u) ++ b
      kept = rw (append_assoc a (x ∷ u) b) (drop-append a ((x ∷ u) ++ b))

      size : length (a ++ v) - length a + 1 ≡ length (x ∷ u)
      size = omega (arith, length-append a v, ap length e, length-append v (y ∷ []))
