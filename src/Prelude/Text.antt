-- ===== src/Prelude/Text.antt =====
-- std::string: a list of the characters' codes, below 256, and the comparison of two.
use mathlib.Core.Path.{◌≡◌, refl, sym, ◌∙◌}
use mathlib.Core.Logic.{◌↔◌, inl, inr}
use mathlib.Core.Bool.{Bool, true, false, ◌&&◌, ◌||◌}
use mathlib.Core.List.{List, [], ◌∷◌, ◌++◌}
use Prim.Native.Nat.{ℕ, zero, suc, ◌+◌, ◌/◌, ◌%◌}
use Prim.Native.Char.{code}
use Prim.Native.String.{String as Literal}
use c.Prelude.Tests.{◌==◌, ==_iff, ltb, leb, if◌then◌else◌, Bool-cases}

abbrev pub String : Type 0
String = List ℕ

-- A literal's codes.
abbrev pub codes : Literal → String
codes Literal.[] = []
codes (Literal.◌∷◌ c s) = code c ∷ codes s

unfoldable pub same : String → String → Bool
same [] [] = true
same [] (y ∷ ys) = false
same (x ∷ xs) [] = false
same (x ∷ xs) (y ∷ ys) = x == y && same xs ys

pub same_iff : (a b : String) → (same a b ≡ true) ↔ (a ≡ b)
unfolding same
same_iff [] [] = ((λ _. refl), (λ _. refl))
same_iff [] (y ∷ ys) = ((λ e. absurd (cc)), (λ e. absurd (cc)))
same_iff (x ∷ xs) [] = ((λ e. absurd (cc)), (λ e. absurd (cc)))
same_iff (x ∷ xs) (y ∷ ys) = (
  (λ e. elim (Bool-cases (x == y)) [
    | inl h ↦ let q = (==_iff x y).0 h in let r = (same_iff xs ys).0 (rw h at e) in cc
    | inr h ↦ absurd (cc (rw h at e))
  ]),
  (λ e.
      let q : x ≡ y = cc in
      let r : xs ≡ ys = cc in rw ((==_iff x y).1 q, (same_iff xs ys).1 r) refl),
)

pub same_refl : (a : String) → same a a ≡ true
same_refl a = (same_iff a a).1 refl

pub same_differ : (a b c : String) → same a b ≡ false → same a c ≡ true → same b c ≡ false
same_differ a b c e k = elim (Bool-cases (same b c)) [
  | inl h ↦ absurd (cc (e, (same_iff a b).1 ((same_iff a c).0 k ∙ sym ((same_iff b c).0 h))))
  | inr h ↦ h
]

-- c_str(): the characters before the first NUL.
unfoldable pub c_str : String → String
c_str [] = []
c_str (c ∷ s) = let rest = c_str s in if c == 0 then [] else c ∷ rest

-- tolower, in the C locale.
unfoldable pub to_lower : ℕ → ℕ
to_lower c = if leb b'A' c && leb c b'Z' then c + 32 else c

unfoldable pub lower : String → String
lower [] = []
lower (c ∷ s) = to_lower c ∷ lower s

-- The order of strcmp: by the first character that differs.
unfoldable pub before : String → String → Bool
before [] [] = false
before [] (y ∷ ys) = true
before (x ∷ xs) [] = false
before (x ∷ xs) (y ∷ ys) = ltb x y || (x == y && before xs ys)

-- A number in decimal digits, as an ostream writes it; n rounds are enough for n.
unfoldable pub decimal_loop : ℕ → ℕ → String
decimal_loop zero n = []
decimal_loop (suc k) n =
    let rest = decimal_loop k (n / 10) in
    if ltb n 10 then (b'0' + n) ∷ [] else rest ++ (b'0' + n % 10) ∷ []

unfoldable pub decimal : ℕ → String
decimal n = decimal_loop (suc n) n

-- Does the text start with the first one?
unfoldable pub starts_with : String → String → Bool
starts_with [] s = true
starts_with (x ∷ xs) [] = false
starts_with (x ∷ xs) (y ∷ ys) = x == y && starts_with xs ys

-- strstr: does the second text stand in the first?
unfoldable pub has_part : String → String → Bool
has_part [] part = starts_with part []
has_part (c ∷ s) part = starts_with part (c ∷ s) || has_part s part
