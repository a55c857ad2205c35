-- ===== src/ByteArray/Overwrite.antt =====
-- Cutting lists into parts: what a write over a prefix of the memory does to the bytes in use.
use c.Prelude.{
  ℕ, zero, suc, ◌+◌, ◌-◌, ◌≤◌, ◌≡◌, refl, sym, ap, ◌∙◌, List, [], ◌∷◌, ◌++◌, ltb, if◌then◌else◌,
  length, take, drop, length-take, length-drop, arith, Bool-cases, inl, inr,
}
use native.Mathlib.Nat.{zero-add, suc-add, sub-zero, zero-sub, suc-sub-suc}
use mathlib.Core.List.{append-nil}
use c.ByteArray.{put, slice}
use c.ByteArray.Bytes.{put-slices, take-append_left, take-append_over, take-all, drop-append_left}

pub take-take : (i j : ℕ) (xs : List ℕ) → i ≤ j → take i (take j xs) ≡ take i xs
take-take zero j xs h = refl
take-take (suc i) zero xs h = absurd (omega arith)
take-take (suc i) (suc j) [] h = refl
take-take (suc i) (suc j) (x ∷ xs) h = ap (◌∷◌ x) (take-take i j xs (omega arith))

take-nil : (i : ℕ) → take {A = ℕ} i [] ≡ []
take-nil zero = refl
take-nil (suc i) = refl

pub drop-take : (i j : ℕ) (xs : List ℕ) → drop i (take j xs) ≡ take (j - i) (drop i xs)
drop-take zero j xs = rw (sub-zero j) refl
drop-take (suc i) zero xs = rw (zero-sub (suc i)) refl
drop-take (suc i) (suc j) [] = sym (take-nil (suc j - suc i))
drop-take (suc i) (suc j) (x ∷ xs) = rw (suc-sub-suc j i) (drop-take i j xs)

pub drop-all : (i : ℕ) (xs : List ℕ) → length xs ≤ i → drop i xs ≡ []
drop-all zero [] h = refl
drop-all zero (x ∷ xs) h = absurd (omega arith)
drop-all (suc i) [] h = refl
drop-all (suc i) (x ∷ xs) h = drop-all i xs (omega arith)

pub drop-drop : (i j : ℕ) (xs : List ℕ) → drop j (drop i xs) ≡ drop (i + j) xs
drop-drop zero j xs = rw (zero-add j) refl
drop-drop (suc i) zero [] = rw (suc-add i 0) refl
drop-drop (suc i) (suc j) [] = rw (suc-add i (suc j)) refl
drop-drop (suc i) j (x ∷ xs) = rw (suc-add i j) (drop-drop i j xs)

-- A sub-range of the bytes in use lies in the memory.
pub slice-take : (i k s : ℕ) (xs : List ℕ) → i + k ≤ s → slice i k (take s xs) ≡ slice i k xs
slice-take i k s xs h = rw (drop-take i s xs) (take-take k (s - i) (drop i xs) (omega arith))

-- The bytes in use after `src` is written at p, where s bytes were in use before.
abbrev pub overwrite : ℕ → List ℕ → List ℕ → List ℕ
overwrite p src xs = take p xs ++ (src ++ drop (p + length src) xs)

module _ (p s : ℕ) (src xs extra : List ℕ) (before : p ≤ s) (used : s ≤ length xs)
    (fits : p + length src ≤ length (xs ++ extra)) where
  whole : put (xs ++ extra) p src ≡ take p xs ++ (src ++ drop (p + length src) (xs ++ extra))
  whole = put-slices (xs ++ extra) p src fits ∙ rw (take-append_left p xs extra (omega arith)) refl

  -- The write ends at or behind the end of the bytes in use.
  longer :
      s ≤ p + length src
      → take (p + length src) (put (xs ++ extra) p src) ≡ overwrite p src (take s xs)
  longer h =
      rw
        (
          whole,
          take-append_over (p + length src) (take p xs) (src ++ drop (p + length src) (xs ++ extra))
              (omega (arith, length-take p xs)),
          take-take p s xs before,
          drop-all (p + length src) (take s xs) (omega (arith, length-take s xs)),
          append-nil src,
        )
        (ap (◌++◌ (take p xs))
          (only_src (p + length src - length (take p xs)) (omega (arith, length-take p xs))))
    where
      only_src :
          (k : ℕ) → k ≡ length src → take k (src ++ drop (p + length src) (xs ++ extra)) ≡ src
      only_src k e = rw e (
          take-append_left (length src) src _ (omega arith)
          ∙ take-all (length src) src (omega arith))

  -- It ends inside.
  inside : p + length src ≤ s → take s (put (xs ++ extra) p src) ≡ overwrite p src (take s xs)
  inside h =
      rw
        (
          whole,
          take-append_over s (take p xs) (src ++ drop (p + length src) (xs ++ extra))
              (omega (arith, length-take p xs)),
          take-take p s xs before,
          drop-take (p + length src) s xs,
        )
        (ap (◌++◌ (take p xs)) (rest (s - length (take p xs)) (omega (arith, length-take p xs))))
    where
      rest :
          (k : ℕ)
          → k ≡ s - p
          → take k (src ++ drop (p + length src) (xs ++ extra))
            ≡ src ++ take (s - (p + length src)) (drop (p + length src) xs)
      rest k e =
          take-append_over k src (drop (p + length src) (xs ++ extra)) (omega arith)
          ∙ ap (◌++◌ src) (
              rw (left, drop-append_left (p + length src) xs extra (omega arith))
                (take-append_left (s - (p + length src)) (drop (p + length src) xs) extra
                  (omega (arith, length-drop (p + length src) xs))))
        where
          left : k - length src ≡ s - (p + length src)
          left = omega arith

  pub take-put :
      take (if ltb s (p + length src) then p + length src else s) (put (xs ++ extra) p src)
      ≡ overwrite p src (take s xs)
  take-put = elim (Bool-cases (ltb s (p + length src))) [
    | inl e ↦ rw e (longer (ground (arith, e)))
    | inr e ↦ rw e (inside (ground (arith, e)))
  ]
