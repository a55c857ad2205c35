-- ===== src/ByteArray/Bytes.antt =====
-- Laws of memcpy, and of the bytes of a chain of nodes.
use c.Prelude.{
  ℕ, zero, suc, ◌+◌, ◌-◌, ◌≤◌, ◌≡◌, refl, sym, ap, ◌∙◌, List, [], ◌∷◌, ◌++◌, length, take, drop,
  length-drop, arith,
}
use native.Mathlib.Nat.{zero-add, suc-add, sub-zero, suc-sub-suc}
use mathlib.Core.List.{append_assoc}
use c.ByteArray.{put, slice}

-- The bytes of the nodes, one after another.
abbrev pub concat : List (List ℕ) → List ℕ
concat [] = []
concat (n ∷ ns) = n ++ concat ns

pub concat-append : (ms ns : List (List ℕ)) → concat (ms ++ ns) ≡ concat ms ++ concat ns
concat-append [] ns = refl
concat-append (m ∷ ms) ns = rw (concat-append ms ns) (sym (append_assoc m (concat ms) (concat ns)))

pub take-zero : (xs : List ℕ) → take 0 xs ≡ []
take-zero xs = refl

pub put-nil : (xs : List ℕ) (i : ℕ) → put xs i [] ≡ xs
unfolding put
put-nil [] i = refl
put-nil (x ∷ xs) zero = refl
put-nil (x ∷ xs) (suc i) = ap (◌∷◌ x) (put-nil xs i)

-- What is written lies between what is before and after it.
pub put-slices :
    (xs : List ℕ) (i : ℕ) (src : List ℕ)
    → i + length src ≤ length xs
    → put xs i src ≡ take i xs ++ (src ++ drop (i + length src) xs)
unfolding put
put-slices [] zero [] h = refl
put-slices [] zero (y ∷ ys) h = absurd (omega arith)
put-slices [] (suc i) src h = absurd (omega arith)
put-slices (x ∷ xs) zero [] h = refl
put-slices (x ∷ xs) zero (y ∷ ys) h = ap (◌∷◌ y) (
    put-slices xs zero ys (omega arith)
    ∙ rw (zero-add (length ys), zero-add (suc (length ys))) refl)
put-slices (x ∷ xs) (suc i) src h =
    ap (◌∷◌ x) (put-slices xs i src (omega arith)) ∙ rw (suc-add i (length src)) refl

pub length-put : (xs : List ℕ) (i : ℕ) (src : List ℕ) → length (put xs i src) ≡ length xs
unfolding put
length-put [] i src = refl
length-put (x ∷ xs) zero [] = refl
length-put (x ∷ xs) zero (y ∷ ys) = ap suc (length-put xs zero ys)
length-put (x ∷ xs) (suc i) src = ap suc (length-put xs i src)

-- A write over two memories that lie next to one another.
pub put-append_left :
    (xs ys : List ℕ) (i : ℕ) (src : List ℕ)
    → i + length src ≤ length xs
    → put (xs ++ ys) i src ≡ put xs i src ++ ys
unfolding put
put-append_left [] ys zero [] h = put-nil ys 0
put-append_left [] ys zero (z ∷ zs) h = absurd (omega arith)
put-append_left [] ys (suc i) src h = absurd (omega arith)
put-append_left (x ∷ xs) ys zero [] h = refl
put-append_left (x ∷ xs) ys zero (z ∷ zs) h =
    ap (◌∷◌ z) (put-append_left xs ys zero zs (omega arith))
put-append_left (x ∷ xs) ys (suc i) src h = ap (◌∷◌ x) (put-append_left xs ys i src (omega arith))

pub put-append_over :
    (xs ys : List ℕ) (i : ℕ) (src : List ℕ)
    → i ≤ length xs
    → put (xs ++ ys) i src
      ≡ put xs i (take (length xs - i) src) ++ put ys 0 (drop (length xs - i) src)
unfolding put
put-append_over [] ys zero src h = refl
put-append_over [] ys (suc i) src h = absurd (omega arith)
put-append_over (x ∷ xs) ys zero [] h = rw (sub-zero (suc (length xs))) (rw (put-nil ys 0) refl)
put-append_over (x ∷ xs) ys zero (z ∷ zs) h =
    rw (sub-zero (suc (length xs)))
      (ap (◌∷◌ z) (put-append_over xs ys zero zs (omega arith) ∙ rw (sub-zero (length xs)) refl))
put-append_over (x ∷ xs) ys (suc i) src h =
    rw (suc-sub-suc (length xs) i) (ap (◌∷◌ x) (put-append_over xs ys i src (omega arith)))

pub put-append_right :
    (xs ys : List ℕ) (i : ℕ) (src : List ℕ)
    → put (xs ++ ys) (length xs + i) src ≡ xs ++ put ys i src
unfolding put
put-append_right [] ys i src = rw (zero-add i) refl
put-append_right (x ∷ xs) ys i src =
    rw (suc-add (length xs) i) (ap (◌∷◌ x) (put-append_right xs ys i src))

pub drop-append_left :
    (i : ℕ) (xs ys : List ℕ) → i ≤ length xs → drop i (xs ++ ys) ≡ drop i xs ++ ys
drop-append_left zero xs ys h = refl
drop-append_left (suc i) [] ys h = absurd (omega arith)
drop-append_left (suc i) (x ∷ xs) ys h = drop-append_left i xs ys (omega arith)

pub drop-append_right : (i : ℕ) (xs ys : List ℕ) → drop (length xs + i) (xs ++ ys) ≡ drop i ys
drop-append_right i [] ys = rw (zero-add i) refl
drop-append_right i (x ∷ xs) ys = rw (suc-add (length xs) i) (drop-append_right i xs ys)

pub take-append_left : (i : ℕ) (xs ys : List ℕ) → i ≤ length xs → take i (xs ++ ys) ≡ take i xs
take-append_left zero xs ys h = refl
take-append_left (suc i) [] ys h = absurd (omega arith)
take-append_left (suc i) (x ∷ xs) ys h = ap (◌∷◌ x) (take-append_left i xs ys (omega arith))

pub take-append_over :
    (i : ℕ) (xs ys : List ℕ) → length xs ≤ i → take i (xs ++ ys) ≡ xs ++ take (i - length xs) ys
take-append_over i [] ys h = rw (sub-zero i) refl
take-append_over zero (x ∷ xs) ys h = absurd (omega arith)
take-append_over (suc i) (x ∷ xs) ys h =
    ap (◌∷◌ x) (take-append_over i xs ys (omega arith) ∙ rw (suc-sub-suc i (length xs)) refl)

pub take-all : (i : ℕ) (xs : List ℕ) → length xs ≤ i → take i xs ≡ xs
take-all zero [] h = refl
take-all zero (x ∷ xs) h = absurd (omega arith)
take-all (suc i) [] h = refl
take-all (suc i) (x ∷ xs) h = ap (◌∷◌ x) (take-all i xs (omega arith))

-- A slice that ends in the first of two memories, and one that goes on into the second.
pub slice-append_left :
    (i k : ℕ) (xs ys : List ℕ) → i + k ≤ length xs → slice i k (xs ++ ys) ≡ slice i k xs
slice-append_left i k xs ys h =
    rw (drop-append_left i xs ys (omega arith))
      (take-append_left k (drop i xs) ys (omega (arith, length-drop i xs)))

pub slice-append_over :
    (i k : ℕ) (xs ys : List ℕ)
    → i ≤ length xs
    → length xs ≤ i + k
    → slice i k (xs ++ ys) ≡ slice i (length xs - i) xs ++ slice 0 (k - (length xs - i)) ys
slice-append_over i k xs ys h h' =
    rw
      (
        drop-append_left i xs ys h,
        take-append_over k (drop i xs) ys (omega (arith, length-drop i xs)),
        length-drop i xs,
        take-all (length xs - i) (drop i xs) (omega (arith, length-drop i xs)),
      )
      refl
