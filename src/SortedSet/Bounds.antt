-- ===== src/SortedSet/Bounds.antt =====
-- lower_bound splits a sorted set at a key; filters of a list.
use c.Prelude.{
  ℕ, ◌≡◌, refl, ap, Bool, true, false, ◌&&◌, List, [], ◌∷◌, ◌++◌, inl, inr, if◌then◌else◌, ◌==◌,
  ==_iff, Bool-cases, arith, All,
}
use c.SortedSet.{IsStrictOrder, lower_bound}
use c.SortedSet.Order.{elem, Sorted, All-of_elem, elem-All, elem-append}

-- What passes the test, in order.
unfoldable pub keep : (ℕ → Bool) → List ℕ → List ℕ
keep f [] = []
keep f (x ∷ xs) = if f x then x ∷ keep f xs else keep f xs

pub keep-split :
    (f : ℕ → Bool) (xs ys : List ℕ)
    → All (λ x. f x ≡ true) xs
    → All (λ y. f y ≡ false) ys
    → keep f (xs ++ ys) ≡ xs
unfolding keep
keep-split f [] [] h k = refl
keep-split f [] (y ∷ ys) h (ky, k) = rw ky (keep-split f [] ys tt k)
keep-split f (x ∷ xs) ys (hx, h) k = rw hx (ap (◌∷◌ x) (keep-split f xs ys h k))

pub keep-none : (f : ℕ → Bool) (ys : List ℕ) → All (λ y. f y ≡ false) ys → keep f ys ≡ []
keep-none f ys h = keep-split f [] ys tt h

pub elem-keep : (f : ℕ → Bool) (a : ℕ) (xs : List ℕ) → elem a (keep f xs) ≡ (elem a xs && f a)
unfolding keep
elem-keep f a [] = refl
elem-keep f a (x ∷ xs) = elim (Bool-cases (x == a)) [
  | inl e ↦ ground (arith, elem-keep f a xs, (==_iff x a).0 e)
  | inr e ↦ ground (arith, elem-keep f a xs, e)
]

pub All-imp {ℓ κ} :
    (P : ℕ → Type ℓ) (Q : ℕ → Type κ) (xs : List ℕ)
    → ((a : ℕ) → elem a xs ≡ true → P a → Q a)
    → All P xs
    → All Q xs
All-imp P Q xs h ps = All-of_elem Q xs (λ a e. h a e (elem-All P a xs ps e))

pub All-append {ℓ} : (P : ℕ → Type ℓ) (xs ys : List ℕ) → All P xs → All P ys → All P (xs ++ ys)
All-append P [] ys hx hy = hy
All-append P (x ∷ xs) ys (h, hx) hy = (h, All-append P xs ys hx hy)

pub Sorted-drop : (less : ℕ → ℕ → Bool) (xs ys : List ℕ) → Sorted less (xs ++ ys) → Sorted less ys
Sorted-drop less [] ys s = s
Sorted-drop less (x ∷ xs) ys s = Sorted-drop less xs ys s.1

-- No element stands twice in a sorted set.
abbrev pub Distinct : List ℕ → Type 0
Distinct [] = Unit {0}
Distinct (x ∷ xs) = (elem x xs ≡ false) × Distinct xs

pub Sorted-Distinct :
    (less : ℕ → ℕ → Bool) → IsStrictOrder less → (xs : List ℕ) → Sorted less xs → Distinct xs
Sorted-Distinct less o [] s = tt
Sorted-Distinct less o (x ∷ xs) (below, s) = (
  elim (Bool-cases (elem x xs)) [
    | inl e ↦ absurd (cc (elem-All (λ z. less x z ≡ true) x xs below e, o.irrefl x))
    | inr e ↦ e
  ],
  Sorted-Distinct less o xs s,
)

-- The two parts of a set without repetition have no element in common.
pub Distinct-append :
    (xs ys : List ℕ) → Distinct (xs ++ ys) → Distinct xs × All (λ x. elem x ys ≡ false) xs
Distinct-append [] ys d = (tt, tt)
Distinct-append (x ∷ xs) ys (away, d) =
    let (dx, off) = Distinct-append xs ys d in
    (
      (ground (arith, away, elem-append x xs ys), dx),
      (ground (arith, away, elem-append x xs ys), off),
    )

module _ (less : ℕ → ℕ → Bool) (x : ℕ) where
  pub lower_bound-before : (xs : List ℕ) → All (λ y. less y x ≡ true) (lower_bound less x xs).0
  unfolding lower_bound
  lower_bound-before [] = tt
  lower_bound-before (y ∷ ys) = elim (Bool-cases (less y x)) [
    | inl e ↦ rw e (e, lower_bound-before ys)
    | inr e ↦ rw e tt
  ]

  pub lower_bound-after :
      IsStrictOrder less
      → (xs : List ℕ) → Sorted less xs
      → All (λ y. less y x ≡ false) (lower_bound less x xs).1
  unfolding lower_bound
  lower_bound-after o [] s = tt
  lower_bound-after o (y ∷ ys) (below, s) = elim (Bool-cases (less y x)) [
    | inl e ↦ rw e (lower_bound-after o ys s)
    | inr e ↦
        rw e
          (e, All-imp (λ z. less y z ≡ true) (λ z. less z x ≡ false) ys (λ a _ p. rest a p e) below)
  ]
    where
      rest : (a : ℕ) → less y a ≡ true → less y x ≡ false → less a x ≡ false
      rest a p e = elim (Bool-cases (less a x)) [
        | inl q ↦ absurd (cc (o.trans y a x p q, e))
        | inr q ↦ q
      ]
