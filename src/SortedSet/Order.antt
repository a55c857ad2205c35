-- ===== src/SortedSet/Order.antt =====
-- Laws of the ordered set: what is in it after each operation, and that it stays sorted.
use c.Prelude.{
  ℕ, ◌≡◌, refl, sym, ◌∙◌, Bool, true, false, not, ◌&&◌, ◌||◌, List, [], ◌∷◌, ◌++◌, inl, inr, ◌==◌,
  ==_iff, Bool-cases, arith, All,
}
use c.SortedSet.{IsStrictOrder, insert, lower_bound, found, erase}

abbrev pub elem : ℕ → List ℕ → Bool
elem x [] = false
elem x (y ∷ ys) = y == x || elem x ys

abbrev pub Sorted : (ℕ → ℕ → Bool) → List ℕ → Type 0
Sorted less [] = Unit {0}
Sorted less (x ∷ xs) = All (λ y. less x y ≡ true) xs × Sorted less xs

-- Two comparators that agree on the elements of a list.
abbrev pub AgreeOn : (ℕ → ℕ → Bool) → (ℕ → ℕ → Bool) → List ℕ → Type 0
AgreeOn f g xs = (a b : ℕ) → elem a xs ≡ true → elem b xs ≡ true → f a b ≡ g a b

-- Every element satisfies P, read through `elem` and back.
pub All-of_elem {ℓ} : (P : ℕ → Type ℓ) (xs : List ℕ) → ((a : ℕ) → elem a xs ≡ true → P a) → All P xs
All-of_elem P [] h = tt
All-of_elem P (x ∷ xs) h =
    (h x (ground (arith, ==_iff x x)), All-of_elem P xs (λ a e. h a (ground (arith, e))))

pub elem-All {ℓ} : (P : ℕ → Type ℓ) (a : ℕ) (xs : List ℕ) → All P xs → elem a xs ≡ true → P a
elem-All P a [] h e = absurd (cc)
elem-All P a (x ∷ xs) (hx, hxs) e = elim (Bool-cases (x == a)) [
  | inl p ↦ rw (← (==_iff x a).0 p) hx
  | inr p ↦ elem-All P a xs hxs (ground arith)
]

pub elem-append : (a : ℕ) (xs ys : List ℕ) → elem a (xs ++ ys) ≡ (elem a xs || elem a ys)
elem-append a [] ys = refl
elem-append a (x ∷ xs) ys = ground (arith, elem-append a xs ys)

pub Sorted-agree : (f g : ℕ → ℕ → Bool) (xs : List ℕ) → AgreeOn f g xs → Sorted f xs → Sorted g xs
Sorted-agree f g [] h s = tt
Sorted-agree f g (x ∷ xs) h (below, s) = (
  All-of_elem _ xs (λ a e.
      sym (h x a (ground (arith, ==_iff x x)) (ground (arith, e))) ∙ elem-All _ a xs below e),
  Sorted-agree f g xs (λ a b ea eb. h a b (ground (arith, ea)) (ground (arith, eb))) s,
)

module _ (less : ℕ → ℕ → Bool) (o : IsStrictOrder less) where
  below_trans :
      (x y : ℕ) (ys : List ℕ)
      → less x y ≡ true
      → All (λ z. less y z ≡ true) ys
      → All (λ z. less x z ≡ true) ys
  below_trans x y ys p h =
      All-of_elem _ ys (λ a e. o.trans x y a p (elem-All (λ z. less y z ≡ true) a ys h e))

  pub elem-insert : (a x : ℕ) (xs : List ℕ) → elem a (insert less x xs) ≡ (x == a || elem a xs)
  unfolding insert
  elem-insert a x [] = refl
  elem-insert a x (y ∷ ys) = ground (arith, elem-insert a x ys, o.total x y)

  All-insert {ℓ} :
      (P : ℕ → Type ℓ) (x : ℕ) (xs : List ℕ) → P x → All P xs → All P (insert less x xs)
  unfolding insert
  All-insert P x [] h hs = (h, tt)
  All-insert P x (y ∷ ys) h (hy, hs) = elim (Bool-cases (less x y)) [
    | inl p ↦ rw p (h, (hy, hs))
    | inr p ↦ rw p (elim (Bool-cases (less y x)) [
      | inl q ↦ rw q (hy, All-insert P x ys h hs)
      | inr q ↦ rw q (hy, hs)
    ])
  ]

  pub insert-Sorted : (x : ℕ) (xs : List ℕ) → Sorted less xs → Sorted less (insert less x xs)
  unfolding insert
  insert-Sorted x [] s = (tt, tt)
  insert-Sorted x (y ∷ ys) (below, s) = elim (Bool-cases (less x y)) [
    | inl p ↦ rw p ((p, below_trans x y ys p below), (below, s))
    | inr p ↦ rw p (elim (Bool-cases (less y x)) [
      | inl q ↦ rw q (All-insert (λ z. less y z ≡ true) x ys q below, insert-Sorted x ys s)
      | inr q ↦ rw q (below, s)
    ])
  ]

  not-less_self :
      (x y : ℕ) (ys : List ℕ) → All (λ z. less y z ≡ true) ys → less x y ≡ true → elem x ys ≡ false
  not-less_self x y ys below p = elim (Bool-cases (elem x ys)) [
    | inl e ↦
        absurd (cc (o.trans x y x p (elem-All (λ z. less y z ≡ true) x ys below e), o.irrefl x))
    | inr e ↦ e
  ]

  -- The search by comparisons finds what is there.
  pub found-elem : (x : ℕ) (xs : List ℕ) → Sorted less xs → found less x xs ≡ elem x xs
  unfolding found
  found-elem x [] s = refl
  found-elem x (y ∷ ys) (below, s) =
      ground
        (arith, found-elem x ys s, o.total x y, o.irrefl y, ==_iff y x, not-less_self x y ys below)

  erase-absent :
      (x : ℕ) (xs : List ℕ) → elem x xs ≡ false → (a : ℕ) → elem a xs ≡ (elem a xs && not (x == a))
  erase-absent x [] e a = refl
  erase-absent x (y ∷ ys) e a = ground (arith, erase-absent x ys (ground (arith, e)) a)

  below-absent : (y : ℕ) (ys : List ℕ) → All (λ z. less y z ≡ true) ys → elem y ys ≡ false
  below-absent y ys below = elim (Bool-cases (elem y ys)) [
    | inl e ↦ absurd (cc (elem-All (λ z. less y z ≡ true) y ys below e, o.irrefl y))
    | inr e ↦ e
  ]

  pub elem-erase :
      (a x : ℕ) (xs : List ℕ)
      → Sorted less xs
      → elem x xs ≡ true
      → elem a (erase less x xs) ≡ (elem a xs && not (x == a))
  unfolding erase
  elem-erase a x [] s e = absurd (cc)
  elem-erase a x (y ∷ ys) (below, s) e = elim (Bool-cases (y == x)) [
    | inl p ↦ ground (
      arith,
      (==_iff y x).0 p,
      o.irrefl y,
      below-absent y ys below,
      erase-absent y ys (below-absent y ys below) a,
    )
    | inr p ↦ ground (
      arith,
      p,
      elem-erase a x ys s (ground arith),
      elem-All (λ z. less y z ≡ true) x ys below (ground arith),
    )
  ]

  All-erase {ℓ} : (P : ℕ → Type ℓ) (x : ℕ) (xs : List ℕ) → All P xs → All P (erase less x xs)
  unfolding erase
  All-erase P x [] h = h
  All-erase P x (y ∷ ys) (hy, hs) = elim (Bool-cases (less y x)) [
    | inl q ↦ rw q (hy, All-erase P x ys hs)
    | inr q ↦ rw q hs
  ]

  pub erase-Sorted : (x : ℕ) (xs : List ℕ) → Sorted less xs → Sorted less (erase less x xs)
  unfolding erase
  erase-Sorted x [] s = s
  erase-Sorted x (y ∷ ys) (below, s) = elim (Bool-cases (less y x)) [
    | inl q ↦ rw q (All-erase (λ z. less y z ≡ true) x ys below, erase-Sorted x ys s)
    | inr q ↦ rw q s
  ]

-- The iterator splits the set in two.
pub lower_bound-append :
    (less : ℕ → ℕ → Bool) (x : ℕ) (xs : List ℕ)
    → (lower_bound less x xs).0 ++ (lower_bound less x xs).1 ≡ xs
unfolding lower_bound
lower_bound-append less x [] = refl
lower_bound-append less x (y ∷ ys) = ground (arith, lower_bound-append less x ys)
