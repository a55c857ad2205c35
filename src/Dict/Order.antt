-- ===== src/Dict/Order.antt =====
-- The operations keep the pairs in the order of their keys.
use c.Prelude.{◌≡◌, inl, inr, true, List, [], ◌∷◌, Bool-cases, All}
use c.Dict.{Compare, assign, insert, erase}
use c.Dict.Laws.{IsSorted}

module _ {ℓ κ} {K : Type ℓ} {V : Type κ} (C : Compare K) where
  module _ {ι} (P : K → Type ι) where
    All-assign :
        (key : K) (val : V) (m : List (K × V))
        → P key
        → All (λ p. P p.0) m
        → All (λ p. P p.0) (assign C key val m)
    unfolding assign
    All-assign key val [] p h = (p, tt)
    All-assign key val ((k, v) ∷ m) p (pk, h) = elim (Bool-cases (C.less k key)) [
      | inl e ↦ rw e (pk, All-assign key val m p h)
      | inr e ↦
          rw e
            (elim (Bool-cases (C.less key k)) [ inl d ↦ rw d (p, (pk, h)) | inr d ↦ rw d (pk, h) ])
    ]

    All-insert :
        (key : K) (val : V) (m : List (K × V))
        → P key
        → All (λ p. P p.0) m
        → All (λ p. P p.0) (insert C key val m)
    unfolding insert
    All-insert key val [] p h = (p, tt)
    All-insert key val ((k, v) ∷ m) p (pk, h) = elim (Bool-cases (C.less k key)) [
      | inl e ↦ rw e (pk, All-insert key val m p h)
      | inr e ↦
          rw e
            (elim (Bool-cases (C.less key k)) [ inl d ↦ rw d (p, (pk, h)) | inr d ↦ rw d (pk, h) ])
    ]

    All-erase : (key : K) (m : List (K × V)) → All (λ p. P p.0) m → All (λ p. P p.0) (erase C key m)
    unfolding erase
    All-erase key [] h = tt
    All-erase key ((k, v) ∷ m) (pk, h) = elim (Bool-cases (C.less k key)) [
      | inl e ↦ rw e (pk, All-erase key m h)
      | inr e ↦ rw e (elim (Bool-cases (C.less key k)) [ inl d ↦ rw d (pk, h) | inr d ↦ rw d h ])
    ]

  before_all :
      (j k : K) (m : List (K × V))
      → C.less j k ≡ true
      → All (λ p. C.less k p.0 ≡ true) m
      → All (λ p. C.less j p.0 ≡ true) m
  before_all j k [] e h = tt
  before_all j k (p ∷ m) e (le, h) = (C.trans j k p.0 e le, before_all j k m e h)

  pub assign-IsSorted :
      (key : K) (val : V) (m : List (K × V)) → IsSorted C m → IsSorted C (assign C key val m)
  unfolding assign IsSorted
  assign-IsSorted key val [] s = (tt, tt)
  assign-IsSorted key val ((k, v) ∷ m) (h, s) = elim (Bool-cases (C.less k key)) [
    | inl e ↦ rw e (All-assign (λ j. C.less k j ≡ true) key val m e h, assign-IsSorted key val m s)
    | inr e ↦ rw e (elim (Bool-cases (C.less key k)) [
      | inl d ↦ rw d ((d, before_all key k m d h), (h, s))
      | inr d ↦ rw d (h, s)
    ])
  ]

  pub insert-IsSorted :
      (key : K) (val : V) (m : List (K × V)) → IsSorted C m → IsSorted C (insert C key val m)
  unfolding insert IsSorted
  insert-IsSorted key val [] s = (tt, tt)
  insert-IsSorted key val ((k, v) ∷ m) (h, s) = elim (Bool-cases (C.less k key)) [
    | inl e ↦ rw e (All-insert (λ j. C.less k j ≡ true) key val m e h, insert-IsSorted key val m s)
    | inr e ↦ rw e (elim (Bool-cases (C.less key k)) [
      | inl d ↦ rw d ((d, before_all key k m d h), (h, s))
      | inr d ↦ rw d (h, s)
    ])
  ]

  pub erase-IsSorted : (key : K) (m : List (K × V)) → IsSorted C m → IsSorted C (erase C key m)
  unfolding erase IsSorted
  erase-IsSorted key [] s = tt
  erase-IsSorted key ((k, v) ∷ m) (h, s) = elim (Bool-cases (C.less k key)) [
    | inl e ↦ rw e (All-erase (λ j. C.less k j ≡ true) key m h, erase-IsSorted key m s)
    | inr e ↦ rw e (elim (Bool-cases (C.less key k)) [ inl d ↦ rw d (h, s) | inr d ↦ rw d s ])
  ]
