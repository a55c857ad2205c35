-- ===== src/Dict/Laws.antt =====
-- What a key is bound to after each operation, and that the pairs stay in order.
use c.Prelude.{◌≡◌, refl, true, false, List, [], ◌∷◌, none, some, if◌then◌else◌, All, arith}
use c.Dict.{Compare, equivalent, find, assign, insert, erase}

module _ {ℓ κ} {K : Type ℓ} {V : Type κ} (C : Compare K) where
  pub find-assign :
      (q key : K) (val : V) (m : List (K × V))
      → find C q (assign C key val m) ≡ (if equivalent C key q then some val else find C q m)
  unfolding find assign equivalent
  find-assign q key val [] = ground arith
  find-assign q key val ((k, v) ∷ m) = ground (
    arith,
    C.irrefl k,
    C.trans k key q,
    C.weak k key q,
    C.trans q key k,
    C.weak q key k,
    C.trans key k q,
    C.weak key k q,
    C.trans key q k,
    C.weak key q k,
    C.weak k q key,
    C.weak q k key,
    find-assign q key val m,
  )

  pub find-insert :
      (q key : K) (val : V) (m : List (K × V))
      → find C q (insert C key val m) ≡ (
          if equivalent C key q
          then elim (find C key m) [ none ↦ some val | some v ↦ some v ]
          else find C q m)
  unfolding find insert equivalent
  find-insert q key val [] = ground arith
  find-insert q key val ((k, v) ∷ m) = ground (
    arith,
    C.irrefl k,
    C.trans k key q,
    C.weak k key q,
    C.trans q key k,
    C.weak q key k,
    C.trans key k q,
    C.weak key k q,
    C.trans key q k,
    C.weak key q k,
    C.weak k q key,
    C.weak q k key,
    find-insert q key val m,
  )

  -- Keys that are one to the map have one value.
  pub find-equivalent :
      (a b : K) (m : List (K × V)) → equivalent C a b ≡ true → find C a m ≡ find C b m
  unfolding find equivalent
  find-equivalent a b [] e = refl
  find-equivalent a b ((k, v) ∷ m) e = ground (
    arith,
    C.weak k a b,
    C.weak k b a,
    C.weak a b k,
    C.weak b a k,
    C.weak a k b,
    C.weak b k a,
    find-equivalent a b m e,
  )

  -- Each key is less than the ones behind it.
  unfoldable pub IsSorted : List (K × V) → Type (ℓ ⊔ κ)
  IsSorted [] = Unit {ℓ ⊔ κ}
  IsSorted ((k, v) ∷ m) = All (λ p. C.less k p.0 ≡ true) m × IsSorted m

  find-behind :
      (k q : K) (m : List (K × V))
      → All (λ p. C.less k p.0 ≡ true) m
      → C.less k q ≡ false
      → find C q m ≡ none
  unfolding find
  find-behind k q [] h e = refl
  find-behind k q ((j, v) ∷ m) (le, h) e = ground (arith, C.weak k q j, C.trans k j q)

  pub find-erase :
      (q key : K) (m : List (K × V))
      → IsSorted m
      → find C q (erase C key m) ≡ (if equivalent C key q then none else find C q m)
  unfolding find erase equivalent IsSorted
  find-erase q key [] s = ground arith
  find-erase q key ((k, v) ∷ m) (h, s) = ground (
    arith,
    C.trans k key q,
    C.weak k key q,
    C.trans q key k,
    C.weak q key k,
    C.trans key k q,
    C.weak key k q,
    C.trans key q k,
    C.weak key q k,
    C.weak k q key,
    C.weak q k key,
    find-erase q key m s,
    find-behind k q m h,
  )
