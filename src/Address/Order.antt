-- ===== src/Address/Order.antt =====
-- Address::operator< and ==, on the bytes of two addresses.
use Prim.Native.Nat.{min}
use c.Prelude.{
  ℕ, zero, suc, Bool, true, false, ◌&&◌, [], ◌∷◌, ◌≡◌, refl, ltb, ◌==◌, length, lt→ltb, Bool-cases,
  inl, inr, arith,
}
use c.Prelude.Text.{String, before, same}
use c.Address.{memcmp, address_less, address_equal, below_or}

less_steps :
    (n : ℕ)
    → (a b : String) → n ≡ min (length a) (length b)
    → below_or (memcmp a b n) (ltb (length a) (length b)) ≡ before a b
unfolding memcmp before
less_steps zero [] [] e = refl
less_steps zero [] (y ∷ b) e = lt→ltb 0 (suc (length b)) (omega arith)
less_steps zero (x ∷ a) [] e = ground arith
less_steps zero (x ∷ a) (y ∷ b) e = absurd (omega arith)
less_steps (suc n) [] b e = absurd (omega arith)
less_steps (suc n) (x ∷ a) [] e = absurd (omega arith)
less_steps (suc n) (x ∷ a) (y ∷ b) e = elim (Bool-cases (ltb x y)) [
  | inl h ↦ rw h refl
  | inr h ↦ elim (Bool-cases (ltb y x)) [
    | inl k ↦ let q : (x == y) ≡ false = ground arith in rw (h, k, q) refl
    | inr k ↦
        let q : (x == y) ≡ true = ground arith in
        let l : ltb (suc (length a)) (suc (length b)) ≡ ltb (length a) (length b) = ground arith in
        rw (h, k, q, l) (less_steps n a b (omega arith))
  ]
]

pub address_less_lem : (a b : String) → address_less a b ≡ before a b
unfolding address_less
address_less_lem a b = less_steps (min (length a) (length b)) a b refl

and-false : (a : Bool) → (a && false) ≡ false
and-false true = refl
and-false false = refl

pub address_equal_lem : (a b : String) → address_equal a b ≡ same a b
unfolding address_equal memcmp same
address_equal_lem [] [] = refl
address_equal_lem [] (y ∷ b) = ground arith
address_equal_lem (x ∷ a) [] = ground arith
address_equal_lem (x ∷ a) (y ∷ b) =
    let l : (suc (length a) == suc (length b)) ≡ (length a == length b) = ground arith in
    let rest = address_equal_lem a b in
    elim (Bool-cases (ltb x y)) [
      | inl h ↦
          let q : (x == y) ≡ false = ground arith in
          rw (h, q) (and-false (suc (length a) == suc (length b)))
      | inr h ↦ elim (Bool-cases (ltb y x)) [
        | inl k ↦
            let q : (x == y) ≡ false = ground arith in
            rw (h, k, q) (and-false (suc (length a) == suc (length b)))
        | inr k ↦ let q : (x == y) ≡ true = ground arith in rw (h, k, q, l) rest
      ]
    ]
