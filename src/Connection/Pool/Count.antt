-- ===== src/Connection/Pool/Count.antt =====
-- How many connections there are, and how often one is among them.
use c.Prelude.{
  ℕ, ◌+◌, ◌≡◌, refl, ap, Bool, true, false, List, [], ◌∷◌, ◌++◌, Option, none, some, ◌==◌,
  if◌then◌else◌, arith, Bool-cases, inl, inr, All,
}
use c.Connection.Pool.{HttpConnection, take_usable}

-- How often the address stands among the connections.
unfoldable pub count : ℕ → List HttpConnection → ℕ
count a [] = 0
count a (conn ∷ conns) = (if a == conn.address then 1 else 0) + count a conns

pub count-cons :
    (a : ℕ) (x : HttpConnection) (xs : List HttpConnection)
    → count a (x ∷ xs) ≡ (if a == x.address then 1 else 0) + count a xs
unfolding count
count-cons a x xs = refl

pub count-append :
    (a : ℕ) (xs ys : List HttpConnection) → count a (xs ++ ys) ≡ count a xs + count a ys
unfolding count
count-append a [] ys = omega arith
count-append a (x ∷ xs) ys = omega (arith, count-append a xs ys)

-- The one that was taken, if any.
abbrev pub taken : Option HttpConnection → List HttpConnection
taken none = []
taken (some conn) = conn ∷ []

module _ (usable : HttpConnection → Bool) where
  -- Nothing is lost: those dropped, the one taken and those that stay, in order.
  pub take_usable-append :
      (conns : List HttpConnection)
      → conns
        ≡ (take_usable usable conns).0
          ++ (taken (take_usable usable conns).1 ++ (take_usable usable conns).2)
  unfolding take_usable
  take_usable-append [] = refl
  take_usable-append (conn ∷ conns) = elim (Bool-cases (usable conn)) [
    | inl e ↦ rw e refl
    | inr e ↦ rw e (ap (λ (l : List HttpConnection). conn ∷ l) (take_usable-append conns))
  ]

  pub take_usable-dropped :
      (conns : List HttpConnection) → All (λ conn. usable conn ≡ false) (take_usable usable conns).0
  unfolding take_usable
  take_usable-dropped [] = tt
  take_usable-dropped (conn ∷ conns) = elim (Bool-cases (usable conn)) [
    | inl e ↦ rw e tt
    | inr e ↦ rw e (e, take_usable-dropped conns)
  ]

  pub take_usable-taken :
      (conns : List HttpConnection)
      → All (λ conn. usable conn ≡ true) (taken (take_usable usable conns).1)
  unfolding take_usable
  take_usable-taken [] = tt
  take_usable-taken (conn ∷ conns) = elim (Bool-cases (usable conn)) [
    | inl e ↦ rw e (e, tt)
    | inr e ↦ rw e (take_usable-taken conns)
  ]
