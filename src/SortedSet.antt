-- ===== src/SortedSet.antt =====
-- std::set<T, Compare> as the sources use it: a list kept in the order of a comparator, with the
-- operations insert, find, erase and lower_bound. An element is an address, a number.
pub mod Order
pub mod Bounds
use c.Prelude.{ℕ, ◌≡◌, Bool, true, false, not, ◌&&◌, List, [], ◌∷◌, ◌⊎◌, ◌==◌, if◌then◌else◌}

-- What the standard asks of a comparator.
pub record IsStrictOrder (less : ℕ → ℕ → Bool) : Type 0 where
  pub irrefl : (a : ℕ) → less a a ≡ false
  pub trans : (a b c : ℕ) → less a b ≡ true → less b c ≡ true → less a c ≡ true
  pub total : (a b : ℕ) → less a b ≡ false → less b a ≡ false → a ≡ b

-- insert(x).first is the place of x; an equivalent element that is there already stays.
unfoldable pub insert : (ℕ → ℕ → Bool) → ℕ → List ℕ → List ℕ
insert less x [] = x ∷ []
insert less x (y ∷ ys) =
    if less x y then x ∷ y ∷ ys else if less y x then y ∷ insert less x ys else y ∷ ys

-- [begin, lower_bound(x)) and [lower_bound(x), end).
unfoldable pub lower_bound : (ℕ → ℕ → Bool) → ℕ → List ℕ → List ℕ × List ℕ
lower_bound less x [] = ([], [])
lower_bound less x (y ∷ ys) =
    let (before, after) = lower_bound less x ys in
    if less y x then (y ∷ before, after) else ([], y ∷ ys)

-- find(x) != end()
unfoldable pub found : (ℕ → ℕ → Bool) → ℕ → List ℕ → Bool
found less x [] = false
found less x (y ∷ ys) = if less y x then found less x ys else not (less x y)

-- erase(find(x)), where find(x) is not end().
unfoldable pub erase : (ℕ → ℕ → Bool) → ℕ → List ℕ → List ℕ
erase less x [] = []
erase less x (y ∷ ys) = if less y x then y ∷ erase less x ys else ys
