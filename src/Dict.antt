-- ===== src/Dict.antt =====
-- std::map, as the maps of http.h are used: the pairs, in the order of their keys.
pub mod Laws
pub mod Order
use c.Prelude.{
  ◌≡◌, ◌⊎◌, Bool, true, false, not, ◌&&◌, List, [], ◌∷◌, Option, none, some, if◌then◌else◌,
}

-- The C++ requirement on a comparison: a strict weak order.
pub record Compare {ℓ} (K : Type ℓ) : Type ℓ where
  pub less : K → K → Bool
  pub irrefl : (a : K) → less a a ≡ false
  pub trans : (a b c : K) → less a b ≡ true → less b c ≡ true → less a c ≡ true
  pub weak : (a b c : K) → less a c ≡ true → (less a b ≡ true) ⊎ (less b c ≡ true)

module _ {ℓ} {K : Type ℓ} (C : Compare K) where
  -- Neither key is less: they are one key to the map.
  unfoldable pub equivalent : K → K → Bool
  equivalent a b = not (C.less a b) && not (C.less b a)

module _ {ℓ κ} {K : Type ℓ} {V : Type κ} (C : Compare K) where
  -- find(key): the value, or none for end().
  unfoldable pub find : K → List (K × V) → Option V
  find key [] = none
  find key ((k, v) ∷ m) = if C.less k key then find key m else if C.less key k then none else some v

  -- m[key] = val
  unfoldable pub assign : K → V → List (K × V) → List (K × V)
  assign key val [] = (key, val) ∷ []
  assign key val ((k, v) ∷ m) =
      if C.less k key
      then (k, v) ∷ assign key val m
      else if C.less key k
      then (key, val) ∷ (k, v) ∷ m
      else (k, val) ∷ m

  -- m.insert(std::make_pair(key, val)), which leaves a key's value if there is one.
  unfoldable pub insert : K → V → List (K × V) → List (K × V)
  insert key val [] = (key, val) ∷ []
  insert key val ((k, v) ∷ m) =
      if C.less k key
      then (k, v) ∷ insert key val m
      else if C.less key k
      then (key, val) ∷ (k, v) ∷ m
      else (k, v) ∷ m

  -- m.erase(key)
  unfoldable pub erase : K → List (K × V) → List (K × V)
  erase key [] = []
  erase key ((k, v) ∷ m) =
      if C.less k key then (k, v) ∷ erase key m else if C.less key k then (k, v) ∷ m else m
