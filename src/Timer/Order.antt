-- ===== src/Timer/Order.antt =====
-- Timer::Comparator orders the timers strictly, by time and then by address.
use c.Prelude.{ℕ, ◌≡◌, refl, ◌≢◌, true, false, inl, inr, List, ◌==◌, arith, ==_iff, Bool-cases, ◌≤◌}
use c.SortedSet.{IsStrictOrder}
use c.SortedSet.Order.{elem, Sorted, AgreeOn, Sorted-agree}
use c.Timer.{Timer, less, store}

less_irrefl : (m : ℕ → Timer) (a : ℕ) → less m a a ≡ false
unfolding less
less_irrefl m a = ground arith

less-total : (m : ℕ → Timer) (a b : ℕ) → less m a b ≡ false → less m b a ≡ false → a ≡ b
unfolding less
less-total m a b = ground arith

less_trans : (m : ℕ → Timer) (a b c : ℕ) → less m a b ≡ true → less m b c ≡ true → less m a c ≡ true
unfolding less
less_trans m a b c = ground arith

-- The comparator is what std::set asks for, whatever the timers are.
pub less-IsStrictOrder : (m : ℕ → Timer) → IsStrictOrder (less m)
less-IsStrictOrder m = record { irrefl = less_irrefl m; trans = less_trans m; total = less-total m }

-- An earlier time goes first.
pub less-next :
    (m : ℕ → Timer) (a b : ℕ) → b ≢ 0 → less m a b ≡ true → a ≢ 0 → (m a).next ≤ (m b).next
unfolding less
less-next m a b hb e ha = ground arith

-- A write to an object that is not in the set does not disturb the order.
pub Sorted-store :
    (m : ℕ → Timer) (p : ℕ) (t : Timer) (xs : List ℕ)
    → elem p xs ≡ false
    → Sorted (less m) xs
    → Sorted (less (store m p t)) xs
unfolding less
Sorted-store m p t xs absent = Sorted-agree (less m) (less (store m p t)) xs agree
  where
    away : (a : ℕ) → elem a xs ≡ true → (p == a) ≡ false
    away a e = elim (Bool-cases (p == a)) [
      | inl q ↦ absurd (cc (absent, e, (==_iff p a).0 q))
      | inr q ↦ q
    ]

    agree : AgreeOn (less m) (less (store m p t)) xs
    agree a b ea eb = rw (away a ea, away b eb) refl
