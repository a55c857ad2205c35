-- ===== src/Timer/Invariant.antt =====
-- What holds of a timer manager between its operations: m_timers is sorted, holds no null pointer,
-- and holds every timer that still has a callback.
use c.Prelude.{
  ℕ, ◌≡◌, refl, ◌∙◌, ◌≢◌, true, false, not, ◌||◌, ◌&&◌, inl, inr, List, ◌==◌, arith, ==_iff,
  Bool-cases, ◌<◌, ◌^◌,
}
use c.SortedSet.{insert, erase}
use c.SortedSet.Order.{elem, Sorted, elem-insert, insert-Sorted, elem-erase, erase-Sorted}
use c.Timer.{Timer, less, store, is_set}
use c.Timer.Order.{less-IsStrictOrder, Sorted-store}

pub record IsValid (o : ℕ → Timer) (ts : List ℕ) : Type 0 where
  pub sorted : Sorted (less o) ts
  pub live : (p : ℕ) → is_set (o p).cb ≡ true → elem p ts ≡ true
  pub no_null : elem 0 ts ≡ false
  pub bounded : (p : ℕ) → elem p ts ≡ true → (o p).next < 2 ^ 64

-- The same while the timer at p is out of the set.
pub record IsValidBut (p : ℕ) (o : ℕ → Timer) (ts : List ℕ) : Type 0 where
  pub sorted : Sorted (less o) ts
  pub live : (q : ℕ) → is_set (o q).cb ≡ true → (p == q || elem q ts) ≡ true
  pub no_null : elem 0 ts ≡ false
  pub bounded : (q : ℕ) → elem q ts ≡ true → (o q).next < 2 ^ 64
  pub absent : elem p ts ≡ false

-- Memory at other addresses is as it was.
store_other : (o : ℕ → Timer) (p q : ℕ) (t : Timer) → (p == q) ≡ false → store o p t q ≡ o q
store_other o p q t e = rw e

store_self : (o : ℕ → Timer) (p : ℕ) (t : Timer) → store o p t p ≡ t
store_self o p t = rw ((==_iff p p).1 refl)

pub elem-ne : (p q : ℕ) (ts : List ℕ) → elem p ts ≡ false → elem q ts ≡ true → (p == q) ≡ false
elem-ne p q ts absent e = elim (Bool-cases (p == q)) [
  | inl h ↦ absurd (cc ((==_iff p q).0 h))
  | inr h ↦ h
]

pub insert-IsValid :
    (p : ℕ) (o : ℕ → Timer) (ts : List ℕ)
    → p ≢ 0
    → (o p).next < 2 ^ 64
    → IsValidBut p o ts
    → IsValid o (insert (less o) p ts)
insert-IsValid p o ts nz b v = record {
  sorted = insert-Sorted (less o) (less-IsStrictOrder o) p ts v.sorted;
  live = λ q e. elem-insert (less o) (less-IsStrictOrder o) q p ts ∙ v.live q e;
  no_null = elem-insert (less o) (less-IsStrictOrder o) 0 p ts ∙ ground (arith, v.no_null);
  bounded = λ q e. elim (Bool-cases (p == q)) [
    | inl h ↦ rw (← (==_iff p q).0 h) b
    | inr h ↦ v.bounded q (ground (arith, h, e, elem-insert (less o) (less-IsStrictOrder o) q p ts))
  ];
}

pub erase-IsValidBut :
    (p : ℕ) (o : ℕ → Timer) (ts : List ℕ)
    → elem p ts ≡ true
    → IsValid o ts
    → IsValidBut p o (erase (less o) p ts)
erase-IsValidBut p o ts e v = record {
  sorted = erase-Sorted (less o) (less-IsStrictOrder o) p ts v.sorted;
  live = λ q s. ground (arith, v.live q s, gone q);
  no_null = ground (arith, v.no_null, gone 0);
  bounded = λ q s. v.bounded q (ground (arith, s, gone q));
  absent = ground (arith, gone p, ==_iff p p);
}
  where
    gone : (q : ℕ) → elem q (erase (less o) p ts) ≡ (elem q ts && not (p == q))
    gone q = elem-erase (less o) (less-IsStrictOrder o) q p ts v.sorted e

pub store-IsValidBut :
    (p : ℕ) (t : Timer) (o : ℕ → Timer) (ts : List ℕ)
    → IsValidBut p o ts
    → IsValidBut p (store o p t) ts
store-IsValidBut p t o ts v = record {
  sorted = Sorted-store o p t ts v.absent v.sorted;
  live = λ q e. elim (Bool-cases (p == q)) [
    | inl h ↦ rw h refl
    | inr h ↦ v.live q (rw (store_other o p q t h) at e)
  ];
  no_null = v.no_null;
  bounded = λ q e. rw (store_other o p q t (elem-ne p q ts v.absent e)) (v.bounded q e);
  absent = v.absent;
}

-- Once the callback of p is empty, p may stay out.
pub IsValidBut-dead :
    (p : ℕ) (o : ℕ → Timer) (ts : List ℕ)
    → is_set (o p).cb ≡ false
    → IsValidBut p o ts
    → IsValid o ts
IsValidBut-dead p o ts dead v = record {
  sorted = v.sorted;
  live = λ q e. elim (Bool-cases (p == q)) [
    | inl h ↦ absurd (cc (dead, e, (==_iff p q).0 h))
    | inr h ↦ ground (arith, h, v.live q e)
  ];
  no_null = v.no_null;
  bounded = v.bounded;
}

-- An address that is not in use, as `new` returns it.
pub fresh-IsValidBut :
    (p : ℕ) (o : ℕ → Timer) (ts : List ℕ) → elem p ts ≡ false → IsValid o ts → IsValidBut p o ts
fresh-IsValidBut p o ts absent v = record {
  sorted = v.sorted;
  live = λ q e. ground (arith, v.live q e);
  no_null = v.no_null;
  bounded = v.bounded;
  absent = absent;
}
