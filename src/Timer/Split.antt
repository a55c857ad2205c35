-- ===== src/Timer/Split.antt =====
-- listExpiredCb: the two iterators delimit exactly the timers that are due.
use c.Prelude.{
  ℕ, ◌≡◌, refl, ◌∙◌, ◌≢◌, ap, true, false, inl, inr, List, [], ◌∷◌, ◌++◌, ◌==◌, arith, ==_iff,
  Bool-cases, ◌<◌, ◌≤◌, none, All,
}
use mathlib.Core.List.{append_assoc}
use c.SortedSet.{lower_bound}
use c.SortedSet.Order.{elem, Sorted, lower_bound-append, elem-append}
use c.SortedSet.Bounds.{All-imp, All-append, Sorted-drop, lower_bound-before, lower_bound-after}
use c.Timer.{Timer, TimerManager, less, store, skip_due, split_expired}
use c.Timer.Order.{less-IsStrictOrder, Sorted-store, less-next}
use c.Timer.Invariant.{IsValid, elem-ne}

skip_due-append :
    (now : ℕ) (o : ℕ → Timer) (xs : List ℕ) → (skip_due now o xs).0 ++ (skip_due now o xs).1 ≡ xs
unfolding skip_due
skip_due-append now o [] = refl
skip_due-append now o (p ∷ ps) = ground (arith, skip_due-append now o ps)

skip_due-passed :
    (now : ℕ) (o : ℕ → Timer) (xs : List ℕ) → All (λ p. (o p).next ≤ now) (skip_due now o xs).0
unfolding skip_due
skip_due-passed now o [] = tt
skip_due-passed now o (p ∷ ps) = elim (Bool-cases ((o p).next == now)) [
  | inl e ↦ rw e (omega (arith, (==_iff (o p).next now).0 e), skip_due-passed now o ps)
  | inr e ↦ rw e tt
]

skip_due-left :
    (now : ℕ) (o : ℕ → Timer) (xs : List ℕ)
    → Sorted (less o) xs
    → elem 0 xs ≡ false
    → All (λ p. now ≤ (o p).next) xs
    → All (λ p. now < (o p).next) (skip_due now o xs).1
unfolding skip_due
skip_due-left now o [] s z h = tt
skip_due-left now o (p ∷ ps) (below, s) z (hp, h) = elim (Bool-cases ((o p).next == now)) [
  | inl e ↦ rw e (skip_due-left now o ps s (ground arith) h)
  | inr e ↦ rw e (
    later e,
    All-imp (λ a. less o p a ≡ true) (λ a. now < (o a).next) ps (λ a ea b. after e a ea b) below,
  )
]
  where
    later : ((o p).next == now) ≡ false → now < (o p).next
    later e = ground arith

    after :
        ((o p).next == now) ≡ false
        → (a : ℕ) → elem a ps ≡ true
        → less o p a ≡ true
        → now < (o a).next
    after e a ea b =
        omega (arith, later e, less-next o p a (λ q. ground (arith, q)) b (λ q. ground (arith, q)))

-- now_timer, the key that listExpiredCb searches for.
abbrev now_timer : ℕ → Timer
now_timer now = record { recurring = false; ms = 0; next = now; cb = none }

less-now_timer :
    (now q : ℕ) (o : ℕ → Timer) (p : ℕ)
    → p ≢ 0
    → (q == p) ≡ false
    → less (store o q (now_timer now)) p q ≡ true
    → (o p).next ≤ now
unfolding less
less-now_timer now q o p pz ne = ground (arith, ==_iff q q)

not-less-now_timer :
    (now q : ℕ) (o : ℕ → Timer) (p : ℕ)
    → q ≢ 0
    → (q == p) ≡ false
    → less (store o q (now_timer now)) p q ≡ false
    → now ≤ (o p).next
unfolding less
not-less-now_timer now q o p qz ne = ground (arith, ==_iff q q)

-- What the two iterators of listExpiredCb delimit, with no rollover.
pub record IsSplit (now : ℕ) (m : TimerManager) (xs ys : List ℕ) : Type 0 where
  pub whole : xs ++ ys ≡ m.timers
  pub due : All (λ p. (m.object p).next ≤ now) xs
  pub later : All (λ p. now < (m.object p).next) ys

module _ (now q : ℕ) (m : TimerManager) (v : IsValid m.object m.timers) (qz : q ≢ 0)
    (fresh : elem q m.timers ≡ false) where
  o' : ℕ → Timer
  o' = store m.object q (now_timer now)

  before : List ℕ
  before = (lower_bound (less o') q m.timers).0

  after : List ℕ
  after = (lower_bound (less o') q m.timers).1

  sides : before ++ after ≡ m.timers
  unfolding before after
  sides = lower_bound-append (less o') q m.timers

  in_set : (p : ℕ) → elem p (before ++ after) ≡ true → (p ≢ 0) × ((q == p) ≡ false)
  in_set p e =
      let e' : elem p m.timers ≡ true = rw (← sides) e in
      ((λ z. cc (v.no_null, e', z)), elem-ne q p m.timers fresh e')

  before-due : All (λ p. (m.object p).next ≤ now) before
  unfolding before o'
  before-due =
      All-imp (λ p. less o' p q ≡ true) (λ p. (m.object p).next ≤ now) before
        (λ p e b.
          let (pz, ne) = in_set p (ground (arith, e, elem-append p before after)) in
          less-now_timer now q m.object p pz ne b)
        (lower_bound-before (less o') q m.timers)

  after-later : All (λ p. now ≤ (m.object p).next) after
  unfolding after o'
  after-later =
      All-imp (λ p. less o' p q ≡ false) (λ p. now ≤ (m.object p).next) after
        (λ p e b.
          let (pz, ne) = in_set p (ground (arith, e, elem-append p before after)) in
          not-less-now_timer now q m.object p qz ne b)
        (lower_bound-after (less o') q (less-IsStrictOrder o') m.timers
          (Sorted-store m.object q (now_timer now) m.timers fresh v.sorted))

  left-later : All (λ p. now < (m.object p).next) (skip_due now m.object after).1
  left-later =
      skip_due-left now m.object after
        (Sorted-drop (less m.object) before after (rw sides v.sorted))
        (ground (arith, elem-append 0 before after, ap (elem 0) sides, v.no_null)) after-later

  -- Without a rollover the range that is taken holds the timers due at `now`, whatever the address
  -- of now_timer.
  pub split_expired-IsSplit :
      IsSplit now m (split_expired now q false m).0 (split_expired now q false m).1
  unfolding split_expired before after o'
  split_expired-IsSplit = record {
    whole =
        append_assoc before (skip_due now m.object after).0 (skip_due now m.object after).1
        ∙ ap (◌++◌ before) (skip_due-append now m.object after)
        ∙ sides;
    due =
        All-append (λ p. (m.object p).next ≤ now) before (skip_due now m.object after).0 before-due
          (skip_due-passed now m.object after);
    later = left-later;
  }
