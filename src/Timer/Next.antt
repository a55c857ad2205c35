-- ===== src/Timer/Next.antt =====
-- getNextTimer, the notification of addTimer, and detectClockRollover.
use c.Prelude.{
  ℕ, ◌≡◌, refl, ◌≢◌, ◌↔◌, ap, Bool, true, false, ◌⊎◌, inl, inr, List, [], ◌∷◌, ltb, leb, ◌==◌,
  arith, ==_iff, Bool-cases, ◌<◌, ◌≤◌, ◌+◌, ◌^◌, Option, ◌-◌, All,
}
use c.SortedSet.{insert}
use c.SortedSet.Order.{elem, Sorted, elem-All}
use c.SortedSet.Bounds.{keep, keep-none}
use c.Timer.{
  Timer, TimerManager, Callback, less, store, at_begin, add, add_timer, next_timer, get_next_timer,
  detect_clock_rollover, begin_later,
}
use c.Timer.Order.{less-next}
use c.Timer.Preserve.{Valid}
use c.Timer.Expire.{is_due, due, rolled, begin_later-All, later-not_due}

next_timer-le :
    (now p : ℕ) (o : ℕ → Timer) (ts : List ℕ)
    → Sorted (less o) ts
    → elem 0 ts ≡ false
    → elem p ts ≡ true
    → next_timer now o ts ≤ (o p).next - now
unfolding next_timer
next_timer-le now p o [] s z e = absurd (cc)
next_timer-le now p o (q ∷ qs) (below, s) z e = elim (Bool-cases (q == p)) [
  | inl h ↦ ground (arith, ap (λ (a : ℕ). (o a).next) ((==_iff q p).0 h))
  | inr h ↦
      let k : (o q).next ≤ (o p).next =
        less-next o q p (λ w. ground (arith, w))
          (elem-All (λ a. less o q a ≡ true) p qs below (ground (arith, h, e)))
          (λ w. ground (arith, w)) in
      ground (arith, k)
]

-- On a valid manager getNextTimer never sleeps past a timer: the wait that it returns is at most
-- the time that is left until any timer of the set.
pub get_next_timer-le :
    (now p : ℕ) (m : TimerManager)
    → Valid m
    → elem p m.timers ≡ true
    → (get_next_timer now m).1 ≤ (m.object p).next - now
unfolding get_next_timer
get_next_timer-le now p m v e = next_timer-le now p m.object m.timers v.sorted v.no_null e

next_timer-pos :
    (now : ℕ) (o : ℕ → Timer) (ts : List ℕ)
    → next_timer now o ts ≢ 0
    → (ts ≡ []) ⊎ (begin_later now o ts ≡ true)
unfolding next_timer begin_later
next_timer-pos now o [] h = inl refl
next_timer-pos now o (p ∷ ps) h = inr (ground (arith, h))

next_timer-due :
    (now : ℕ) (o : ℕ → Timer) (ts : List ℕ)
    → next_timer now o ts ≡ 0
    → keep (λ p. leb (o p).next now) ts ≢ []
unfolding next_timer keep
next_timer-due now o [] h e = absurd (omega arith)
next_timer-due now o (p ∷ ps) h e = elim (Bool-cases (leb (o p).next now)) [
  | inl k ↦ cc (rw k at e)
  | inr k ↦ ground (arith, k, h)
]

-- On a valid manager getNextTimer returns 0 exactly when some timer is due, so that listExpiredCb
-- has work to do.
pub get_next_timer-zero :
    (now : ℕ) (m : TimerManager) → Valid m → ((get_next_timer now m).1 ≡ 0) ↔ (due now false m ≢ [])
unfolding get_next_timer
get_next_timer-zero now m v = (next_timer-due now m.object m.timers, back)
  where
    none_due : All (λ p. is_due now false m p ≡ false) m.timers → due now false m ≡ []
    none_due h = keep-none (is_due now false m) m.timers h

    back : due now false m ≢ [] → next_timer now m.object m.timers ≡ 0
    back some_due = elim (Bool-cases (next_timer now m.object m.timers == 0)) [
      | inl e ↦ (==_iff _ 0).0 e
      | inr e ↦ elim (next_timer-pos now m.object m.timers (λ z. ground (arith, z, e))) [
        | inl empty ↦ absurd (some_due (none_due (rw empty tt)))
        | inr b ↦ absurd (
            some_due (
              none_due (
                later-not_due now m m.timers
                  (begin_later-All now m.object m.timers v.sorted v.no_null b))))
      ]
    ]

-- Away from the front, an insertion leaves the first timer, and so the next timeout.
insert-next :
    (now p : ℕ) (o : ℕ → Timer) (t : Timer) (ts : List ℕ)
    → elem p ts ≡ false
    → at_begin p (insert (less (store o p t)) p ts) ≡ false
    → next_timer now (store o p t) (insert (less (store o p t)) p ts) ≡ next_timer now o ts
unfolding at_begin insert next_timer
insert-next now p o t [] absent e = ground (arith, e, ==_iff p p)
insert-next now p o t (q ∷ qs) absent e = elim (Bool-cases (less (store o p t) p q)) [
  | inl h ↦ ground (arith, ==_iff p p, rw h at e)
  | inr h ↦ rw h (elim (Bool-cases (less (store o p t) q p)) [
    | inl k ↦ rw k (rw away refl)
    | inr k ↦ rw k (rw away refl)
  ])
]
  where
    away : (p == q) ≡ false
    away = ground (arith, absent, ==_iff p q, ==_iff q p)

-- No wake-up is missed: when addTimer does not report the front, and no report is pending, the
-- timeout that getNextTimer gives at any time is what it was before.
pub add_timer-quiet :
    (now p ms later : ℕ) (cb : Option Callback) (recurring : Bool) (m : TimerManager)
    → elem p m.timers ≡ false
    → m.tickled ≡ false
    → (add_timer now p ms cb recurring m).1 ≡ false
    → (get_next_timer later (add_timer now p ms cb recurring m).0).1 ≡ (get_next_timer later m).1
unfolding add_timer add get_next_timer
add_timer-quiet now p ms later cb recurring m absent idle quiet =
    insert-next later p m.object _ m.timers absent (ground (arith, rw idle at quiet))

-- The clock counts as put back exactly when it stands more than an hour before the last look at it.
pub detect_clock_rollover_lem :
    (now : ℕ) (m : TimerManager)
    → 3600000 ≤ m.previouse_time
    → m.previouse_time < 2 ^ 64
    → (rolled now m ≡ ltb (now + 3600000) m.previouse_time)
      × ((detect_clock_rollover now m).0.previouse_time ≡ now)
unfolding detect_clock_rollover
detect_clock_rollover_lem now m lo hi = (ground arith, refl)
