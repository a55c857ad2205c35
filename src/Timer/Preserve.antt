-- ===== src/Timer/Preserve.antt =====
-- addTimer, cancel, refresh and reset keep the manager valid, and what each does to the set.
use c.Prelude.{
  ℕ, ◌≡◌, refl, ◌∙◌, ◌≢◌, Bool, true, false, not, ◌||◌, ◌&&◌, inl, inr, List, ◌==◌, if◌then◌else◌,
  arith, ==_iff, Bool-cases, ◌<◌, ◌+◌, ◌^◌, Option, none, ◌-◌,
}
use mathlib.Core.Path.{fun_ext}
use c.SortedSet.{insert, erase, found}
use c.SortedSet.Order.{elem, elem-insert, elem-erase, found-elem}
use c.Timer.{
  Timer, TimerManager, Callback, less, store, is_set, add, add_timer, cancel, refresh, reset, done,
  set_cb, set_next, u64,
}
use c.Timer.Order.{less-IsStrictOrder}
use c.Timer.Invariant.{
  IsValid, IsValidBut, insert-IsValid, erase-IsValidBut, store-IsValidBut, IsValidBut-dead,
  fresh-IsValidBut,
}

-- A manager is valid.
abbrev pub Valid : TimerManager → Type 0
Valid m = IsValid m.object m.timers

pub add-timers : (p : ℕ) (m : TimerManager) → (add p m).0.timers ≡ insert (less m.object) p m.timers
unfolding add
add-timers p m = refl

pub add-Valid :
    (p : ℕ) (m : TimerManager)
    → p ≢ 0
    → (m.object p).next < 2 ^ 64
    → IsValidBut p m.object m.timers
    → Valid (add p m).0
unfolding add
add-Valid p m nz b v = insert-IsValid p m.object m.timers nz b v

elem-add : (p q : ℕ) (m : TimerManager) → elem q (add p m).0.timers ≡ (p == q || elem q m.timers)
unfolding add
elem-add p q m = elem-insert (less m.object) (less-IsStrictOrder m.object) q p m.timers

-- addTimer, with the new timer at an address p that is not null and not in the set, keeps a valid
-- manager valid, puts p into the set and nothing else, and p fires at now + ms, modulo 2 ^ 64.
pub add_timer_lem :
    (now p ms q : ℕ) (cb : Option Callback) (recurring : Bool) (m : TimerManager)
    → p ≢ 0
    → elem p m.timers ≡ false
    → Valid m
    → Valid (add_timer now p ms cb recurring m).0
      × (elem q (add_timer now p ms cb recurring m).0.timers ≡ (p == q || elem q m.timers))
      × (((add_timer now p ms cb recurring m).0.object p).next ≡ u64 (now + ms))
unfolding add_timer
add_timer_lem now p ms q cb recurring m nz absent v = (
  add-Valid p m' nz (rw ((==_iff p p).1 refl) (omega arith))
      (store-IsValidBut p t m.object m.timers (fresh-IsValidBut p m.object m.timers absent v)),
  elem-add p q m',
  unfold add in rw ((==_iff p p).1 refl) refl,
)
  where
    t : Timer
    t = record { recurring = recurring; ms = ms; next = u64 (now + ms); cb = cb }

    m' : TimerManager
    m' = record m { object = store m.object p t }

-- The callback plays no part in the order.
less-set_cb :
    (o : ℕ → Timer) (p : ℕ) (c : Option Callback) → less (store o p (set_cb (o p) c)) ≡ less o
unfolding less
less-set_cb o p c = fun_ext (λ a. fun_ext (λ b. same a b))
  where
    same : (a b : ℕ) → less (store o p (set_cb (o p) c)) a b ≡ less o a b
    same a b = ground (arith, ==_iff p a, ==_iff p b)

pub drop_cb-IsValid :
    (p : ℕ) (o : ℕ → Timer) (ts : List ℕ)
    → IsValid o ts
    → IsValid (store o p (set_cb (o p) none)) ts
unfolding is_set
drop_cb-IsValid p o ts v = record {
  sorted = rw (less-set_cb o p none) v.sorted;
  live = λ q e. v.live q (ground arith);
  no_null = v.no_null;
  bounded = λ q e. ground (arith, v.bounded q e, ==_iff p q);
}

found-live : (p : ℕ) (o : ℕ → Timer) (ts : List ℕ) → IsValid o ts → found (less o) p ts ≡ elem p ts
found-live p o ts v = found-elem (less o) (less-IsStrictOrder o) p ts v.sorted

-- On a valid manager cancel() never erases end(), keeps the manager valid, returns true exactly
-- when the timer had a callback, and takes that timer, and no other, out of the set.
pub cancel_lem :
    (p q : ℕ) (m : TimerManager)
    → Valid m
    → (m' : TimerManager) × (cancel p m ≡ done m' (is_set (m.object p).cb))
      × Valid m'
      × (elem q m'.timers ≡ (elem q m.timers && not (is_set (m.object p).cb && (p == q))))
      × (is_set (m'.object p).cb ≡ false)
unfolding cancel
cancel_lem p q m v = elim (Bool-cases (is_set (m.object p).cb)) [
  | inr dead ↦ rw dead (m, refl, v, ground arith, dead)
  | inl has ↦ rw has (gone, rw (there has), valid has, removed has, rw ((==_iff p p).1 refl) refl)
]
  where
    o : ℕ → Timer
    o = store m.object p (set_cb (m.object p) none)

    gone : TimerManager
    gone = record m { object = o; timers = erase (less o) p m.timers }

    v' : IsValid o m.timers
    v' = drop_cb-IsValid p m.object m.timers v

    there : is_set (m.object p).cb ≡ true → found (less o) p m.timers ≡ true
    there has = found-live p o m.timers v' ∙ v.live p has

    valid : is_set (m.object p).cb ≡ true → Valid gone
    valid has =
        IsValidBut-dead p o gone.timers (rw ((==_iff p p).1 refl) refl)
          (erase-IsValidBut p o m.timers (v.live p has) v')

    removed : is_set (m.object p).cb ≡ true → elem q gone.timers ≡ (elem q m.timers && not (p == q))
    removed has = elem-erase (less o) (less-IsStrictOrder o) q p m.timers v'.sorted (v.live p has)

-- Erasing a timer, changing it, and inserting it again leaves the same timers in the set.
reinsert-elem :
    (p q : ℕ) (o o' : ℕ → Timer) (ts : List ℕ)
    → IsValid o ts
    → elem p ts ≡ true
    → elem q (insert (less o') p (erase (less o) p ts)) ≡ elem q ts
reinsert-elem p q o o' ts v e = ground (
  arith,
  elem-insert (less o') (less-IsStrictOrder o') q p (erase (less o) p ts),
  elem-erase (less o) (less-IsStrictOrder o) q p ts v.sorted e,
  ==_iff p q,
)

reinsert-IsValid :
    (p : ℕ) (t : Timer) (o : ℕ → Timer) (ts : List ℕ)
    → IsValid o ts
    → elem p ts ≡ true
    → t.next < 2 ^ 64
    → IsValid (store o p t) (insert (less (store o p t)) p (erase (less o) p ts))
reinsert-IsValid p t o ts v e b =
    insert-IsValid p (store o p t) (erase (less o) p ts) (λ z. cc (v.no_null, e, z))
      (rw ((==_iff p p).1 refl) b)
      (store-IsValidBut p t o (erase (less o) p ts) (erase-IsValidBut p o ts e v))

-- refresh() keeps a valid manager valid and the same timers in it; it succeeds exactly when the
-- timer has a callback, and the timer then fires at now + ms, modulo 2 ^ 64, and is otherwise as
-- it was.
pub refresh_lem :
    (now p q : ℕ) (m : TimerManager)
    → Valid m
    → Valid (refresh now p m).0
      × ((refresh now p m).1 ≡ is_set (m.object p).cb)
      × (elem q (refresh now p m).0.timers ≡ elem q m.timers)
      × ((refresh now p m).0.object p ≡ (
          if is_set (m.object p).cb
          then set_next (m.object p) (u64 (now + (m.object p).ms))
          else m.object p))
unfolding refresh
refresh_lem now p q m v = elim (Bool-cases (is_set (m.object p).cb)) [
  | inr dead ↦ rw dead (v, refl, refl, refl)
  | inl has ↦
      rw (has, found-live p m.object m.timers v, v.live p has)
        (
          reinsert-IsValid p (set_next (m.object p) at) m.object m.timers v (v.live p has)
              (omega arith),
          refl,
          reinsert-elem p q m.object _ m.timers v (v.live p has),
          rw ((==_iff p p).1 refl) refl,
        )
]
  where
    at : ℕ
    at = u64 (now + (m.object p).ms)

-- The timer after reset(ms, from_now): it fires ms after now, or after the time at which its old
-- period began.
abbrev pub restarted : ℕ → ℕ → Bool → Timer → Timer
restarted now ms from_now t = record t {
  ms = ms;
  next = u64 ((if from_now then now else u64 (t.next + 2 ^ 64 - t.ms)) + ms);
}

-- reset(ms, from_now) keeps a valid manager valid and the same timers in it. With the timer's own
-- period and not from now it returns true and leaves the timer alone; otherwise it succeeds
-- exactly when the timer has a callback, and the timer then has the new period and starts it now,
-- or when its old period began.
pub reset_lem :
    (now p ms q : ℕ) (from_now : Bool) (m : TimerManager)
    → Valid m
    → Valid (reset now p ms from_now m).0
      × (elem q (reset now p ms from_now m).0.timers ≡ elem q m.timers)
      × ((reset now p ms from_now m).1
          ≡ (is_set (m.object p).cb || (ms == (m.object p).ms && not from_now)))
      × ((reset now p ms from_now m).0.object p ≡ (
          if is_set (m.object p).cb && not (ms == (m.object p).ms && not from_now)
          then restarted now ms from_now (m.object p)
          else m.object p))
unfolding reset
reset_lem now p ms q from_now m v = elim (Bool-cases (ms == (m.object p).ms && not from_now)) [
  | inl same ↦ rw same (v, refl, ground arith, ground arith)
  | inr other ↦ rw other (elim (Bool-cases (is_set (m.object p).cb)) [
    | inr dead ↦ rw dead (v, refl, refl, refl)
    | inl has ↦
        rw (has, found-live p m.object m.timers v, v.live p has)
          (
            reinsert-IsValid p t m.object m.timers v (v.live p has) (omega arith),
            reinsert-elem p q m.object _ m.timers v (v.live p has),
            refl,
            rw ((==_iff p p).1 refl) refl,
          )
  ])
]
  where
    t : Timer
    t = restarted now ms from_now (m.object p)
