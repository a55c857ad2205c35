-- ===== src/Timer/History.antt =====
-- Any sequence of calls of the timer manager, by any threads: the write lock makes each call one
-- step. A call of cancel, refresh or reset is on any timer, in the set or not.
use c.Prelude.{ℕ, ◌≡◌, refl, ◌≢◌, Bool, false, Option}
use c.SortedSet.Order.{elem}
use c.Timer.{
  Timer, TimerManager, Callback, is_set, init, add_timer, cancel, refresh, reset, get_next_timer,
  list_expired_cb, done, undefined,
}
use c.Timer.Preserve.{Valid, add_timer_lem, cancel_lem, refresh_lem, reset_lem}
use c.Timer.Expire.{list_expired_cb-Expired}

-- `new` returns an address that is not null and not that of a timer in the set.
abbrev pub IsFresh : ℕ → TimerManager → Type 0
IsFresh p m = (p ≢ 0) × (elem p m.timers ≡ false)

pub data Step (m : TimerManager) : TimerManager → Type 0 where
  adds :
      (now p ms : ℕ) (cb : Option Callback) (recurring : Bool)
      → IsFresh p m
      → Step m (add_timer now p ms cb recurring m).0
  cancels : (p : ℕ) (m' : TimerManager) (b : Bool) → cancel p m ≡ done m' b → Step m m'
  refreshes : (now p : ℕ) → Step m (refresh now p m).0
  resets : (now p ms : ℕ) (from_now : Bool) → Step m (reset now p ms from_now m).0
  looks : (now : ℕ) → Step m (get_next_timer now m).0
  lists : (now q : ℕ) → IsFresh q m → Step m (list_expired_cb now q m).0

pub data Reach (m : TimerManager) : TimerManager → Type 0 where
  here : Reach m m
  next : {t u : TimerManager} → Reach m t → Step t u → Reach m u

same_state :
    (p : ℕ) (m m' m'' : TimerManager) {b b' : Bool}
    → cancel p m ≡ done m' b
    → cancel p m ≡ done m'' b'
    → m'' ≡ m'
same_state p m m' m'' e f = cc

Step-Valid : {m m' : TimerManager} → Step m m' → Valid m → Valid m'
Step-Valid {m} (adds now p ms cb recurring f) v =
    (add_timer_lem now p ms 0 cb recurring m f.0 f.1 v).0
Step-Valid {m} (cancels p m' b e) v =
    let (m'', e', v', _, _) = cancel_lem p 0 m v in rw (same_state p m m'' m' e' e) v'
Step-Valid {m} (refreshes now p) v = (refresh_lem now p 0 m v).0
Step-Valid {m} (resets now p ms from_now) v = (reset_lem now p ms 0 from_now m v).0
Step-Valid {m} (looks now) v = unfold get_next_timer in v
Step-Valid {m} (lists now q f) v = (list_expired_cb-Expired now q m v f.0 f.1).valid

pub init-Valid :
    (o : ℕ → Timer) (now : ℕ) → ((p : ℕ) → is_set (o p).cb ≡ false) → Valid (init o now)
unfolding init
init-Valid o now h = record {
  sorted = tt;
  live = λ p e. absurd (cc (h p));
  no_null = refl;
  bounded = λ p e. absurd (cc);
}

pub Reach-Valid : {m m' : TimerManager} → Valid m → Reach m m' → Valid m'
Reach-Valid v here = v
Reach-Valid v (next r s) = Step-Valid s (Reach-Valid v r)

cancel-ne-undefined : (p : ℕ) (m : TimerManager) → Valid m → cancel p m ≢ undefined
cancel-ne-undefined p m v e = let (m', e', _, _, _) = cancel_lem p 0 m v in cc

-- From a new manager, over memory that holds no timer with a callback, no sequence of calls leads to
-- a state in which cancel() of any timer would erase end().
pub Reach-cancel :
    (o : ℕ → Timer) (now p : ℕ) (m : TimerManager)
    → ((q : ℕ) → is_set (o q).cb ≡ false)
    → Reach (init o now) m
    → cancel p m ≢ undefined
Reach-cancel o now p m empty r = cancel-ne-undefined p m (Reach-Valid (init-Valid o now empty) r)
