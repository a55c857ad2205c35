-- ===== src/Timer/Tests.antt =====
-- Runs of the timer manager, and its theorems at concrete inputs.
use c.Prelude.{
  ℕ, ◌≡◌, refl, ◌≢◌, ◌↔◌, Bool, ◌+◌, true, false, not, ◌&&◌, ◌||◌, [], ◌∷◌, none, some, arith, ◌==◌,
  if◌then◌else◌,
}
use c.SortedSet.{insert, lower_bound}
use c.SortedSet.Order.{elem}
use c.Timer.{
  Timer, TimerManager, plain, on_timer, nothing, invoke, less, is_set, init, add_timer, cancel,
  get_next_timer, list_expired_cb, done, undefined, u64,
}
use c.Timer.Preserve.{Valid, add_timer_lem, cancel_lem}
use c.Timer.Expire.{Expired, IsPutBack, due, list_expired_cb_lem}
use c.Timer.Next.{get_next_timer-zero}
use c.Timer.History.{Reach, here, next, adds, Reach-cancel, init-Valid, Reach-Valid}

abbrev blank : ℕ → Timer
blank p = record { recurring = false; ms = 0; next = 0; cb = none }

blank_dead : (p : ℕ) → is_set (blank p).cb ≡ false
unfolding is_set
blank_dead p = refl

abbrev start : TimerManager
start = init blank 5000000

-- A recurring timer at 0x20 every 100 ms, then a single one at 0x10 after 40 ms.
abbrev one : TimerManager
one = (add_timer 5000000 0x20 100 (some (plain 7)) true start).0

abbrev two : TimerManager
two = (add_timer 5000000 0x10 40 (some (plain 8)) false one).0

-- One timer, and getNextTimer has been called since.
abbrev quiet : TimerManager
quiet = record {
  object = λ p.
      if p == 0x10
      then record { recurring = false; ms = 40; next = 5000040; cb = some (plain 8) }
      else blank p;
  timers = 0x10 ∷ [];
  tickled = false;
  previouse_time = 5000000;
}

two_reached : Reach start two
unfolding add_timer init insert less
two_reached =
    next (next here (adds 5000000 0x20 100 _ true (omega arith, refl)))
      (adds 5000000 0x10 40 _ false (omega arith, refl))

two-Valid : Valid two
two-Valid = Reach-Valid (init-Valid blank 5000000 blank_dead) two_reached

two_order : two.timers ≡ 0x10 ∷ 0x20 ∷ []
unfolding add_timer init insert less
two_order = refl

expired_run : (list_expired_cb 5000100 0x99 two).1 ≡ some (plain 8) ∷ some (plain 7) ∷ []
unfolding list_expired_cb add_timer init insert less lower_bound
expired_run = refl

expired_left : (list_expired_cb 5000100 0x99 two).0.timers ≡ 0x20 ∷ []
unfolding list_expired_cb add_timer init insert less lower_bound
expired_left = refl

condition_gone : invoke (λ w. w == 1) (on_timer 2 (some 7)) ≡ nothing
unfolding invoke
condition_gone = refl

add_timer_lem_example :
    Valid (add_timer 5000000 0x30 5 none false two).0
    × (elem 0x20 (add_timer 5000000 0x30 5 none false two).0.timers
        ≡ (0x30 == 0x20 || elem 0x20 two.timers))
    × (((add_timer 5000000 0x30 5 none false two).0.object 0x30).next ≡ u64 (5000000 + 5))
unfolding add_timer init insert less
add_timer_lem_example =
    add_timer_lem 5000000 0x30 5 0x20 none false two (omega arith) refl two-Valid

cancel_lem_example :
    (m' : TimerManager) × (cancel 0x20 two ≡ done m' (is_set (two.object 0x20).cb))
    × Valid m'
    × (elem 0x20 m'.timers
        ≡ (elem 0x20 two.timers && not (is_set (two.object 0x20).cb && (0x20 == 0x20))))
    × (is_set (m'.object 0x20).cb ≡ false)
cancel_lem_example = cancel_lem 0x20 0x20 two two-Valid

list_expired_cb_lem_example :
    (rollover : Bool) × ((rollover ≡ true) ↔ IsPutBack 5000100 two)
    × Expired 5000100 rollover two (list_expired_cb 5000100 0x99 two)
unfolding add_timer init insert less
list_expired_cb_lem_example =
    list_expired_cb_lem 5000100 0x99 two two-Valid (omega arith) refl (omega arith)

get_next_timer-zero_example : ((get_next_timer 5000040 two).1 ≡ 0) ↔ (due 5000040 false two ≢ [])
get_next_timer-zero_example = get_next_timer-zero 5000040 two two-Valid

Reach-cancel_example : cancel 0x20 two ≢ undefined
Reach-cancel_example = Reach-cancel blank 5000000 0x20 two blank_dead two_reached
