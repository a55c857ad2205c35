-- ===== src/Timer.antt =====
-- timer.h, timer.cc: timers and their manager. Timers are objects at addresses, 0 being the null
-- pointer; m_timers is the ordered set of the addresses. Every operation that reads the clock takes
-- GetCurrentMS() as the argument `now`, and one that allocates takes the new address. uint64_t
-- wraps at 2 ^ 64. The locks make each operation one step.
pub mod Order
pub mod Invariant
pub mod Preserve
pub mod Split
pub mod Fire
pub mod Expire
pub mod Next
pub mod History
mod Tests
use c.Prelude.{
  ℕ, ◌+◌, ◌-◌, ◌%◌, ◌^◌, Bool, true, false, not, ◌&&◌, List, [], ◌∷◌, ◌++◌, Option, none, some, ltb,
  leb, ◌==◌, if◌then◌else◌,
}
use c.SortedSet.{insert, lower_bound, found, erase}

-- A std::function is named by a number; addConditionTimer binds one (or an empty one) to a
-- weak_ptr, named by a number too.
pub data Callback : Type 0 where
  plain : ℕ → Callback
  on_timer : ℕ → Option ℕ → Callback

-- The std::function m_cb; an empty one is `none`.
pub record Timer : Type 0 where
  pub recurring : Bool
  pub ms : ℕ
  pub next : ℕ
  pub cb : Option Callback

pub record TimerManager : Type 0 where
  -- The objects in memory, by address.
  pub object : ℕ → Timer
  pub timers : List ℕ
  pub tickled : Bool
  pub previouse_time : ℕ

abbrev pub u64 : ℕ → ℕ
u64 n = n % 2 ^ 64

abbrev pub store : (ℕ → Timer) → ℕ → Timer → ℕ → Timer
store m p t q = if p == q then t else m q

-- Timer::Comparator on two shared pointers.
unfoldable pub less : (ℕ → Timer) → ℕ → ℕ → Bool
less m lhs rhs =
    if lhs == 0 && rhs == 0
    then false
    else if lhs == 0
    then true
    else if rhs == 0
    then false
    else if ltb (m lhs).next (m rhs).next
    then true
    else if ltb (m rhs).next (m lhs).next
    then false
    else ltb lhs rhs

unfoldable pub is_set : Option Callback → Bool
is_set none = false
is_set _ = true

-- TimerManager::TimerManager()
pub init : (ℕ → Timer) → ℕ → TimerManager
init m now = record { object = m; timers = []; tickled = false; previouse_time = now }

-- it == m_timers.begin()
at_begin : ℕ → List ℕ → Bool
at_begin p [] = false
at_begin p (q ∷ qs) = q == p

-- TimerManager::addTimer(val, lock); the result tells whether onTimerInsertedAtFront() is called.
pub add : ℕ → TimerManager → TimerManager × Bool
unfolding at_begin
add val m =
    let ts = insert (less m.object) val m.timers in
    let at_front = at_begin val ts && not m.tickled in
    (record m { timers = ts; tickled = if at_front then true else m.tickled }, at_front)

-- TimerManager::addTimer(ms, cb, recurring), the new timer at the address p.
pub add_timer : ℕ → ℕ → ℕ → Option Callback → Bool → TimerManager → TimerManager × Bool
unfolding add
add_timer now p ms cb recurring m =
    let t : Timer = record { recurring = recurring; ms = ms; next = u64 (now + ms); cb = cb } in
    add p (record m { object = store m.object p t })

-- TimerManager::addConditionTimer
pub add_condition_timer : ℕ → ℕ → ℕ → Option ℕ → ℕ → Bool → TimerManager → TimerManager × Bool
unfolding add_timer
add_condition_timer now p ms cb weak_cond recurring m =
    add_timer now p ms (some (on_timer weak_cond cb)) recurring m

-- What a call of a callback does. `alive` tells whether a weak_ptr can still be locked; a call of an
-- empty std::function throws.
pub data Called : Type 0 where
  calls : ℕ → Called
  nothing bad_function_call : Called

call : Option ℕ → Called
call none = bad_function_call
call (some c) = calls c

-- OnTimer(weak_cond, cb), and the call of a plain callback.
pub invoke : (ℕ → Bool) → Callback → Called
unfolding call
invoke alive (plain c) = calls c
invoke alive (on_timer w cb) = if alive w then call cb else nothing

-- What a call does that would erase end(), which is undefined behaviour.
pub data Outcome : Type 0 where
  done : TimerManager → Bool → Outcome
  undefined : Outcome

abbrev set_cb : Timer → Option Callback → Timer
set_cb t c = record t { cb = c }

abbrev set_next : Timer → ℕ → Timer
set_next t n = record t { next = n }

-- Timer::cancel() of the timer at p.
pub cancel : ℕ → TimerManager → Outcome
unfolding is_set
cancel p m =
    if is_set (m.object p).cb
    then (let o = store m.object p (set_cb (m.object p) none) in
        if found (less o) p m.timers
        then done (record m { object = o; timers = erase (less o) p m.timers }) true
        else undefined)
    else done m false

-- Timer::refresh()
pub refresh : ℕ → ℕ → TimerManager → TimerManager × Bool
unfolding is_set
refresh now p m =
    if not (is_set (m.object p).cb)
    then (m, false)
    else if not (found (less m.object) p m.timers)
    then (m, false)
    else (let o = store m.object p (set_next (m.object p) (u64 (now + (m.object p).ms))) in
        (
          record m { object = o; timers = insert (less o) p (erase (less m.object) p m.timers) },
          true,
        ))

-- Timer::reset(ms, from_now); the last part tells whether onTimerInsertedAtFront() is called.
pub reset : ℕ → ℕ → ℕ → Bool → TimerManager → TimerManager × Bool × Bool
unfolding is_set add
reset now p ms from_now m =
    let t = m.object p in
    if ms == t.ms && not from_now
    then (m, true, false)
    else if not (is_set t.cb)
    then (m, false, false)
    else if not (found (less m.object) p m.timers)
    then (m, false, false)
    else (let start = if from_now then now else u64 (t.next + 2 ^ 64 - t.ms) in
        let t' : Timer = record t { ms = ms; next = u64 (start + ms) } in
        let (m', front) =
          add p (record m {
            object = store m.object p t';
            timers = erase (less m.object) p m.timers;
          }) in
        (m', true, front))

-- TimerManager::getNextTimer(); ~0ull when there is no timer.
pub next_timer : ℕ → (ℕ → Timer) → List ℕ → ℕ
next_timer now o [] = 2 ^ 64 - 1
next_timer now o (p ∷ ps) = if leb (o p).next now then 0 else (o p).next - now

pub get_next_timer : ℕ → TimerManager → TimerManager × ℕ
unfolding next_timer
get_next_timer now m = (record m { tickled = false }, next_timer now m.object m.timers)

-- TimerManager::detectClockRollover(now_ms)
pub detect_clock_rollover : ℕ → TimerManager → TimerManager × Bool
detect_clock_rollover now m = (
  record m { previouse_time = now },
  ltb now m.previouse_time && ltb now (u64 (m.previouse_time + 2 ^ 64 - 3600000)),
)

-- while(it != end() && (*it)->m_next == now_ms) ++it: what is passed over, and what is left.
pub skip_due : ℕ → (ℕ → Timer) → List ℕ → List ℕ × List ℕ
skip_due now o [] = ([], [])
skip_due now o (p ∷ ps) =
    let (passed, left) = skip_due now o ps in
    if (o p).next == now then (p ∷ passed, left) else ([], p ∷ ps)

-- [begin(), it) and [it, end()) in listExpiredCb, with now_timer allocated at the address q.
pub split_expired : ℕ → ℕ → Bool → TimerManager → List ℕ × List ℕ
unfolding skip_due
split_expired now q rollover m =
    if rollover
    then (m.timers, [])
    else (let o = store m.object q (record { recurring = false; ms = 0; next = now; cb = none }) in
        let (before, after) = lower_bound (less o) q m.timers in
        let (passed, left) = skip_due now m.object after in (before ++ passed, left))

-- The two branches of the loop over `expired`, and one round of it.
restart : ℕ → ℕ → TimerManager → TimerManager
restart now p m =
    let o = store m.object p (set_next (m.object p) (u64 (now + (m.object p).ms))) in
    record m { object = o; timers = insert (less o) p m.timers }

finish : ℕ → TimerManager → TimerManager
finish p m = record m { object = store m.object p (set_cb (m.object p) none) }

pub fire : ℕ → ℕ → TimerManager → TimerManager
fire now p m = if (m.object p).recurring then restart now p m else finish p m

pub fire_all : ℕ → List ℕ → TimerManager → TimerManager × List (Option Callback)
unfolding fire restart finish
fire_all now [] m = (m, [])
fire_all now (p ∷ ps) m =
    let (m', cbs) = fire_all now ps (fire now p m) in (m', (m.object p).cb ∷ cbs)

-- The head of the set, where the code looks at *m_timers.begin().
pub begin_later : ℕ → (ℕ → Timer) → List ℕ → Bool
begin_later now o [] = false
begin_later now o (p ∷ ps) = ltb now (o p).next

pub is_empty : List ℕ → Bool
is_empty [] = true
is_empty (p ∷ ps) = false

-- TimerManager::listExpiredCb(cbs): the new state and what is appended to cbs.
pub list_expired_cb : ℕ → ℕ → TimerManager → TimerManager × List (Option Callback)
unfolding is_empty begin_later detect_clock_rollover split_expired fire_all
list_expired_cb now q m =
    if is_empty m.timers
    then (m, [])
    else (let (m', rollover) = detect_clock_rollover now m in
        if not rollover && begin_later now m'.object m'.timers
        then (m', [])
        else (let (expired, left) = split_expired now q rollover m' in
            fire_all now expired (record m' { timers = left })))

-- TimerManager::hasTimer()
pub has_timer : TimerManager → Bool
unfolding is_empty
has_timer m = not (is_empty m.timers)
