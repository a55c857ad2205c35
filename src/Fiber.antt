-- ===== src/Fiber.antt =====
-- fiber.h, fiber.cc: the state of a fiber, and the assertions on it. The stacks and the switch of the
-- context are the system's: what a fiber does between swapIn and the return of it is an argument.
pub mod History
mod Tests
use c.Prelude.{ℕ, Bool, true, false, not, ◌&&◌, ◌||◌, Option, none, some, if◌then◌else◌}
pub use c.Prelude.Outcome.{Outcome, done, assert_failed, undefined, ◌>>=◌}

-- Fiber::State
pub data State : Type 0 where
  fresh hold exec term ready except : State

pub record Fiber : Type 0 where
  pub state : State
  pub cb : Option ℕ
  -- Whether the fiber has a stack of its own, which the main fiber of a thread has not.
  pub stack : Bool

abbrev pub is_exec : State → Bool
is_exec exec = true
is_exec s = false

abbrev pub is_ready : State → Bool
is_ready ready = true
is_ready s = false

-- m_state == TERM || m_state == EXCEPT
abbrev pub is_over : State → Bool
is_over term = true
is_over except = true
is_over s = false

abbrev is_fresh : State → Bool
is_fresh fresh = true
is_fresh s = false

abbrev is_some : Option ℕ → Bool
is_some none = false
is_some (some f) = true

abbrev pub set_state : State → Fiber → Fiber
set_state s f = record f { state = s }

-- Fiber::Fiber(), the main fiber of a thread, and Fiber::Fiber(cb, stacksize, use_caller)
pub main_fiber : Fiber
main_fiber = record { state = exec; cb = none; stack = false }

unfoldable pub new_fiber : Option ℕ → Fiber
new_fiber cb = record { state = fresh; cb = cb; stack = true }

-- Fiber::~Fiber()
unfoldable pub destroy : Fiber → Outcome (Unit {0})
destroy f =
    if f.stack
    then (if is_over f.state || is_fresh f.state then done tt else assert_failed)
    else if not (is_some f.cb) && is_exec f.state
    then done tt
    else assert_failed

-- Fiber::reset(cb)
unfoldable pub reset : Option ℕ → Fiber → Outcome Fiber
reset cb f =
    if f.stack && (is_over f.state || is_fresh f.state)
    then done (record f { cb = cb; state = fresh })
    else assert_failed

-- Fiber::swapIn(), up to the switch, and Fiber::call(), which does not look at the state.
unfoldable pub swap_in : Fiber → Outcome Fiber
swap_in f = if is_exec f.state then assert_failed else done (set_state exec f)

pub call : Fiber → Fiber
call f = set_state exec f

-- Fiber::YieldToReady() and Fiber::YieldToHold(), up to the switch.
unfoldable pub yield_to_ready : Fiber → Outcome Fiber
yield_to_ready f = if is_exec f.state then done (set_state ready f) else assert_failed

unfoldable pub yield_to_hold : Fiber → Outcome Fiber
yield_to_hold f = if is_exec f.state then done (set_state hold f) else assert_failed

-- How m_cb() ends: it returns, or throws; an empty std::function throws std::bad_function_call.
pub data Ended : Type 0 where
  returned thrown : Ended

-- Fiber::MainFunc() and Fiber::CallerMainFunc(), up to the last switch. The callback is kept after an
-- exception.
unfoldable pub main_func : Ended → Fiber → Fiber
main_func returned f =
    if is_some f.cb then record f { cb = none; state = term } else set_state except f
main_func thrown f = set_state except f

-- What a fiber does when it runs, until it is switched out: swapOut() alone, as idle() does, leaves the
-- state.
pub data Switch : Type 0 where
  yields_ready yields_hold swaps_out : Switch
  ends : Ended → Switch

unfoldable pub switch_out : Switch → Fiber → Outcome Fiber
switch_out yields_ready f = yield_to_ready f
switch_out yields_hold f = yield_to_hold f
switch_out swaps_out f = done f
switch_out (ends e) f = done (main_func e f)

-- swapIn() and what the fiber does until it comes back.
unfoldable pub resume : Switch → Fiber → Outcome Fiber
resume sw f = swap_in f >>= switch_out sw

-- What the loop of Scheduler::run makes of the state of a fiber that has come back: READY is left, so
-- that the fiber is scheduled again; else HOLD, if the fiber is not over.
abbrev pub settle : Fiber → Fiber
settle f = if is_ready f.state || is_over f.state then f else set_state hold f
