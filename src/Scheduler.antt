-- ===== src/Scheduler.antt =====
-- scheduler.h, scheduler.cc: the queue of tasks, and the loop of run by which a thread takes tasks out
-- of it. What a fiber does while it runs is an argument of a round.
pub mod Pick
pub mod Round
mod Tests
use c.Prelude.{
  ltb, ℕ, zero, suc, ◌+◌, ◌-◌, ◌%◌, ◌^◌, Bool, true, false, not, ◌&&◌, ◌||◌, List, [], ◌∷◌, ◌++◌,
  Option, none, some, ◌==◌, if◌then◌else◌,
}
use c.Fiber.{
  Fiber, State, exec, hold, term, is_exec, is_ready, is_over, set_state, new_fiber, reset, settle,
  Switch, resume, Outcome, done, assert_failed, undefined, ◌>>=◌,
}

-- Scheduler::FiberAndThread: a fiber by its address, or a callback, and the thread that is to run it;
-- none for any thread (-1).
pub record FiberAndThread : Type 0 where
  pub fiber : Option ℕ
  pub cb : Option ℕ
  pub thread : Option ℕ

pub record Scheduler : Type 0 where
  pub fibers : List FiberAndThread
  pub active_thread_count : ℕ
  pub idle_thread_count : ℕ
  pub stopping : Bool
  pub auto_stop : Bool
  -- How often tickle() has been called.
  pub tickles : ℕ
  -- The fibers in memory.
  pub object : ℕ → Fiber

abbrev pub is_null : Option ℕ → Bool
is_null none = true
is_null (some x) = false

abbrev pub is_empty : List FiberAndThread → Bool
is_empty [] = true
is_empty (x ∷ xs) = false

abbrev pub is_task : FiberAndThread → Bool
is_task ft = not (is_null ft.fiber) || not (is_null ft.cb)

-- Scheduler::scheduleNoLock(fc, thread): the new state, and whether to tickle.
unfoldable pub schedule_no_lock : FiberAndThread → Scheduler → Scheduler × Bool
schedule_no_lock ft s =
    (if is_task ft then record s { fibers = s.fibers ++ ft ∷ [] } else s, is_empty s.fibers)

-- if(need_tickle) { tickle(); }
abbrev pub tickle_if : Bool → Scheduler → Scheduler
tickle_if need_tickle s = record s { tickles = if need_tickle then suc s.tickles else s.tickles }

-- Scheduler::schedule(fc, thread)
unfoldable pub schedule : FiberAndThread → Scheduler → Scheduler
schedule ft s = let (s', need_tickle) = schedule_no_lock ft s in tickle_if need_tickle s'

-- The loop of schedule(begin, end), and whether it tickles.
unfoldable pub schedule_all : List FiberAndThread → Scheduler → Scheduler × Bool
schedule_all [] s = (s, false)
schedule_all (ft ∷ fts) s =
    let (s1, t1) = schedule_no_lock ft s in let (s2, t2) = schedule_all fts s1 in (s2, t1 || t2)

-- it->thread != -1 && it->thread != GetThreadId()
abbrev pub for_other : ℕ → FiberAndThread → Bool
for_other me ft = elim ft.thread [ none ↦ false | some t ↦ not (t == me) ]

-- it->fiber && it->fiber->getState() == Fiber::EXEC
abbrev pub running : (ℕ → Fiber) → FiberAndThread → Bool
running o ft = elim ft.fiber [ none ↦ false | some f ↦ is_exec (o f).state ]

-- What the search in run finds: the task, the queue without it, and tickle_me.
pub record Picked : Type 0 where
  pub task : Option FiberAndThread
  pub left : List FiberAndThread
  pub tickle_me : Bool

abbrev skip : FiberAndThread → Bool → Picked → Picked
skip ft other p = record { task = p.task; left = ft ∷ p.left; tickle_me = other || p.tickle_me }

-- The loop of run over m_fibers, by the thread `me`.
unfoldable pub pick : ℕ → (ℕ → Fiber) → List FiberAndThread → Outcome Picked
pick me o [] = done (record { task = none; left = []; tickle_me = false })
pick me o (ft ∷ fts) =
    let rest = pick me o fts in
    if for_other me ft
    then (rest >>= λ p. done (skip ft true p))
    else if not (is_task ft)
    then assert_failed
    else if running o ft
    then (rest >>= λ p. done (skip ft false p))
    else done (record { task = some ft; left = fts; tickle_me = not (is_empty fts) })

-- ++m_activeThreadCount and --m_activeThreadCount
abbrev pub one_more : ℕ → ℕ
one_more n = (n + 1) % 2 ^ 64

abbrev pub one_less : ℕ → ℕ
one_less n = (n + 2 ^ 64 - 1) % 2 ^ 64

abbrev pub store : (ℕ → Fiber) → ℕ → Fiber → ℕ → Fiber
store o p f q = if q == p then f else o q

abbrev pub put_fiber : ℕ → Fiber → Scheduler → Scheduler
put_fiber p f s = record s { object = store s.object p f }

abbrev pub leave : Scheduler → Scheduler
leave s = record s { active_thread_count = one_less s.active_thread_count }

abbrev pub enter : Scheduler → Scheduler
enter s = record s { active_thread_count = one_more s.active_thread_count }

-- What a fiber does when it is switched to: it works on the scheduler, and then switches out.
pub record Work : Type 0 where
  pub effect : Scheduler → Scheduler
  pub switch : Switch

-- swapIn() of the fiber at p, what it does, and --m_activeThreadCount.
unfoldable pub run_fiber : Work → ℕ → Scheduler → Outcome Scheduler
run_fiber w p s = resume w.switch (s.object p) >>= λ f. done (leave (put_fiber p f (w.effect s)))

-- The task of a fiber for any thread.
abbrev pub task_of : ℕ → FiberAndThread
task_of p = record { fiber = some p; cb = none; thread = none }

-- After a fiber that run has taken out of the queue comes back.
unfoldable pub after_fiber : ℕ → Scheduler → Scheduler
after_fiber p s =
    if is_ready (s.object p).state
    then schedule (task_of p) s
    else if not (is_over (s.object p).state)
    then put_fiber p (set_state hold (s.object p)) s
    else s

-- After cb_fiber, at p, comes back: what it is then, if it is kept.
unfoldable pub after_cb : ℕ → Scheduler → Outcome (Scheduler × Option ℕ)
after_cb p s =
    if is_ready (s.object p).state
    then done (schedule (task_of p) s, none)
    else if is_over (s.object p).state
    then (reset none (s.object p) >>= λ f. done (put_fiber p f s, some p))
    else done (put_fiber p (set_state hold (s.object p)) s, none)

-- cb_fiber before it is switched to: it is used again, or made at the address `new`.
unfoldable pub cb_fiber_for : ℕ → Option ℕ → ℕ → Scheduler → Outcome (Scheduler × ℕ)
cb_fiber_for cb none new s = done (put_fiber new (new_fiber (some cb)) s, new)
cb_fiber_for cb (some p) new s = reset (some cb) (s.object p) >>= λ f. done (put_fiber p f s, p)

-- What a round of run does with a task: the first two branches, or, for a fiber that is over, the third.
unfoldable pub run_task :
    Work → ℕ → Option ℕ → FiberAndThread → Scheduler → Outcome (Scheduler × Option ℕ)
run_task w new cb_fiber ft s = elim ft.fiber [
  | some p ↦
      if not (is_over (s.object p).state)
      then (run_fiber w p s >>= λ s'. done (after_fiber p s', cb_fiber))
      else run_cb ft.cb
  | none ↦ run_cb ft.cb
]
  where
    run_cb : Option ℕ → Outcome (Scheduler × Option ℕ)
    run_cb none = done (leave s, cb_fiber)
    run_cb (some cb) =
        cb_fiber_for cb cb_fiber new s >>= λ r. run_fiber w r.1 r.0 >>= λ s'. after_cb r.1 s'

abbrev is_term : State → Bool
is_term term = true
is_term s = false

-- What a round does when there is no task: the idle fiber, at p, runs, or none, if it has ended and the
-- loop is left.
unfoldable pub run_idle : Work → ℕ → Scheduler → Outcome (Option Scheduler)
run_idle w p s =
    if is_term (s.object p).state
    then done none
    else (resume w.switch (s.object p) >>= λ f.
        let s' = w.effect (record s { idle_thread_count = one_more s.idle_thread_count }) in
        done (
          some (
            put_fiber p (if is_over f.state then f else set_state hold f)
              (record s' { idle_thread_count = one_less s'.idle_thread_count }))))

-- A round of the loop of run: the state and cb_fiber, or none, if the loop is left. `w` is what the task
-- does, and `idles` what the idle fiber does.
unfoldable pub round :
    Work → Work → ℕ → ℕ → ℕ → Option ℕ → Scheduler → Outcome (Option (Scheduler × Option ℕ))
round w idles me new idle cb_fiber s = pick me s.object s.fibers >>= λ p. elim p.task [
  | none ↦ run_idle idles idle (tickle_if p.tickle_me (record s { fibers = p.left })) >>= λ r.
      done (elim r [ none ↦ none | some s' ↦ some (s', cb_fiber) ])
  | some ft ↦
      run_task w new cb_fiber ft (tickle_if p.tickle_me (enter (record s { fibers = p.left })))
      >>= λ r. done (some r)
]

-- hasIdleThreads()
pub has_idle_threads : Scheduler → Bool
has_idle_threads s = ltb 0 s.idle_thread_count

-- Scheduler::stopping()
pub is_stopping : Scheduler → Bool
is_stopping s = s.auto_stop && s.stopping && is_empty s.fibers && s.active_thread_count == 0
