-- ===== src/Scheduler/Tests.antt =====
-- Runs of the scheduler, and its theorems at concrete inputs.
use c.Prelude.{ℕ, ◌≡◌, refl, true, false, List, [], ◌∷◌, none, some, ◌==◌, if◌then◌else◌}
use c.Fiber.{
  hold, ready, resume, swap_in, switch_out, yield_to_ready, Fiber, fresh, exec, yields_ready, done,
  new_fiber,
}
use c.Fiber.History.{Reach, built}
use c.Scheduler.{
  round, run_idle, run_fiber, after_fiber, schedule, schedule_no_lock, store, FiberAndThread,
  Scheduler, Picked, Work, pick, run_task, task_of, schedule_no_lock, schedule_all,
}
use c.Scheduler.Pick.{IsPicked, pick-IsPicked}
use c.Scheduler.Round.{IsRun, run_task-IsRun}

-- The fiber at 1 runs elsewhere; those at 2 and 3 are new.
abbrev objects : ℕ → Fiber
objects p =
    if p == 1
    then record { state = exec; cb = some 8; stack = true }
    else record { state = fresh; cb = some 9; stack = true }

abbrev queue : List FiberAndThread
queue = record { fiber = some 3; cb = none; thread = some 77 } ∷ task_of 1 ∷ task_of 2 ∷ []

abbrev s0 : Scheduler
s0 = record {
  fibers = queue;
  active_thread_count = 0;
  idle_thread_count = 0;
  stopping = false;
  auto_stop = false;
  tickles = 0;
  object = objects;
}

pick_run :
    pick 50 objects queue
    ≡ done (record {
      task = some (task_of 2);
      left = record { fiber = some 3; cb = none; thread = some 77 } ∷ task_of 1 ∷ [];
      tickle_me = true;
    })
unfolding pick
pick_run = refl

schedule_run : (schedule_all (task_of 5 ∷ task_of 6 ∷ []) s0).1 ≡ false
unfolding schedule_all schedule_no_lock
schedule_run = refl

pick-IsPicked_example :
    (p : Picked) × (pick 50 objects queue ≡ done p) × IsPicked 50 objects queue p
pick-IsPicked_example = pick-IsPicked 50 objects queue (refl, (refl, (refl, tt)))

-- The fiber at 2 yields to READY, after it has done nothing.
abbrev work : Work
work = record { effect = λ s. s; switch = yields_ready }

two-Reach : Reach (objects 2)
unfolding new_fiber
two-Reach = built (some 9)

run_task-IsRun_example :
    (s' : Scheduler) × (run_task work 4 none (task_of 2) s0 ≡ done (s', none)) × IsRun work 2 s0 s'
run_task-IsRun_example = run_task-IsRun work 4 none 2 none none s0 two-Reach refl

-- A round takes the fiber at 2, which yields and is queued again behind the others; it has passed over a
-- task for another thread, and tickles.
round_run :
    round work work 50 4 5 none s0
    ≡ done (
        some (
          record s0 {
            fibers =
                record { fiber = some 3; cb = none; thread = some 77 } ∷ task_of 1 ∷ task_of 2 ∷ [];
            active_thread_count = 0;
            tickles = 1;
            object = store objects 2 (record { state = ready; cb = some 9; stack = true });
          },
          none,
        ))
unfolding round pick run_task run_fiber after_fiber schedule schedule_no_lock resume swap_in
    switch_out yield_to_ready
round_run = refl

-- Without a task the idle fiber, at 5, runs, and is then HOLD.
idle_run :
    round work work 50 4 5 none (record s0 { fibers = [] })
    ≡ done (
        some (
          record s0 {
            fibers = [];
            object = store objects 5 (record { state = hold; cb = some 9; stack = true });
          },
          none,
        ))
unfolding round pick run_idle resume swap_in switch_out yield_to_ready
idle_run = refl
