-- ===== src/Scheduler/Round.antt =====
-- What Scheduler::run does with a task.
use c.Prelude.{
  ℕ, suc, ◌+◌, ◌&&◌, Bool, true, arith, ◌≡◌, refl, sym, ◌∙◌, false, [], ◌∷◌, ◌++◌, Option, some,
  ◌==◌, ==_iff, if◌then◌else◌, Bool-cases, inl, inr,
}
use mathlib.Core.List.{append-nil}
use c.Fiber.{Fiber, hold, is_ready, is_over, set_state, settle, resume, done}
use c.Fiber.History.{left_in, Reach, Reach-resume}
use c.Scheduler.{
  Scheduler, Work, schedule, schedule_no_lock, is_empty, run_fiber, after_fiber, run_task, task_of,
  store, put_fiber, leave, one_less,
}

-- What a round with the fiber at p, which the thread has taken out of the queue, leads to from s.
pub record IsRun (w : Work) (p : ℕ) (s s' : Scheduler) : Type 0 where
  -- The fiber, between two runs again.
  pub back : Fiber
  pub resumed : resume w.switch (s.object p) ≡ done back
  pub object : s'.object p ≡ settle back
  pub reach : Reach (settle back)
  -- It is scheduled again exactly when it has yielded to READY.
  pub queue :
      s'.fibers
      ≡ (w.effect s).fibers
        ++ (if is_ready (left_in w.switch (s.object p)) then task_of p ∷ [] else [])
  -- Then schedule tickles, if the queue was empty.
  pub tickles :
      s'.tickles
      ≡ (w.effect s).tickles
        + (if is_ready (left_in w.switch (s.object p)) && is_empty (w.effect s).fibers
            then 1
            else 0)
  pub others : (q : ℕ) → (q == p) ≡ false → s'.object q ≡ (w.effect s).object q
  pub count : s'.active_thread_count ≡ one_less (w.effect s).active_thread_count

store_same : (o : ℕ → Fiber) (p : ℕ) (f : Fiber) → store o p f p ≡ f
store_same o p f = rw ((==_iff p p).1 refl) refl

one_more_if : (b : Bool) (n : ℕ) → (if b then suc n else n) ≡ n + (if b then 1 else 0)
one_more_if true n = omega arith
one_more_if false n = omega arith

-- A task that is a fiber, reached by rounds and resets, and not over: no assertion fails. The fiber is
-- run; after it has worked on the scheduler it is scheduled again, at the end of the queue and for any
-- thread, exactly when it has yielded to READY, with a call of tickle if the queue was empty, and else it
-- is HOLD, or over. The thread is counted as
-- active no longer, cb_fiber is kept, and no other fiber is touched by the scheduler.
pub run_task-IsRun :
    (w : Work) (new : ℕ) (cb_fiber : Option ℕ) (p : ℕ) (cb thread : Option ℕ) (s : Scheduler)
    → Reach (s.object p)
    → is_over (s.object p).state ≡ false
    → (s' : Scheduler) × (run_task w new cb_fiber
          (record { fiber = some p; cb = cb; thread = thread })
          s
        ≡ done (s', cb_fiber))
      × IsRun w p s s'
unfolding run_task run_fiber after_fiber schedule schedule_no_lock
run_task-IsRun w new cb_fiber p cb thread s r live =
    let (g, e, l, again, _) = Reach-resume (s.object p) w.switch r live in
    let s1 = leave (put_fiber p g (w.effect s)) in
    let at : s1.object p ≡ g = store_same (w.effect s).object p g in
    elim (Bool-cases (is_ready g.state)) [
      | inl yes' ↦ (
        schedule (task_of p) s1,
        rw (live, e, at, yes') refl,
        record {
          back = g;
          resumed = e;
          object = rw (at, yes') refl;
          reach = again;
          queue = rw (← l, yes') refl;
          tickles =
              rw (← l, yes') (one_more_if (is_empty (w.effect s).fibers) (w.effect s).tickles);
          others = λ q ne. rw ne refl;
          count = refl;
        },
      )
      | inr no' ↦ elim (Bool-cases (is_over g.state)) [
        | inl over ↦ (
          s1,
          rw (live, e, at, no', over) refl,
          record {
            back = g;
            resumed = e;
            object = rw (at, no', over) refl;
            reach = again;
            queue = rw (← l, no') (sym (append-nil _));
            tickles = rw (← l, no') (omega arith);
            others = λ q ne. rw ne refl;
            count = refl;
          },
        )
        | inr on ↦ (
          put_fiber p (set_state hold g) s1,
          rw (live, e, at, no', on) refl,
          record {
            back = g;
            resumed = e;
            object = store_same s1.object p (set_state hold g) ∙ rw (no', on) refl;
            reach = again;
            queue = rw (← l, no') (sym (append-nil _));
            tickles = rw (← l, no') (omega arith);
            others = λ q ne. rw ne refl;
            count = refl;
          },
        )
      ]
    ]
