-- ===== src/Fiber/Tests.antt =====
-- Runs of a fiber, and its theorem at a concrete input.
use c.Prelude.{◌≡◌, refl, true, false, none, some}
use c.Fiber.{
  Fiber, hold, term, except, is_exec, new_fiber, destroy, swap_in, yield_to_hold, main_func,
  switch_out, resume, settle, yields_hold, ends, returned, done, assert_failed,
}
use c.Fiber.History.{Reach, built, ran, Reach-resume}

-- A fiber that has yielded cannot be destroyed: the assertion in ~Fiber fails.
destroy_held : destroy (record { state = hold; cb = some 8; stack = true }) ≡ assert_failed
unfolding destroy
destroy_held = refl

-- A fiber that was reset without a callback ends in EXCEPT when it is run.
empty_run :
    resume (ends returned) (new_fiber none)
    ≡ done (record { state = except; cb = none; stack = true })
unfolding resume swap_in switch_out main_func new_fiber
empty_run = refl

abbrev held : Fiber
held = record { state = hold; cb = some 8; stack = true }

held-Reach : Reach held
unfolding resume swap_in switch_out yield_to_hold new_fiber
held-Reach = ran {g = held} yields_hold (built (some 8)) refl refl

Reach-resume_example :
    (g : Fiber) × (resume (ends returned) held ≡ done g)
    × (g.state ≡ term)
    × Reach (settle g)
    × (is_exec (settle g).state ≡ false)
Reach-resume_example = Reach-resume held (ends returned) held-Reach refl
