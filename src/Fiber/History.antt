-- ===== src/Fiber/History.antt =====
-- The states of a fiber that the loop of Scheduler::run runs.
use mathlib.Core.Path.{subst}
use c.Prelude.{
  ℕ, ◌≡◌, refl, sym, ◌∙◌, Bool-cases, Option-cases, inl, inr, true, false, ◌&&◌, ◌||◌, Option, none,
  some,
}
use c.Fiber.{
  State, fresh, hold, exec, term, ready, except, Fiber, is_exec, is_ready, is_over, is_fresh,
  set_state, new_fiber, reset, swap_in, yield_to_ready, yield_to_hold, main_func, returned, thrown,
  Switch, yields_ready, yields_hold, swaps_out, ends, switch_out, resume, settle, done,
}

-- A fiber from its construction on: it is run by Scheduler::run when it is not over, and then settled,
-- or it is reset when the code may do so.
pub data Reach : Fiber → Type 0 where
  built : (cb : Option ℕ) → Reach (new_fiber cb)
  ran :
      {f g : Fiber} (sw : Switch)
      → Reach f
      → is_over f.state ≡ false
      → resume sw f ≡ done g
      → Reach (settle g)
  renewed : {f g : Fiber} (cb : Option ℕ) → Reach f → reset cb f ≡ done g → Reach g

-- What holds of a fiber between two runs.
abbrev pub Settled : Fiber → Type 0
Settled f = (is_exec f.state ≡ false) × (f.stack ≡ true)

-- The state in which a fiber comes back.
abbrev pub left_in : Switch → Fiber → State
left_in yields_ready f = ready
left_in yields_hold f = hold
left_in swaps_out f = exec
left_in (ends thrown) f = except
left_in (ends returned) f = elim f.cb [ some c ↦ term | none ↦ except ]

runs :
    (sw : Switch) (f : Fiber)
    → Settled f
    → (g : Fiber) × (resume sw f ≡ done g) × (g.state ≡ left_in sw f) × (g.stack ≡ true)
unfolding resume swap_in switch_out yield_to_ready yield_to_hold main_func
runs yields_ready f (s, k) = (set_state ready f, rw s refl, refl, k)
runs yields_hold f (s, k) = (set_state hold f, rw s refl, refl, k)
runs swaps_out f (s, k) = (set_state exec f, rw s refl, refl, k)
runs (ends thrown) f (s, k) = (set_state except f, rw s refl, refl, k)
runs (ends returned) f (s, k) = elim (Option-cases f.cb) [
  | inl e ↦ (set_state except f, rw (s, e) refl, rw e refl, k)
  | inr (c, e) ↦ (record f { cb = none; state = term }, rw (s, e) refl, rw e refl, k)
]

settle-Settled : (g : Fiber) → g.stack ≡ true → Settled (settle g)
settle-Settled g k = elim (Bool-cases (is_ready g.state || is_over g.state)) [
  | inl e ↦ rw e (not_exec g.state e, k)
  | inr e ↦ rw e (refl, k)
]
  where
    not_exec : (s : State) → (is_ready s || is_over s) ≡ true → is_exec s ≡ false
    not_exec exec e = absurd (cc)
    not_exec fresh e = refl
    not_exec hold e = refl
    not_exec term e = refl
    not_exec ready e = refl
    not_exec except e = refl

same : {f g : Fiber} → done f ≡ done g → f ≡ g
same e = cc

Reach-Settled : {f : Fiber} → Reach f → Settled f
unfolding new_fiber reset
Reach-Settled (built cb) = (refl, refl)
Reach-Settled (ran {f} {g} sw r o e) =
    let (g', e', _, k) = runs sw f (Reach-Settled r) in
    settle-Settled g (subst (λ x. x.stack ≡ true) (same (sym e' ∙ e)) k)
Reach-Settled (renewed {f} {g} cb r e) =
    let (s, k) = Reach-Settled r in
    elim (Bool-cases (f.stack && (is_over f.state || is_fresh f.state))) [
      | inl ok ↦ subst Settled (same (rw ok at e)) (refl, k)
      | inr bad ↦ absurd (cc (rw bad at e))
    ]

-- A fiber that Scheduler::run has built, run, settled and reset any number of times, and that is not
-- over, can always be run again: no assertion fails, however it then switches out, and it comes back
-- in the state that the switch names. Between two runs no such fiber is EXEC.
pub Reach-resume :
    (f : Fiber) (sw : Switch)
    → Reach f
    → is_over f.state ≡ false
    → (g : Fiber) × (resume sw f ≡ done g)
      × (g.state ≡ left_in sw f)
      × Reach (settle g)
      × (is_exec (settle g).state ≡ false)
Reach-resume f sw r o =
    let (g, e, l, k) = runs sw f (Reach-Settled r) in
    (g, e, l, ran sw r o e, (settle-Settled g k).0)
