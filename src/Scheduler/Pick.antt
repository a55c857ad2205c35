-- ===== src/Scheduler/Pick.antt =====
-- The search of Scheduler::run for a task.
use mathlib.Core.Path.{subst}
use c.Prelude.{
  ℕ, ◌≡◌, refl, Bool, true, false, not, ◌&&◌, ◌||◌, List, [], ◌∷◌, ◌++◌, none, some, All,
  Bool-cases, inl, inr,
}
use c.Fiber.{Fiber}
use c.Scheduler.{FiberAndThread, is_empty, is_task, for_other, running, Picked, pick, done}

-- A task that the thread `me` may take.
abbrev pub may_take : ℕ → (ℕ → Fiber) → FiberAndThread → Bool
may_take me o ft = not (for_other me ft) && not (running o ft)

unfoldable pub some_other : ℕ → List FiberAndThread → Bool
some_other me [] = false
some_other me (ft ∷ fts) = for_other me ft || some_other me fts

-- What the search promises: it passes over `before`, which `me` may not take, and takes the task after
-- it, if there is one.
pub data IsPicked (me : ℕ) (o : ℕ → Fiber) : List FiberAndThread → Picked → Type 0 where
  nothing :
      {q : List FiberAndThread}
      → All (λ ft. may_take me o ft ≡ false) q
      → IsPicked me o q (record { task = none; left = q; tickle_me = some_other me q })
  found :
      (before : List FiberAndThread) (ft : FiberAndThread) (after : List FiberAndThread)
      → All (λ x. may_take me o x ≡ false) before
      → may_take me o ft ≡ true
      → IsPicked me o (before ++ ft ∷ after) (record {
        task = some ft;
        left = before ++ after;
        tickle_me = some_other me before || not (is_empty after);
      })

skips :
    {me : ℕ} {o : ℕ → Fiber} {q : List FiberAndThread} {p : Picked} (ft : FiberAndThread)
    → may_take me o ft ≡ false
    → IsPicked me o q p
    → IsPicked me o
        (ft ∷ q)
        (record { task = p.task; left = ft ∷ p.left; tickle_me = for_other me ft || p.tickle_me })
unfolding some_other
skips ft n (nothing a) = nothing (n, a)
skips {me} {o} ft n (found before x after a t) =
    subst
      (λ b.
        IsPicked me o (ft ∷ before ++ x ∷ after)
          (record { task = some x; left = ft ∷ before ++ after; tickle_me = b }))
      (or_assoc (for_other me ft) (some_other me before) (not (is_empty after)))
      (found (ft ∷ before) x after (n, a) t)
  where
    or_assoc : (a b c : Bool) → ((a || b) || c) ≡ (a || (b || c))
    or_assoc true b c = refl
    or_assoc false b c = refl

-- The search over a queue that holds only tasks fails no assertion. It takes the first task that the
-- thread may take: not one for another thread, nor a fiber that is running. The other tasks stay in
-- the queue, in their order. It tickles exactly when it has passed over a task for another thread, or
-- leaves tasks behind the one that it takes.
pub pick-IsPicked :
    (me : ℕ) (o : ℕ → Fiber) (q : List FiberAndThread)
    → All (λ ft. is_task ft ≡ true) q
    → (p : Picked) × (pick me o q ≡ done p) × IsPicked me o q p
unfolding pick some_other
pick-IsPicked me o [] a = (_, refl, nothing tt)
pick-IsPicked me o (ft ∷ fts) (t, a) =
    let (p, e, i) = pick-IsPicked me o fts a in
    elim (Bool-cases (for_other me ft)) [
      | inl other ↦ (
        record { task = p.task; left = ft ∷ p.left; tickle_me = true },
        rw (other, e) refl,
        subst
            (λ b.
              IsPicked me o (ft ∷ fts)
                (record { task = p.task; left = ft ∷ p.left; tickle_me = b || p.tickle_me }))
            other (skips ft (rw other refl) i),
      )
      | inr mine ↦ elim (Bool-cases (running o ft)) [
        | inl busy ↦ (
          record { task = p.task; left = ft ∷ p.left; tickle_me = p.tickle_me },
          rw (mine, t, busy, e) refl,
          subst
              (λ b.
                IsPicked me o (ft ∷ fts)
                  (record { task = p.task; left = ft ∷ p.left; tickle_me = b || p.tickle_me }))
              mine (skips ft (rw (mine, busy) refl) i),
        )
        | inr free ↦ (
          record { task = some ft; left = fts; tickle_me = not (is_empty fts) },
          rw (mine, t, free) refl,
          found [] ft fts tt (rw (mine, free) refl),
        )
      ]
    ]
