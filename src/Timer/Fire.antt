-- ===== src/Timer/Fire.antt =====
-- The loop of listExpiredCb over the timers that were taken out of the set.
use c.Prelude.{
  ℕ, ◌≡◌, refl, ◌∙◌, ap, true, false, ◌||◌, ◌&&◌, inl, inr, List, [], ◌∷◌, ◌==◌, if◌then◌else◌,
  arith, ==_iff, Bool-cases, ◌<◌, ◌+◌, ◌^◌, none, map,
}
use c.SortedSet.Order.{elem, Sorted, elem-insert, insert-Sorted}
use c.SortedSet.Bounds.{Distinct}
use c.Timer.{
  Timer, TimerManager, less, store, is_set, set_cb, set_next, u64, restart, finish, fire, fire_all,
}
use c.Timer.Order.{less-IsStrictOrder, Sorted-store}
use c.Timer.Invariant.{IsValid, elem-ne}

-- A timer after it has expired.
abbrev pub fired : ℕ → Timer → Timer
fired now t = if t.recurring then set_next t (u64 (now + t.ms)) else set_cb t none

-- Between two rounds: `ps` are the expired timers still to be visited.
pub record IsPending (ps : List ℕ) (o : ℕ → Timer) (ts : List ℕ) : Type 0 where
  pub sorted : Sorted (less o) ts
  pub live : (q : ℕ) → is_set (o q).cb ≡ true → (elem q ps || elem q ts) ≡ true
  pub no_null : elem 0 ts ≡ false
  pub no_null_pending : elem 0 ps ≡ false
  pub bounded : (q : ℕ) → elem q ts ≡ true → (o q).next < 2 ^ 64
  pub distinct : Distinct ps
  pub apart : (q : ℕ) → elem q ps ≡ true → elem q ts ≡ false

fire-object :
    (now p : ℕ) (m : TimerManager)
    → (fire now p m).object ≡ store m.object p (fired now (m.object p))
unfolding fire
fire-object now p m = elim (Bool-cases (m.object p).recurring) [
  | inl e ↦ unfold restart in rw e refl
  | inr e ↦ unfold finish in rw e refl
]

fire-elem :
    (now p q : ℕ) (m : TimerManager)
    → elem q (fire now p m).timers ≡ (((m.object p).recurring && (p == q)) || elem q m.timers)
unfolding fire restart finish
fire-elem now p q m =
    let o = store m.object p (set_next (m.object p) (u64 (now + (m.object p).ms))) in
    ground (arith, elem-insert (less o) (less-IsStrictOrder o) q p m.timers)

restart-Sorted :
    (now p : ℕ) (m : TimerManager)
    → elem p m.timers ≡ false
    → Sorted (less m.object) m.timers
    → Sorted (less (restart now p m).object) (restart now p m).timers
unfolding restart
restart-Sorted now p m absent s =
    let o = store m.object p (set_next (m.object p) (u64 (now + (m.object p).ms))) in
    insert-Sorted (less o) (less-IsStrictOrder o) p m.timers
      (Sorted-store m.object p _ m.timers absent s)

finish-Sorted :
    (p : ℕ) (m : TimerManager)
    → elem p m.timers ≡ false
    → Sorted (less m.object) m.timers
    → Sorted (less (finish p m).object) (finish p m).timers
unfolding finish
finish-Sorted p m absent s = Sorted-store m.object p (set_cb (m.object p) none) m.timers absent s

fire-Sorted :
    (now p : ℕ) (m : TimerManager)
    → elem p m.timers ≡ false
    → Sorted (less m.object) m.timers
    → Sorted (less (fire now p m).object) (fire now p m).timers
unfolding fire
fire-Sorted now p m absent s = elim (Bool-cases (m.object p).recurring) [
  | inl e ↦ rw e (restart-Sorted now p m absent s)
  | inr e ↦ rw e (finish-Sorted p m absent s)
]

self : (p : ℕ) (ps : List ℕ) → elem p (p ∷ ps) ≡ true
self p ps = ground (arith, ==_iff p p)

fire-IsPending :
    (now p : ℕ) (ps : List ℕ) (m : TimerManager)
    → IsPending (p ∷ ps) m.object m.timers
    → IsPending ps (fire now p m).object (fire now p m).timers
unfolding is_set
fire-IsPending now p ps m h = record {
  sorted = fire-Sorted now p m absent h.sorted;
  live = λ q e. live q e;
  no_null = ground (arith, fire-elem now p 0 m, h.no_null, h.no_null_pending);
  no_null_pending = ground (arith, h.no_null_pending);
  bounded = λ q e. bounded q e;
  distinct = h.distinct.1;
  apart = λ q e. ground (
    arith,
    fire-elem now p q m,
    h.apart q (ground arith),
    h.distinct.0,
    elem-ne p q ps h.distinct.0 e,
  );
}
  where
    absent : elem p m.timers ≡ false
    absent = h.apart p (self p ps)

    live :
        (q : ℕ)
        → is_set ((fire now p m).object q).cb ≡ true
        → (elem q ps || elem q (fire now p m).timers) ≡ true
    live q e =
        ground (arith, rw (fire-object now p m) at e, fire-elem now p q m, h.live q, ==_iff p q)

    bounded :
        (q : ℕ) → elem q (fire now p m).timers ≡ true → ((fire now p m).object q).next < 2 ^ 64
    bounded q e =
        rw (fire-object now p m)
          (ground (arith, fire-elem now p q m, h.bounded q, ==_iff p q, absent))

fire_all-cons-state :
    (now p : ℕ) (ps : List ℕ) (m : TimerManager)
    → (fire_all now (p ∷ ps) m).0 ≡ (fire_all now ps (fire now p m)).0
unfolding fire_all
fire_all-cons-state now p ps m = refl

-- What the loop leaves when `ps` has been visited.
pub fire_all-IsPending :
    (now : ℕ) (ps : List ℕ) (m : TimerManager)
    → IsPending ps m.object m.timers
    → IsPending [] (fire_all now ps m).0.object (fire_all now ps m).0.timers
fire_all-IsPending now [] m h = unfold fire_all in h
fire_all-IsPending now (p ∷ ps) m h =
    rw (fire_all-cons-state now p ps m)
      (fire_all-IsPending now ps (fire now p m) (fire-IsPending now p ps m h))

pub IsPending-IsValid : (o : ℕ → Timer) (ts : List ℕ) → IsPending [] o ts → IsValid o ts
IsPending-IsValid o ts h = record {
  sorted = h.sorted;
  live = λ q e. h.live q e;
  no_null = h.no_null;
  bounded = h.bounded;
}

fire-other :
    (now p q : ℕ) (m : TimerManager) → (p == q) ≡ false → (fire now p m).object q ≡ m.object q
fire-other now p q m e = rw (fire-object now p m, e) refl

fire_self : (now p : ℕ) (m : TimerManager) → (fire now p m).object p ≡ fired now (m.object p)
fire_self now p m = rw (fire-object now p m, (==_iff p p).1 refl) refl

-- Each visited timer has expired once; the others are as they were.
pub fire_all-object :
    (now q : ℕ) (ps : List ℕ) (m : TimerManager)
    → Distinct ps
    → (fire_all now ps m).0.object q ≡ (if elem q ps then fired now (m.object q) else m.object q)
fire_all-object now q [] m d = unfold fire_all in refl
fire_all-object now q (p ∷ ps) m d =
    fire_all-cons-object
    ∙ fire_all-object now q ps (fire now p m) d.1
    ∙ elim (Bool-cases (p == q)) [
      | inl e ↦ rw (← (==_iff p q).0 e, d.0, (==_iff p p).1 refl) (fire_self now p m)
      | inr e ↦ rw (e, fire-other now p q m e) refl
    ]
  where
    fire_all-cons-object :
        (fire_all now (p ∷ ps) m).0.object q ≡ (fire_all now ps (fire now p m)).0.object q
    fire_all-cons-object = rw (fire_all-cons-state now p ps m) refl

-- The visited timers that recur are back in the set.
pub fire_all-elem :
    (now q : ℕ) (ps : List ℕ) (m : TimerManager)
    → Distinct ps
    → elem q (fire_all now ps m).0.timers
      ≡ ((elem q ps && (m.object q).recurring) || elem q m.timers)
fire_all-elem now q [] m d = unfold fire_all in refl
fire_all-elem now q (p ∷ ps) m d = rw (fire_all-cons-state now p ps m) (
    fire_all-elem now q ps (fire now p m) d.1 ∙ elim (Bool-cases (p == q)) [
      | inl e ↦ ground (arith, e, fire-elem now p q m, (==_iff p q).0 e, d.0)
      | inr e ↦ rw (fire-other now p q m e, fire-elem now p q m, e) (ground arith)
    ])

map-other :
    (now p : ℕ) (ps : List ℕ) (m : TimerManager)
    → elem p ps ≡ false
    → map (λ q. ((fire now p m).object q).cb) ps ≡ map (λ q. (m.object q).cb) ps
map-other now p [] m e = refl
map-other now p (q ∷ ps) m e =
    rw (fire-other now p q m (ground arith), map-other now p ps m (ground arith)) refl

-- The callbacks are returned in the order of the timers, as they were before the loop.
pub fire_all-cbs :
    (now : ℕ) (ps : List ℕ) (m : TimerManager)
    → Distinct ps
    → (fire_all now ps m).1 ≡ map (λ q. (m.object q).cb) ps
fire_all-cbs now [] m d = unfold fire_all in refl
fire_all-cbs now (p ∷ ps) m d =
    cons
    ∙ ap (◌∷◌ (m.object p).cb) (fire_all-cbs now ps (fire now p m) d.1 ∙ map-other now p ps m d.0)
  where
    cons : (fire_all now (p ∷ ps) m).1 ≡ (m.object p).cb ∷ (fire_all now ps (fire now p m)).1
    cons = unfold fire_all in refl
