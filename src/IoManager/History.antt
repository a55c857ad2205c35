-- ===== src/IoManager/History.antt =====
-- Sequences of calls from a new IOManager on, and when it may stop.
use c.Prelude.{
  ℕ, zero, suc, ◌+◌, ◌-◌, ◌*◌, ◌/◌, ◌^◌, ◌≡◌, refl, sym, ◌∙◌, ◌≤◌, ◌<◌, Bool, true, false, ◌&&◌,
  List, [], ◌∷◌, Option, ◌==◌, ==_iff, length, arith, Bool-cases, inl, inr,
}
use mathlib.Core.Path.{subst}
use c.Prelude.Int.{ℤ}
use c.IoManager.{
  IoManager, Scheduled, FdContext, Event, EpollCtl, Caller, Report, Outcome, done, init, has, any,
  add_event, del_event, cancel_event, cancel_all, handle_event, is_stopping,
}
use c.IoManager.Contexts.{bit, count, context_of}
use c.IoManager.Valid.{Valid, IsInt, init-Valid, init-IsInt}
use c.IoManager.Fire.{context, Becomes}
use c.IoManager.Cancel.{cancel_event_lem, cancel_all_lem, handle_event_lem}
use c.IoManager.Register.{add_event_lem, del_event_lem}

-- One call that ends, whatever epoll_ctl answers: addEvent from a running fiber, of an event that is not
-- registered, for an fd for which the vector stays an int's length; the other operations; and the handling of a report that names only registered events.
pub data Step (m : IoManager) : IoManager → Type 0 where
  adds :
      {m' : IoManager} {r : ℤ} (epoll_ctl : EpollCtl) (who : Caller) (fd : ℕ) (e : Event)
      (cb : Option ℕ)
      → fd * 3 / 2 < 2 ^ 31
      → who.exec ≡ true
      → has (context fd m).events e ≡ false
      → add_event epoll_ctl who fd e cb m ≡ done (m', r)
      → Step m m'
  deletes :
      {m' : IoManager} {r : Bool} (epoll_ctl : EpollCtl) (fd : ℕ) (e : Event)
      → del_event epoll_ctl fd e m ≡ done (m', r)
      → Step m m'
  cancels :
      {m' : IoManager} {r : Bool} (epoll_ctl : EpollCtl) (fd : ℕ) (e : Event)
      → cancel_event epoll_ctl fd e m ≡ done (m', r)
      → Step m m'
  cancels_all :
      {m' : IoManager} {r : Bool} (epoll_ctl : EpollCtl) (fd : ℕ)
      → cancel_all epoll_ctl fd m ≡ done (m', r)
      → Step m m'
  reports :
      {m' : IoManager} (epoll_ctl : EpollCtl) (r : Report)
      → r.fd < length m.fd_contexts
      → (r.input ≡ true → (context r.fd m).events.read ≡ true)
      → (r.output ≡ true → (context r.fd m).events.write ≡ true)
      → handle_event epoll_ctl r m ≡ done m'
      → Step m m'

pub data Reach : IoManager → Type 0 where
  here : Reach init
  next : {m m' : IoManager} → Reach m → Step m m' → Reach m'

same_state :
    {A : Type 0} {m m' : IoManager} {r r' : A}
    → ◌≡◌ {A = Outcome (IoManager × A)} (done (m, r)) (done (m', r'))
    → m ≡ m'
same_state e = cc

same_done : {m m' : IoManager} → done m ≡ done m' → m ≡ m'
same_done e = cc

kept_few :
    (fd : ℕ) (c : FdContext) (xs : List Scheduled) (m m' m1 : IoManager)
    → m1 ≡ m'
    → Becomes fd c xs m m1
    → IsInt m
    → Valid m' × IsInt m'
kept_few fd c xs m m' m1 e b few =
    subst (λ x. Valid x × IsInt x) e (b.valid, omega (arith, b.same_length, few))

Step-Valid : {m m' : IoManager} → Step m m' → Valid m → IsInt m → Valid m' × IsInt m'
Step-Valid {m} (adds ctl who fd e cb int x free eq) v few =
    let (m1, e1, v1, _, few1, _, _) = add_event_lem ctl who fd e cb m v few int x free in
    subst (λ x. Valid x × IsInt x) (same_state (sym e1 ∙ eq)) (v1, few1)
Step-Valid {m} {m'} (deletes ctl fd e eq) v few =
    let (m1, r, _, e1, b) = del_event_lem ctl fd e m v few in
    kept_few fd _ _ m m' m1 (same_state (sym e1 ∙ eq)) b few
Step-Valid {m} {m'} (cancels ctl fd e eq) v few =
    let (m1, r, _, e1, b) = cancel_event_lem ctl fd e m v few in
    kept_few fd _ _ m m' m1 (same_state (sym e1 ∙ eq)) b few
Step-Valid {m} {m'} (cancels_all ctl fd eq) v few =
    let (m1, r, _, e1, b) = cancel_all_lem ctl fd m v few in
    kept_few fd _ _ m m' m1 (same_state (sym e1 ∙ eq)) b few
Step-Valid {m} {m'} (reports ctl r h hi ho eq) v few =
    let (m1, a, _, e1, b) = handle_event_lem ctl r m v h hi ho in
    kept_few r.fd _ _ m m' m1 (same_done (sym e1 ∙ eq)) b few

pub Reach-Valid : {m : IoManager} → Reach m → Valid m × IsInt m
Reach-Valid here = (init-Valid, init-IsInt)
Reach-Valid (next r s) = let (v, few) = Reach-Valid r in Step-Valid s v few

count-le : (cs : List FdContext) → count cs ≤ 2 * length cs
unfolding count
count-le [] = omega arith
count-le (c ∷ cs) = omega (arith, count-le cs, bits-le c.events.read c.events.write)
  where
    bits-le : (r w : Bool) → bit r + bit w ≤ 2
    bits-le true true = omega arith
    bits-le true false = omega arith
    bits-le false true = omega arith
    bits-le false false = omega arith

none_registered :
    (q : ℕ) (cs : List FdContext) → count cs ≡ 0 → any (context_of q cs).events ≡ false
unfolding count context_of
none_registered q [] h = refl
none_registered zero (c ∷ cs) h = elim (Bool-cases c.events.read) [
  | inl r ↦ absurd (omega (arith, rw r at h))
  | inr r ↦ elim (Bool-cases c.events.write) [
    | inl w ↦ absurd (omega (arith, rw (r, w) at h))
    | inr w ↦ rw (r, w) refl
  ]
]
none_registered (suc q) (c ∷ cs) h = none_registered q cs (omega (arith, h))

middle : (a b c : Bool) → (a && b && c) ≡ true → b ≡ true
middle true true c e = refl
middle true false c e = absurd (cc)
middle false b c e = absurd (cc)

-- From a new IOManager, after any calls of addEvent (from a running fiber, of an event that is not
-- registered, for an fd with fd * 3 / 2 below 2^31), delEvent, cancelEvent and cancelAll, and any
-- reports that name only registered events, whatever epoll_ctl answers: stopping() returns true
-- only when no event of any fd is registered, so that no callback or fiber still waits.
pub Reach-is_stopping :
    (m : IoManager) (timeout : ℕ) (scheduler_stopping : Bool) (fd : ℕ)
    → Reach m
    → is_stopping timeout m scheduler_stopping ≡ true
    → any (context fd m).events ≡ false
unfolding is_stopping
Reach-is_stopping m timeout scheduler_stopping fd r stops =
    let (v, few) = Reach-Valid r in
    let z : m.pending_event_count ≡ 0 =
      (==_iff m.pending_event_count 0).0
        (middle (timeout == 2 ^ 64 - 1) (m.pending_event_count == 0) scheduler_stopping stops) in
    none_registered fd m.fd_contexts (omega (arith, v.counted, count-le m.fd_contexts, few, z))
