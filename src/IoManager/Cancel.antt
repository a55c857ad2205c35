-- ===== src/IoManager/Cancel.antt =====
-- cancelEvent, cancelAll, and the loop of idle over the reports of epoll_wait.
use c.Prelude.{
  ℕ, zero, suc, ◌≡◌, refl, ap, ◌∙◌, ◌≤◌, ◌<◌, Bool, true, false, not, ◌&&◌, ◌||◌, List, [], ◌∷◌,
  ==_iff, if◌then◌else◌, length, arith, Bool-cases, inl, inr,
}
use c.IoManager.{
  IoManager, FdContext, Event, Events, no_events, reading, writing, has, any, without_event,
  new_context, get_context, done, context_at, EpollCtl, ctl_mod, ctl_del, too_short, cancel_event,
  cancel_all, Report, real_events, handle_event,
}
use c.IoManager.Contexts.{context_of, context_at-context_of}
use c.IoManager.Valid.{IsInt, too_short-true, too_short-false, Valid}
use c.IoManager.Fire.{
  owed, clear, cleared, fired, Becomes, context, same-Becomes, trigger-Becomes, both-Becomes,
  has-other,
}

-- The operation that the code asks of epoll_ctl to leave the events `left`.
abbrev pub leave : EpollCtl → ℕ → Events → Bool
leave epoll_ctl fd left = epoll_ctl (if any left then ctl_mod else ctl_del) fd left

-- The events that a report of an fd stands for, whether one of them is registered, and what is left.
abbrev pub real_of : Report → IoManager → Events
real_of r m = real_events r (context r.fd m).events

abbrev touches : Report → Events → Bool
touches r es = (es.read && (real_events r es).read) || (es.write && (real_events r es).write)

abbrev left_of : Report → Events → Events
left_of r es = record {
  read = es.read && not (real_events r es).read;
  write = es.write && not (real_events r es).write;
}

abbrev pub handles : EpollCtl → Report → Events → Bool
handles epoll_ctl r es = touches r es && leave epoll_ctl r.fd (left_of r es)

pub beyond : (fd : ℕ) (cs : List FdContext) → length cs ≤ fd → context_of fd cs ≡ new_context
unfolding context_of
beyond fd [] h = refl
beyond zero (c ∷ cs) h = absurd (omega arith)
beyond (suc fd) (c ∷ cs) h = beyond fd cs (omega arith)

-- In a valid IOManager with fewer than 2^31 contexts cancelEvent(fd, event) never fails an assertion. It returns true exactly
-- when the event is registered and epoll_ctl succeeds: then the event is no longer registered and
-- its callback or fiber is scheduled, once. Otherwise nothing changes. No other fd or event is
-- touched, and the IOManager stays valid.
pub cancel_event_lem :
    (epoll_ctl : EpollCtl) (fd : ℕ) (e : Event) (m : IoManager)
    → Valid m
    → IsInt m
    → (m' : IoManager) × (r : Bool) × (r ≡ (
        has (context fd m).events e && leave epoll_ctl fd (without_event (context fd m).events e)))
      × (cancel_event epoll_ctl fd e m ≡ done (m', r))
      × Becomes fd
          (clear r e (context fd m))
          (if r then owed (get_context (context fd m) e) else [])
          m
          m'
unfolding cancel_event
cancel_event_lem epoll_ctl fd e m v few = elim (Bool-cases (too_short fd m)) [
  | inl short ↦ (
    m,
    false,
    rw (beyond fd m.fd_contexts (too_short-true fd m few short)) (nothing e),
    rw short refl,
    same-Becomes fd m v,
  )
  | inr ok ↦
      let h : fd < length m.fd_contexts = too_short-false fd m few ok in
      let at = context_at-context_of fd m.fd_contexts h in
      elim (Bool-cases (has (context fd m).events e)) [
        | inr absent ↦ (m, false, rw absent refl, rw (ok, at, absent) refl, same-Becomes fd m v)
        | inl here ↦
            elim (Bool-cases (leave epoll_ctl fd (without_event (context fd m).events e))) [
              | inr fails ↦ (
                m,
                false,
                rw (here, fails) refl,
                rw (ok, at, here, fails) refl,
                same-Becomes fd m v,
              )
              | inl succeeds ↦
                  let (m', t, b) = trigger-Becomes fd m v h e here in
                  (m', true, rw (here, succeeds) refl, rw (ok, at, here, succeeds, t) refl, b)
            ]
      ]
]
  where
    nothing :
        (e : Event)
        → false
          ≡ (has new_context.events e && leave epoll_ctl fd (without_event new_context.events e))
    nothing reading = refl
    nothing writing = refl

cleared_all :
    (r w : Bool) (c : FdContext)
    → c.events.read ≡ r
    → c.events.write ≡ w
    → any (cleared r w c).events ≡ false
cleared_all true true c hr hw = refl
cleared_all true false c hr hw = hw
cleared_all false true c hr hw = rw hr refl
cleared_all false false c hr hw = rw (hr, hw) refl

-- In a valid IOManager with fewer than 2^31 contexts cancelAll(fd) never fails an assertion. It returns true exactly when some
-- event of fd is registered and epoll_ctl removes fd: then no event of fd is registered, and the
-- callback or fiber of each event that was is scheduled, once, that of READ first. Otherwise
-- nothing changes. No other fd is touched, and the IOManager stays valid.
pub cancel_all_lem :
    (epoll_ctl : EpollCtl) (fd : ℕ) (m : IoManager)
    → Valid m
    → IsInt m
    → (m' : IoManager) × (r : Bool) × (r
        ≡ (any (context fd m).events && epoll_ctl ctl_del fd no_events))
      × (cancel_all epoll_ctl fd m ≡ done (m', r))
      × Becomes fd
          (cleared
            (r && (context fd m).events.read)
            (r && (context fd m).events.write)
            (context fd m))
          (fired
            (r && (context fd m).events.read)
            (r && (context fd m).events.write)
            (context fd m))
          m
          m'
unfolding cancel_all
cancel_all_lem epoll_ctl fd m v few = elim (Bool-cases (too_short fd m)) [
  | inl short ↦ (
    m,
    false,
    rw (beyond fd m.fd_contexts (too_short-true fd m few short)) refl,
    rw short refl,
    same-Becomes fd m v,
  )
  | inr ok ↦
      let h : fd < length m.fd_contexts = too_short-false fd m few ok in
      let at = context_at-context_of fd m.fd_contexts h in
      elim (Bool-cases (any (context fd m).events)) [
        | inr absent ↦ (m, false, rw absent refl, rw (ok, at, absent) refl, same-Becomes fd m v)
        | inl here ↦ elim (Bool-cases (epoll_ctl ctl_del fd no_events)) [
          | inr fails ↦
              (m, false, rw (here, fails) refl, rw (ok, at, here, fails) refl, same-Becomes fd m v)
          | inl succeeds ↦
              let c = context fd m in
              let (m1, m2, t1, c1, l1, t2, b) =
                both-Becomes fd m v h c.events.read c.events.write (λ r. r) (λ w. w) in
              let at1 : context_at fd m1.fd_contexts ≡ done (context fd m1) =
                context_at-context_of fd m1.fd_contexts (omega (arith, h, l1)) in
              let at2 : context_at fd m2.fd_contexts ≡ done (context fd m2) =
                context_at-context_of fd m2.fd_contexts (omega (arith, h, b.same_length)) in
              let c2 : context fd m2 ≡ cleared c.events.read c.events.write c =
                b.contexts fd ∙ rw ((==_iff fd fd).1 refl) refl in
              let w1 : (context fd m1).events.write ≡ c.events.write =
                ap (λ x. x.events.write) c1 ∙ has-other c.events.read c in
              let all : any (context fd m2).events ≡ false =
                ap (λ x. any x.events) c2 ∙ cleared_all c.events.read c.events.write c refl refl in
              (
                m2,
                true,
                rw (here, succeeds) refl,
                rw (ok, at, here, succeeds, t1, at1, w1, t2, at2, all) refl,
                b,
              )
        ]
      ]
]

-- A round of the loop of idle() in a valid IOManager, for an fd within the vector, whose report
-- names no event that is not registered: it never fails an assertion. If it names an event, or an
-- error while one is registered, and epoll_ctl succeeds, then exactly the events it stands for
-- (all that are registered after an error) are no longer registered, and the callback or fiber of
-- each is scheduled, once, that of READ first. Otherwise nothing changes. No other fd is touched,
-- and the IOManager stays valid.
pub handle_event_lem :
    (epoll_ctl : EpollCtl) (r : Report) (m : IoManager)
    → Valid m
    → r.fd < length m.fd_contexts
    → (r.input ≡ true → (context r.fd m).events.read ≡ true)
    → (r.output ≡ true → (context r.fd m).events.write ≡ true)
    → (m' : IoManager) × (acts : Bool) × (acts ≡ handles epoll_ctl r (context r.fd m).events)
      × (handle_event epoll_ctl r m ≡ done m')
      × Becomes r.fd
          (cleared (acts && (real_of r m).read) (acts && (real_of r m).write) (context r.fd m))
          (fired (acts && (real_of r m).read) (acts && (real_of r m).write) (context r.fd m))
          m
          m'
unfolding handle_event
handle_event_lem epoll_ctl r m v h hi ho =
    let c = context r.fd m in
    let at = context_at-context_of r.fd m.fd_contexts h in
    let real = real_of r m in
    let rr = registered r.input r.failed c.events.read hi in
    let ww = registered r.output r.failed c.events.write ho in
    elim (Bool-cases (touches r c.events)) [
      | inr absent ↦ (m, false, rw absent refl, rw (at, absent) refl, same-Becomes r.fd m v)
      | inl here ↦ elim (Bool-cases (leave epoll_ctl r.fd (left_of r c.events))) [
        | inr fails ↦
            (m, false, rw (here, fails) refl, rw (at, here, fails) refl, same-Becomes r.fd m v)
        | inl succeeds ↦
            let (m1, m2, t1, _, _, t2, b) = both-Becomes r.fd m v h real.read real.write rr ww in
            (m2, true, rw (here, succeeds) refl, rw (at, here, succeeds, t1, t2) refl, b)
      ]
    ]
  where
    registered :
        (named failed reg : Bool)
        → (named ≡ true → reg ≡ true)
        → (named || (failed && reg)) ≡ true
        → reg ≡ true
    registered true failed reg hn e = hn refl
    registered false true reg hn e = e
    registered false false reg hn e = absurd (cc)
