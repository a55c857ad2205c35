-- ===== src/IoManager/Race.antt =====
-- An event from its registration to its callback, and two interleavings in which the code fails.
use mathlib.Core.Path.{subst}
use mathlib.Core.List.{append-nil}
use c.Prelude.{
  ℕ, zero, suc, ◌-◌, ◌*◌, ◌/◌, ◌^◌, ◌↔◌, ◌≡◌, refl, sym, ap, ◌∙◌, ◌≤◌, ◌<◌, true, false, ◌&&◌, List,
  [], ◌∷◌, ◌++◌, ◌==◌, ==_iff, Option, none, some, if◌then◌else◌, length, take, replicate, arith,
  Bool-cases, inl, inr, length-append, length-take, length-replicate,
}
use c.Prelude.Int.{pos}
use c.IoManager.{
  IoManager, FdContext, Event, Events, reading, writing, has, any, with_event, reset_context,
  new_context, get_context, done, assert_failed, undefined, context_at, context_resize, EpollCtl,
  Op, ctl_mod, ctl_del, ctl_add, too_short, Caller, add_event, Report, handle_event, trigger_if,
  trigger, trigger_event, wait_timeout,
}
use c.IoManager.Contexts.{context_at-context_of}
use c.IoManager.Valid.{Valid, IsInt, ArmedAt, Armed}
use c.IoManager.Fire.{owed, clear, cleared, fired, Becomes, context, context-Armed}
use c.IoManager.Cancel.{handles, handle_event_lem}
use c.IoManager.Register.{task_of, registered, add_event_lem}

-- What epoll_wait reports when the event e of fd has come.
abbrev pub report_of : ℕ → Event → Report
report_of fd reading = record { fd = fd; input = true; output = false; failed = false }
report_of fd writing = record { fd = fd; input = false; output = true; failed = false }

module _ (epoll_ctl : EpollCtl)
    (works : (op : Op) (fd : ℕ) (es : Events) → epoll_ctl op fd es ≡ true) where
  fires :
      (fd : ℕ) (e : Event) (m : IoManager) (c : FdContext)
      → Valid m
      → fd < length m.fd_contexts
      → context fd m ≡ c
      → has c.events e ≡ true
      → (m' : IoManager) × (handle_event epoll_ctl (report_of fd e) m ≡ done m')
        × Becomes fd (clear true e c) (owed (get_context c e)) m m'
  fires fd reading m c v h q here =
      let (m', acts, ea, eh, b) =
        handle_event_lem epoll_ctl (report_of fd reading) m v h (λ _. rw q here)
          (λ z. absurd (cc)) in
      let yes' : acts ≡ true = ea ∙ rw (q, here, works) refl in
      let b' =
        subst
          (λ a.
            Becomes fd (cleared (a && true) (a && false) (context fd m))
              (fired (a && true) (a && false) (context fd m)) m m')
          yes' b in
      (
        m',
        eh,
        subst (λ xs. Becomes fd (clear true reading c) xs m m') (append-nil (owed c.read))
            (subst (λ x. Becomes fd (clear true reading x) (owed x.read ++ []) m m') q b'),
      )
  fires fd writing m c v h q here =
      let (m', acts, ea, eh, b) =
        handle_event_lem epoll_ctl (report_of fd writing) m v h (λ z. absurd (cc))
          (λ _. rw q here) in
      let yes' : acts ≡ true = ea ∙ touched (context fd m) q in
      let b' =
        subst
          (λ a.
            Becomes fd (cleared (a && false) (a && true) (context fd m))
              (fired (a && false) (a && true) (context fd m)) m m')
          yes' b in
      (m', eh, subst (λ x. Becomes fd (clear true writing x) (owed x.write) m m') q b')
    where
      touched : (x : FdContext) → x ≡ c → handles epoll_ctl (report_of fd writing) x.events ≡ true
      touched x p = elim (Bool-cases x.events.read) [
        | inl r ↦ rw (r, ap (λ y. y.events.write) p, here, works) refl
        | inr r ↦ rw (r, ap (λ y. y.events.write) p, here, works) refl
      ]

  back :
      (who : Caller) (callback : Option ℕ) (e : Event) (c : FdContext)
      → Armed c
      → has c.events e ≡ false
      → clear true e (registered who callback e c) ≡ c
  back who callback reading c a free =
      let unused : c.read ≡ reset_context = subst (λ b. ArmedAt b c.read) free a.0 in
      λ i. record c { read = sym unused i; events = record c.events { read = sym free i } }
  back who callback writing c a free =
      let unused : c.write ≡ reset_context = subst (λ b. ArmedAt b c.write) free a.1 in
      λ i. record c { write = sym unused i; events = record c.events { write = sym free i } }

  owed-registered :
      (who : Caller) (callback : Option ℕ) (e : Event) (c : FdContext)
      → owed (get_context (registered who callback e c) e)
        ≡ record { scheduler = who.scheduler; task = task_of who callback } ∷ []
  unfolding owed
  owed-registered who (some f) reading c = refl
  owed-registered who (some f) writing c = refl
  owed-registered who none reading c = refl
  owed-registered who none writing c = refl

  has-registered :
      (who : Caller) (callback : Option ℕ) (e : Event) (c : FdContext)
      → has (registered who callback e c).events e ≡ true
  has-registered who callback reading c = refl
  has-registered who callback writing c = refl

  -- In a valid IOManager with fewer than 2^31 contexts, for an fd with fd * 3 / 2 below 2^31, and
  -- while epoll_ctl succeeds: an event that is not registered, that a running fiber adds, and that
  -- epoll_wait then reports, leads to exactly one call of schedule, on the scheduler of the caller
  -- and with the callback, or else the fiber, that was registered. Every context is then as it was
  -- before addEvent, and the IOManager is valid.
  pub add_event-handle_event :
      (who : Caller) (fd : ℕ) (e : Event) (callback : Option ℕ) (m : IoManager)
      → Valid m
      → IsInt m
      → fd * 3 / 2 < 2 ^ 31
      → who.exec ≡ true
      → has (context fd m).events e ≡ false
      → (m1 m2 : IoManager) × (add_event epoll_ctl who fd e callback m ≡ done (m1, pos 0))
        × (handle_event epoll_ctl (report_of fd e) m1 ≡ done m2)
        × (m2.scheduled
            ≡ m.scheduled ++ record { scheduler = who.scheduler; task = task_of who callback } ∷ [])
        × ((q : ℕ) → context q m2 ≡ context q m)
        × Valid m2
  add_event-handle_event who fd e callback m v few int runs free =
      let c = context fd m in
      let ok = works (if any c.events then ctl_mod else ctl_add) fd (with_event c.events e) in
      let (m1, e1, v1, h1, _, cs1, s1) =
        add_event_lem epoll_ctl who fd e callback m v few int runs free in
      let c1 : context fd m1 ≡ registered who callback e c =
        cs1 fd ∙ rw ((==_iff fd fd).1 refl, ok) refl in
      let (m2, e2, b) =
        fires fd e m1 (registered who callback e c) v1 h1 c1 (has-registered who callback e c) in
      (
        m1,
        m2,
        e1 ∙ rw ok refl,
        e2,
        b.scheduled ∙ rw (s1, owed-registered who callback e c) refl,
        (λ q. b.contexts q ∙ rest m1 cs1 ok q),
        b.valid,
      )
    where
      rest :
          (m1 : IoManager)
          → ((q : ℕ)
              → context q m1 ≡ (
                  if q == fd
                  then (if epoll_ctl
                        (if any (context fd m).events then ctl_mod else ctl_add)
                        fd
                        (with_event (context fd m).events e)
                      then registered who callback e (context fd m)
                      else context fd m)
                  else context q m))
          → epoll_ctl
              (if any (context fd m).events then ctl_mod else ctl_add)
              fd
              (with_event (context fd m).events e)
            ≡ true
          → (q : ℕ)
          → (if q == fd
              then clear true e (registered who callback e (context fd m))
              else context q m1)
            ≡ context q m
      rest m1 cs1 ok q = elim (Bool-cases (q == fd)) [
        | inl same ↦ rw same (
            back who callback e (context fd m) (context-Armed fd m v) free
            ∙ rw ((==_iff q fd).0 same) refl)
        | inr other ↦ rw other (cs1 q ∙ rw other refl)
      ]

nowhere : (fd : ℕ) (cs : List FdContext) → length cs ≤ fd → context_at fd cs ≡ undefined
unfolding context_at
nowhere fd [] h = refl
nowhere zero (c ∷ cs) h = absurd (omega arith)
nowhere (suc fd) (c ∷ cs) h = nowhere fd cs (omega arith)

length-context_resize :
    (size : ℕ) (m : IoManager) → length (context_resize size m).fd_contexts ≡ size
unfolding context_resize
length-context_resize size m = omega (
  arith,
  length-append (take size m.fd_contexts) (replicate (size - length m.fd_contexts) new_context),
  length-take size m.fd_contexts,
  length-replicate (size - length m.fd_contexts) new_context,
)

-- When two threads in addEvent, for the fds a and b with b * 1.5 at most a, both find the vector
-- too short under the read lock, and that of a resizes it first, then that of b, which does not
-- look again, cuts the context of a off: m_fdContexts[a] is then out of range.
pub context_resize-context_at :
    (a b : ℕ) (m : IoManager)
    → too_short a m ≡ true
    → too_short b m ≡ true
    → b * 3 / 2 ≤ a
    → context_at a (context_resize (b * 3 / 2) (context_resize (a * 3 / 2) m)).fd_contexts
      ≡ undefined
context_resize-context_at a b m sa sb below =
    nowhere a _
      (omega (arith, length-context_resize (b * 3 / 2) (context_resize (a * 3 / 2) m), below))

-- When a report of epoll_wait names READ and WRITE of an fd, of which only WRITE is still
-- registered when idle() has taken the lock of the context, the assertion of triggerEvent fails,
-- if epoll_ctl succeeds.
pub handle_event-assert_failed :
    (epoll_ctl : EpollCtl) (r : Report) (m : IoManager)
    → r.fd < length m.fd_contexts
    → r.input ≡ true
    → r.output ≡ true
    → (context r.fd m).events.read ≡ false
    → (context r.fd m).events.write ≡ true
    → epoll_ctl ctl_del r.fd (record { read = false; write = false }) ≡ true
    → handle_event epoll_ctl r m ≡ assert_failed
unfolding handle_event trigger_if trigger trigger_event
handle_event-assert_failed epoll_ctl r m h i o no_read some_write works =
    rw (context_at-context_of r.fd m.fd_contexts h, i, o, no_read, some_write, works) refl

-- The time that idle() passes to epoll_wait, for a next timer less than 2^32 ms away: it is never more
-- than what is left until that timer, and it is at most 3000 ms exactly when that is less than 2^31.
-- (From there on the int is negative, and epoll_wait waits without a limit.)
pub wait_timeout_lem :
    (next_timeout : ℕ)
    → next_timeout < 2 ^ 32
    → (wait_timeout next_timeout ≤ next_timeout)
      × ((wait_timeout next_timeout ≤ 3000) ↔ (next_timeout < 2 ^ 31))
unfolding wait_timeout
wait_timeout_lem n h =
    (ground (arith, h), ((λ le. ground (arith, h, le)), (λ lt. ground (arith, h, lt))))
