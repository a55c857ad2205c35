-- ===== src/IoManager/Register.antt =====
-- addEvent and delEvent, and an event from its registration to its callback.
use mathlib.Core.Path.{subst}
use c.Prelude.{
  ℕ, ◌+◌, ◌*◌, ◌/◌, ◌^◌, ◌≡◌, refl, sym, ◌∙◌, ◌<◌, Bool, true, false, ◌&&◌, [], ◌==◌, Option, none,
  some, if◌then◌else◌, length, arith, Bool-cases, inl, inr,
}
use c.Prelude.Int.{pos, negsuc}
use c.IoManager.{
  IoManager, FdContext, Event, Task, cb, fiber, reading, writing, has, any, with_event,
  without_event, new_context, reset_context, get_context, set_context, set_events, done,
  put_context, EpollCtl, ctl_mod, ctl_add, too_short, ensure_context, Caller, arm, add_event,
  del_event, one_more, one_less,
}
use c.IoManager.Contexts.{
  bits, context_at-context_of, length-put_context, count-put_context, context_of-put_context,
  All-put_context,
}
use c.IoManager.Valid.{
  IsInt, too_short-true, too_short-false, Valid, armed, ArmedAt, Armed, ArmedAt-has,
  ensure_context-IsEnsured,
}
use c.IoManager.Fire.{
  clear, Becomes, context, context-Armed, same-Becomes, one_less-count, clear-Armed, bits-clear,
}
use c.IoManager.Cancel.{leave, beyond}

-- What addEvent registers: the callback, or else the fiber that calls it.
abbrev pub task_of : Caller → Option ℕ → Task
task_of who (some f) = cb f
task_of who none = fiber who.fiber

abbrev pub registered : Caller → Option ℕ → Event → FdContext → FdContext
registered who callback e c =
    set_context (set_events c (with_event c.events e)) e
      (armed who.scheduler (task_of who callback))

arm-reset :
    (who : Caller) (callback : Option ℕ)
    → who.exec ≡ true
    → arm who callback reset_context ≡ done (armed who.scheduler (task_of who callback))
unfolding arm
arm-reset who (some f) x = refl
arm-reset who none x = rw x refl

registered-Armed :
    (who : Caller) (callback : Option ℕ) (e : Event) (c : FdContext)
    → Armed c
    → Armed (registered who callback e c)
registered-Armed who callback reading c a = ((who.scheduler, task_of who callback, refl), a.1)
registered-Armed who callback writing c a = (a.0, (who.scheduler, task_of who callback, refl))

bits-registered :
    (who : Caller) (callback : Option ℕ) (e : Event) (c : FdContext)
    → has c.events e ≡ false
    → bits (registered who callback e c).events ≡ bits c.events + 1
bits-registered who callback reading c h = rw h (omega arith)
bits-registered who callback writing c h = rw h (omega arith)

module _ (epoll_ctl : EpollCtl) (who : Caller) (fd : ℕ) (e : Event) (callback : Option ℕ) where
  abbrev pub add_succeeds : IoManager → Bool
  add_succeeds m =
      epoll_ctl (if any (context fd m).events then ctl_mod else ctl_add) fd
        (with_event (context fd m).events e)

  -- The context of fd after addEvent.
  abbrev pub after_add : IoManager → FdContext
  after_add m = if add_succeeds m then registered who callback e (context fd m) else context fd m

  -- After the vector has been made long enough.
  module _ (m : IoManager) (v : Valid m) (h : fd < length m.fd_contexts)
      (free : has (context fd m).events e ≡ false) where
    put-Becomes : Becomes fd (registered who callback e (context fd m)) [] m (record m {
      fd_contexts = put_context fd (registered who callback e (context fd m)) m.fd_contexts;
      pending_event_count = one_more m.pending_event_count;
    })
    put-Becomes =
        let c' = registered who callback e (context fd m) in
        record {
          valid = record {
            armed =
                All-put_context Armed fd c' m.fd_contexts
                  (registered-Armed who callback e (context fd m) (context-Armed fd m v)) v.armed;
            counted = omega (
              arith,
              v.counted,
              count-put_context fd c' m.fd_contexts h,
              bits-registered who callback e (context fd m) free,
            );
            enough = omega (arith, v.enough, length-put_context fd c' m.fd_contexts);
          };
          contexts = λ q. context_of-put_context q fd c' m.fd_contexts h;
          scheduled = (same-Becomes fd m v).scheduled;
          same_length = length-put_context fd c' m.fd_contexts;
        }

    unused : get_context (context fd m) e ≡ reset_context
    unused =
        subst (λ b. ArmedAt b (get_context (context fd m) e)) free
          (ArmedAt-has e (context fd m) (context-Armed fd m v))

  -- In a valid IOManager with fewer than 2^31 contexts, for an fd with fd * 3 / 2 below 2^31:
  -- addEvent of an event that is not registered, from a running fiber, never fails an assertion.
  -- It returns 0 exactly when epoll_ctl succeeds: then the event is registered, with the callback
  -- or else the calling fiber, and with the calling scheduler. Otherwise it returns -1 and
  -- registers nothing. Nothing is scheduled, no other fd is touched, the IOManager stays valid, and
  -- it still has fewer than 2^31 contexts.
  pub add_event_lem :
      (m : IoManager)
      → Valid m
      → IsInt m
      → fd * 3 / 2 < 2 ^ 31
      → who.exec ≡ true
      → has (context fd m).events e ≡ false
      → (m' : IoManager) × (add_event epoll_ctl who fd e callback m
          ≡ done (m', if add_succeeds m then pos 0 else negsuc 0))
        × Valid m'
        × (fd < length m'.fd_contexts)
        × IsInt m'
        × ((q : ℕ) → context q m' ≡ (if q == fd then after_add m else context q m))
        × (m'.scheduled ≡ m.scheduled)
  unfolding add_event
  add_event_lem m v few int runs free =
      let g = ensure_context-IsEnsured fd m v few int in
      let m1 = ensure_context fd m in
      let at = context_at-context_of fd m1.fd_contexts g.room in
      let free1 : has (context fd m1).events e ≡ false = rw (g.kept fd) free in
      elim (Bool-cases (add_succeeds m)) [
        | inl succeeds ↦
            let b = put-Becomes m1 g.valid g.room free1 in
            (
              _,
              rw
                  (
                    at,
                    free1,
                    unused m1 g.valid g.room free1,
                    arm-reset who callback runs,
                    g.kept fd,
                    succeeds,
                  )
                  refl,
              b.valid,
              omega (arith, g.room, b.same_length),
              omega (arith, g.few, b.same_length),
              (λ q. b.contexts q ∙ rw (g.kept fd, g.kept q, succeeds) refl),
              rw (b.scheduled, g.scheduled) (sym (same-Becomes fd m v).scheduled),
            )
        | inr fails ↦ (
          m1,
          rw (at, free1, g.kept fd, fails) refl,
          g.valid,
          g.room,
          g.few,
          (λ q. g.kept q ∙ (same-Becomes fd m v).contexts q ∙ rw fails refl),
          g.scheduled,
        )
      ]

-- In a valid IOManager with fewer than 2^31 contexts delEvent(fd, event) returns true exactly when the event is registered and
-- epoll_ctl succeeds: then the event is no longer registered, and its callback or fiber is
-- dropped. Otherwise nothing changes. Nothing is scheduled, no other fd or event is touched, and
-- the IOManager stays valid.
pub del_event_lem :
    (epoll_ctl : EpollCtl) (fd : ℕ) (e : Event) (m : IoManager)
    → Valid m
    → IsInt m
    → (m' : IoManager) × (r : Bool) × (r ≡ (
        has (context fd m).events e && leave epoll_ctl fd (without_event (context fd m).events e)))
      × (del_event epoll_ctl fd e m ≡ done (m', r))
      × Becomes fd (clear r e (context fd m)) [] m m'
unfolding del_event
del_event_lem epoll_ctl fd e m v few = elim (Bool-cases (too_short fd m)) [
  | inl short ↦ (
    m,
    false,
    rw (beyond fd m.fd_contexts (too_short-true fd m few short)) (nothing e),
    rw short refl,
    same-Becomes fd m v,
  )
  | inr ok ↦
      let h : fd < length m.fd_contexts = too_short-false fd m few ok in
      let at = context_at-context_of fd m.fd_contexts h in
      elim (Bool-cases (has (context fd m).events e)) [
        | inr absent ↦ (m, false, rw absent refl, rw (ok, at, absent) refl, same-Becomes fd m v)
        | inl here ↦
            elim (Bool-cases (leave epoll_ctl fd (without_event (context fd m).events e))) [
              | inr fails ↦ (
                m,
                false,
                rw (here, fails) refl,
                rw (ok, at, here, fails) refl,
                same-Becomes fd m v,
              )
              | inl succeeds ↦ (
                _,
                true,
                rw (here, succeeds) refl,
                rw (ok, at, here, succeeds) refl,
                dropped h here,
              )
            ]
      ]
]
  where
    nothing :
        (e : Event)
        → false
          ≡ (has new_context.events e && leave epoll_ctl fd (without_event new_context.events e))
    nothing reading = refl
    nothing writing = refl

    dropped :
        fd < length m.fd_contexts
        → has (context fd m).events e ≡ true
        → Becomes fd (clear true e (context fd m)) [] m (record m {
          fd_contexts = put_context fd (clear true e (context fd m)) m.fd_contexts;
          pending_event_count = one_less m.pending_event_count;
        })
    dropped h here =
        let c' = clear true e (context fd m) in
        record {
          valid = record {
            armed =
                All-put_context Armed fd c' m.fd_contexts
                  (clear-Armed true e (context fd m) (context-Armed fd m v)) v.armed;
            counted = one_less-count fd c' m v h (bits-clear e (context fd m) here);
            enough = omega (arith, v.enough, length-put_context fd c' m.fd_contexts);
          };
          contexts = λ q. context_of-put_context q fd c' m.fd_contexts h;
          scheduled = (same-Becomes fd m v).scheduled;
          same_length = length-put_context fd c' m.fd_contexts;
        }
