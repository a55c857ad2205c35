-- ===== src/IoManager/Fire.antt =====
-- triggerEvent and what is built on it: cancelEvent, cancelAll, and the loop of idle over the reports
-- of epoll_wait.
use c.Prelude.{
  ℕ, ◌+◌, ◌%◌, ◌^◌, ◌≡◌, refl, sym, ◌∙◌, ◌<◌, Bool, true, false, List, [], ◌∷◌, ◌++◌, ◌==◌, ==_iff,
  if◌then◌else◌, length, arith, Bool-cases, inl, inr, none, some,
}
use mathlib.Core.Path.{subst}
use mathlib.Core.List.{append-nil, append_assoc}
use c.IoManager.{
  IoManager, EventContext, FdContext, Task, cb, fiber, Event, reading, writing, has, without_event,
  reset_context, get_context, set_context, set_events, Scheduled, schedule_of, trigger_event,
  trigger, trigger_if, done, put_context, one_less,
}
use c.IoManager.Contexts.{
  bits, count, context_of, context_at-context_of, length-put_context, count-put_context,
  context_of-put_context, All-put_context, All-context_of,
}
use c.IoManager.Valid.{Valid, armed, ArmedAt, Armed, ArmedAt-has}

-- The call of schedule that a context is to lead to when its event comes.
unfoldable pub owed : EventContext → List Scheduled
owed x = elim x.scheduler [
  | none ↦ []
  | some s ↦ elim x.cb [
    | some f ↦ record { scheduler = s; task = cb f } ∷ []
    | none ↦ elim x.fiber [ some f ↦ record { scheduler = s; task = fiber f } ∷ [] | none ↦ [] ]
  ]
]

-- The context of an fd without the event e, when `test` holds.
abbrev pub clear : Bool → Event → FdContext → FdContext
clear false e c = c
clear true e c = set_context (set_events c (without_event c.events e)) e reset_context

schedule_of-armed :
    (s : ℕ) (t : Task)
    → schedule_of (armed s t).scheduler (armed s t) ≡ done (reset_context, owed (armed s t))
unfolding schedule_of owed
schedule_of-armed s (cb f) = refl
schedule_of-armed s (fiber f) = refl

trigger_event-armed :
    (e : Event) (c : FdContext)
    → Armed c
    → has c.events e ≡ true
    → trigger_event e c ≡ done (clear true e c, owed (get_context c e))
unfolding trigger_event
trigger_event-armed e c a h =
    let (s, t, q) = subst (λ b. ArmedAt b (get_context c e)) h (ArmedAt-has e c a) in
    rw (h, q, schedule_of-armed s t) refl

pub clear-Armed : (test : Bool) (e : Event) (c : FdContext) → Armed c → Armed (clear test e c)
clear-Armed false e c a = a
clear-Armed true reading c a = (refl, a.1)
clear-Armed true writing c a = (a.0, refl)

pub bits-clear :
    (e : Event) (c : FdContext)
    → has c.events e ≡ true
    → bits (clear true e c).events + 1 ≡ bits c.events
bits-clear reading c h = rw h (omega arith)
bits-clear writing c h = rw h (omega arith)

-- The context of fd has become c', and xs has been scheduled.
pub record Becomes (fd : ℕ) (c' : FdContext) (xs : List Scheduled) (m m' : IoManager) : Type 0 where
  pub valid : Valid m'
  pub contexts :
      (q : ℕ) → context_of q m'.fd_contexts ≡ (if q == fd then c' else context_of q m.fd_contexts)
  pub scheduled : m'.scheduled ≡ m.scheduled ++ xs
  pub same_length : length m'.fd_contexts ≡ length m.fd_contexts

abbrev pub context : ℕ → IoManager → FdContext
context fd m = context_of fd m.fd_contexts

pub context-Armed : (fd : ℕ) (m : IoManager) → Valid m → Armed (context fd m)
context-Armed fd m v = All-context_of Armed fd m.fd_contexts (refl, refl) v.armed

-- One event fewer is registered.
pub one_less-count :
    (fd : ℕ) (c' : FdContext) (m : IoManager)
    → Valid m
    → fd < length m.fd_contexts
    → bits c'.events + 1 ≡ bits (context fd m).events
    → one_less m.pending_event_count ≡ count (put_context fd c' m.fd_contexts) % 2 ^ 64
one_less-count fd c' m v h b = omega (arith, v.counted, count-put_context fd c' m.fd_contexts h, b)

pub same-Becomes : (fd : ℕ) (m : IoManager) → Valid m → Becomes fd (context fd m) [] m m
same-Becomes fd m v = record {
  valid = v;
  contexts = λ q. itself q;
  scheduled = sym (append-nil m.scheduled);
  same_length = refl;
}
  where
    itself : (q : ℕ) → context q m ≡ (if q == fd then context fd m else context q m)
    itself q = elim (Bool-cases (q == fd)) [
      | inl e ↦ rw (e, (==_iff q fd).0 e) refl
      | inr e ↦ rw e refl
    ]

module _ (fd : ℕ) (m : IoManager) (v : Valid m) (h : fd < length m.fd_contexts) where
  pub trigger-Becomes :
      (e : Event)
      → has (context fd m).events e ≡ true
      → (m' : IoManager) × (trigger fd e m ≡ done m')
        × Becomes fd (clear true e (context fd m)) (owed (get_context (context fd m) e)) m m'
  unfolding trigger
  trigger-Becomes e r =
      let c' = clear true e (context fd m) in
      (
        record {
          fd_contexts = put_context fd c' m.fd_contexts;
          pending_event_count = one_less m.pending_event_count;
          scheduled = m.scheduled ++ owed (get_context (context fd m) e);
        },
        rw
            (
              context_at-context_of fd m.fd_contexts h,
              trigger_event-armed e (context fd m) (context-Armed fd m v) r,
            )
            refl,
        record {
          valid = record {
            armed =
                All-put_context Armed fd c' m.fd_contexts
                  (clear-Armed true e (context fd m) (context-Armed fd m v)) v.armed;
            counted = one_less-count fd c' m v h (bits-clear e (context fd m) r);
            enough = omega (arith, v.enough, length-put_context fd c' m.fd_contexts);
          };
          contexts = λ q. context_of-put_context q fd c' m.fd_contexts h;
          scheduled = refl;
          same_length = length-put_context fd c' m.fd_contexts;
        },
      )

  trigger_if-Becomes :
      (test : Bool) (e : Event)
      → (test ≡ true → has (context fd m).events e ≡ true)
      → (m' : IoManager) × (trigger_if test fd e m ≡ done m')
        × Becomes fd
            (clear test e (context fd m))
            (if test then owed (get_context (context fd m) e) else [])
            m
            m'
  unfolding trigger_if
  trigger_if-Becomes true e r = trigger-Becomes e (r refl)
  trigger_if-Becomes false e r = (m, refl, same-Becomes fd m v)

Becomes-twice :
    (fd : ℕ) (c1 c2 : FdContext) (xs ys : List Scheduled) (m m1 m2 : IoManager)
    → Becomes fd c1 xs m m1
    → Becomes fd c2 ys m1 m2
    → Becomes fd c2 (xs ++ ys) m m2
Becomes-twice fd c1 c2 xs ys m m1 m2 b1 b2 = record {
  valid = b2.valid;
  contexts = λ q. b2.contexts q ∙ elim (Bool-cases (q == fd)) [
    | inl e ↦ rw e refl
    | inr e ↦ rw e (b1.contexts q ∙ rw e refl)
  ];
  scheduled = b2.scheduled ∙ rw b1.scheduled (append_assoc m.scheduled xs ys);
  same_length = b2.same_length ∙ b1.same_length;
}

clear-other : (test : Bool) (c : FdContext) → get_context (clear test reading c) writing ≡ c.write
clear-other true c = refl
clear-other false c = refl

pub has-other : (test : Bool) (c : FdContext) → (clear test reading c).events.write ≡ c.events.write
has-other true c = refl
has-other false c = refl

-- What is scheduled when the events in `rd` and `wr` fire.
abbrev pub fired : Bool → Bool → FdContext → List Scheduled
fired rd wr c = (if rd then owed c.read else []) ++ (if wr then owed c.write else [])

abbrev pub cleared : Bool → Bool → FdContext → FdContext
cleared rd wr c = clear wr writing (clear rd reading c)

module _ (fd : ℕ) (m : IoManager) (v : Valid m) (h : fd < length m.fd_contexts) where
  pub both-Becomes :
      (rd wr : Bool)
      → (rd ≡ true → (context fd m).events.read ≡ true)
      → (wr ≡ true → (context fd m).events.write ≡ true)
      → (m1 m2 : IoManager) × (trigger_if rd fd reading m ≡ done m1)
        × (context fd m1 ≡ clear rd reading (context fd m))
        × (length m1.fd_contexts ≡ length m.fd_contexts)
        × (trigger_if wr fd writing m1 ≡ done m2)
        × Becomes fd (cleared rd wr (context fd m)) (fired rd wr (context fd m)) m m2
  both-Becomes rd wr hr hw =
      let (m1, e1, b1) = trigger_if-Becomes fd m v h rd reading hr in
      let c1 : context fd m1 ≡ clear rd reading (context fd m) =
        b1.contexts fd ∙ rw ((==_iff fd fd).1 refl) refl in
      let (m2, e2, b2) =
        trigger_if-Becomes fd m1 b1.valid (omega (arith, h, b1.same_length)) wr writing
          (λ w. rw (c1, has-other rd (context fd m)) (hw w)) in
      let b3 =
        subst
          (λ c.
            Becomes fd (clear wr writing c) (if wr then owed (get_context c writing) else []) m1 m2)
          c1 b2 in
      let b4 =
        subst (λ x. Becomes fd (cleared rd wr (context fd m)) (if wr then owed x else []) m1 m2)
          (clear-other rd (context fd m)) b3 in
      (
        m1,
        m2,
        e1,
        c1,
        b1.same_length,
        e2,
        Becomes-twice fd (clear rd reading (context fd m)) _ _ _ m m1 m2 b1 b4,
      )
