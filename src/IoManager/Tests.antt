-- ===== src/IoManager/Tests.antt =====
-- Runs of the IOManager, and its theorems at concrete inputs.
use c.Prelude.{
  ◌-◌, ◌^◌, ℕ, ◌≡◌, refl, ◌^◌, ◌<◌, Bool, true, false, ◌&&◌, [], ◌∷◌, ◌++◌, ◌==◌, none, some, arith,
  length, if◌then◌else◌,
}
use c.Prelude.Int.{pos, int_at_most}
use c.IoManager.{
  del_event, is_stopping, new_context, any, IoManager, EpollCtl, Caller, Report, FdContext, done,
  assert_failed, reading, writing, cb, fiber, init, context_resize, ensure_context, too_short,
  context_at, put_context, arm, add_event, cancel_all, handle_event, any, ctl_del, no_events,
  reset_context,
}
use c.IoManager.Contexts.{context_of, count, All-put_context}
use c.IoManager.Valid.{Valid, IsInt, init-Valid, init-IsInt, armed, Armed}
use c.IoManager.Fire.{Becomes, cleared, fired, context}
use c.IoManager.Cancel.{handles, real_of, cancel_all_lem, handle_event_lem}
use c.IoManager.Register.{after_add, add_event_lem}
use c.IoManager.History.{Reach, here, next, adds, deletes, Reach-is_stopping}
use c.IoManager.Race.{report_of, add_event-handle_event}

-- A kernel in which epoll_ctl always succeeds.
abbrev works : EpollCtl
works op fd es = true

abbrev who : Caller
who = record { scheduler = 0x1000; fiber = 7; exec = true }

-- fd 3 waits to be read, with a callback, and to be written, with the calling fiber.
abbrev fd_three : FdContext
fd_three = record {
  read = armed 0x1000 (cb 8);
  write = armed 0x1000 (fiber 7);
  events = record { read = true; write = true };
}

abbrev two_events : IoManager
two_events = record init {
  fd_contexts = put_context 3 fd_three init.fd_contexts;
  pending_event_count = 2;
}

add_event_run :
    add_event works who 3 writing none (record init {
      fd_contexts =
          put_context 3
            (record fd_three {
              write = reset_context;
              events = record { read = true; write = false };
            })
            init.fd_contexts;
      pending_event_count = 1;
    })
    ≡ done (two_events, pos 0)
unfolding add_event too_short int_at_most init context_resize ensure_context context_at put_context
    arm
add_event_run = refl

add_event_twice : add_event works who 3 writing none two_events ≡ assert_failed
unfolding add_event too_short int_at_most init context_resize ensure_context context_at put_context
add_event_twice = refl

two_events-Valid : Valid two_events
unfolding init context_resize put_context count
two_events-Valid = record {
  armed =
      All-put_context Armed 3 fd_three init.fd_contexts
        ((0x1000, cb 8, refl), (0x1000, fiber 7, refl)) init-Valid.armed;
  counted = refl;
  enough = omega arith;
}

two_events-IsInt : IsInt two_events
unfolding init context_resize put_context
two_events-IsInt = omega arith

-- From 2^31 contexts on, the vector counts as too short for any fd.
too_many : int_at_most (2 ^ 31) 0 ≡ true
unfolding int_at_most
too_many = refl

add_event_lem_example :
    (m' : IoManager) × (add_event works who 40 reading (some 8) init ≡ done (m', pos 0))
    × Valid m'
    × (40 < length m'.fd_contexts)
    × IsInt m'
    × ((q : ℕ)
        → context q m'
          ≡ (if q == 40 then after_add works who 40 reading (some 8) init else context q init))
    × (m'.scheduled ≡ init.scheduled)
unfolding init context_resize context_of
add_event_lem_example =
    add_event_lem works who 40 reading (some 8) init init-Valid init-IsInt (omega arith) refl refl

cancel_all_lem_example :
    (m' : IoManager) × (r : Bool) × (r
      ≡ (any (context 3 two_events).events && works ctl_del 3 no_events))
    × (cancel_all works 3 two_events ≡ done (m', r))
    × Becomes 3
        (cleared
          (r && (context 3 two_events).events.read)
          (r && (context 3 two_events).events.write)
          (context 3 two_events))
        (fired
          (r && (context 3 two_events).events.read)
          (r && (context 3 two_events).events.write)
          (context 3 two_events))
        two_events
        m'
cancel_all_lem_example = cancel_all_lem works 3 two_events two_events-Valid two_events-IsInt

abbrev hang_up : Report
hang_up = record { fd = 3; input = false; output = true; failed = true }

handle_event_lem_example :
    (m' : IoManager) × (acts : Bool) × (acts ≡ handles works hang_up (context 3 two_events).events)
    × (handle_event works hang_up two_events ≡ done m')
    × Becomes 3
        (cleared
          (acts && (real_of hang_up two_events).read)
          (acts && (real_of hang_up two_events).write)
          (context 3 two_events))
        (fired
          (acts && (real_of hang_up two_events).read)
          (acts && (real_of hang_up two_events).write)
          (context 3 two_events))
        two_events
        m'
unfolding init context_resize put_context context_of
handle_event_lem_example =
    handle_event_lem works hang_up two_events two_events-Valid (omega arith) (λ _. refl) (λ _. refl)

add_event-handle_event_example :
    (m1 m2 : IoManager) × (add_event works who 40 reading none init ≡ done (m1, pos 0))
    × (handle_event works (report_of 40 reading) m1 ≡ done m2)
    × (m2.scheduled ≡ init.scheduled ++ record { scheduler = 0x1000; task = fiber 7 } ∷ [])
    × ((q : ℕ) → context q m2 ≡ context q init)
    × Valid m2
unfolding init context_resize context_of
add_event-handle_event_example =
    add_event-handle_event works (λ _ _ _. refl) who 40 reading none init init-Valid init-IsInt
      (omega arith) refl refl

-- READ of fd 3 has been deleted.
abbrev only_write : IoManager
only_write = record init {
  fd_contexts =
      put_context 3
        (record fd_three { read = reset_context; events = record { read = false; write = true } })
        init.fd_contexts;
  pending_event_count = 1;
}

-- An event of fd 3 that has been added and deleted again.
abbrev added : IoManager
added = record init {
  fd_contexts =
      put_context 3
        (record new_context {
          read = armed 0x1000 (cb 8);
          events = record { read = true; write = false };
        })
        init.fd_contexts;
  pending_event_count = 1;
}

added-Reach : Reach added
unfolding add_event too_short int_at_most init context_resize ensure_context context_at put_context
    arm context_of
added-Reach = next here (adds works who 3 reading (some 8) (omega arith) refl refl refl)

init-Reach : Reach (record added {
  fd_contexts = put_context 3 new_context added.fd_contexts;
  pending_event_count = 0;
})
unfolding del_event too_short int_at_most init context_resize ensure_context context_at put_context
    context_of
init-Reach = next added-Reach (deletes works 3 reading refl)

Reach-is_stopping_example :
    any
      (context 3 (record added {
        fd_contexts = put_context 3 new_context added.fd_contexts;
        pending_event_count = 0;
      })).events
    ≡ false
unfolding init context_resize put_context is_stopping
Reach-is_stopping_example =
    Reach-is_stopping
      (record added {
        fd_contexts = put_context 3 new_context added.fd_contexts;
        pending_event_count = 0;
      })
      (2 ^ 64 - 1) true 3 init-Reach refl
