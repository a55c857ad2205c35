-- ===== src/IoManager/Context.antt =====
-- iomanager.h, iomanager.cc: the context of a file descriptor, the events registered in it, and
-- triggerEvent; and the vector of the contexts.
use c.Prelude.{
  ℕ, zero, suc, Bool, true, false, ◌||◌, List, [], ◌∷◌, Option, none, some, if◌then◌else◌,
}
use c.Prelude.Outcome.{Outcome, done, assert_failed, undefined, ◌>>=◌}

pub data Event : Type 0 where
  reading writing : Event

-- A set of events: the bits READ and WRITE, which are EPOLLIN and EPOLLOUT.
pub record Events : Type 0 where
  pub read : Bool
  pub write : Bool

abbrev pub no_events : Events
no_events = record { read = false; write = false }

-- events & event, events | event, and events & ~event
abbrev pub has : Events → Event → Bool
has es reading = es.read
has es writing = es.write

abbrev pub with_event : Events → Event → Events
with_event es reading = record es { read = true }
with_event es writing = record es { write = true }

abbrev pub without_event : Events → Event → Events
without_event es reading = record es { read = false }
without_event es writing = record es { write = false }

abbrev pub any : Events → Bool
any es = es.read || es.write

-- IOManager::FdContext::EventContext
pub record EventContext : Type 0 where
  pub scheduler : Option ℕ
  pub fiber : Option ℕ
  pub cb : Option ℕ

pub record FdContext : Type 0 where
  pub read : EventContext
  pub write : EventContext
  pub events : Events

-- What a scheduler is given to run.
pub data Task : Type 0 where
  fiber cb : ℕ → Task

-- A call scheduler->schedule(task).
pub record Scheduled : Type 0 where
  pub scheduler : ℕ
  pub task : Task

-- FdContext::resetContext(ctx)
abbrev pub reset_context : EventContext
reset_context = record { scheduler = none; fiber = none; cb = none }

abbrev pub new_context : FdContext
new_context = record { read = reset_context; write = reset_context; events = no_events }

-- FdContext::getContext(event)
abbrev pub get_context : FdContext → Event → EventContext
get_context c reading = c.read
get_context c writing = c.write

abbrev pub set_context : FdContext → Event → EventContext → FdContext
set_context c reading x = record c { read = x }
set_context c writing x = record c { write = x }

abbrev pub set_events : FdContext → Events → FdContext
set_events c es = record c { events = es }

-- The call of schedule in triggerEvent, which takes the callback, or else the fiber, out of ctx. A
-- null fiber is not put into the queue.
unfoldable pub schedule_of : Option ℕ → EventContext → Outcome (EventContext × List Scheduled)
schedule_of none x = undefined
schedule_of (some s) x = elim x.cb [
  | some f ↦ done (
    record { scheduler = none; fiber = x.fiber; cb = none },
    record { scheduler = s; task = cb f } ∷ [],
  )
  | none ↦ elim x.fiber [
    | some f ↦ done (
      record { scheduler = none; fiber = none; cb = none },
      record { scheduler = s; task = fiber f } ∷ [],
    )
    | none ↦ done (record { scheduler = none; fiber = none; cb = none }, [])
  ]
]

-- FdContext::triggerEvent(event)
unfoldable pub trigger_event : Event → FdContext → Outcome (FdContext × List Scheduled)
trigger_event e c =
    let c' = set_events c (without_event c.events e) in
    if has c.events e
    then (schedule_of (get_context c e).scheduler (get_context c e) >>= λ r.
        done (set_context c' e r.0, r.1))
    else assert_failed

-- m_fdContexts[fd]
unfoldable pub context_at : ℕ → List FdContext → Outcome FdContext
context_at fd [] = undefined
context_at zero (c ∷ cs) = done c
context_at (suc fd) (c ∷ cs) = context_at fd cs

unfoldable pub put_context : ℕ → FdContext → List FdContext → List FdContext
put_context fd c' [] = []
put_context zero c' (c ∷ cs) = c' ∷ cs
put_context (suc fd) c' (c ∷ cs) = c ∷ put_context fd c' cs
