-- ===== src/IoManager.antt =====
-- iomanager.h, iomanager.cc: the events of the file descriptors, and what becomes of their callbacks
-- and fibers. An fd is a number, not negative, and an event of a call is READ or WRITE.
mod Context
pub mod Contexts
pub mod Valid
pub mod Fire
pub mod Cancel
pub mod Register
pub mod Race
pub mod History
mod Tests
use c.Prelude.{
  ℕ, zero, suc, ◌+◌, ◌-◌, ◌*◌, ◌/◌, ◌%◌, ◌^◌, Bool, true, false, not, ◌&&◌, ◌||◌, List, [], ◌∷◌,
  ◌++◌, Option, none, some, ltb, leb, ◌==◌, if◌then◌else◌, length, take, replicate,
}
use c.Prelude.Int.{ℤ, pos, negsuc, int_at_most}
pub use c.Prelude.Outcome.{Outcome, done, assert_failed, undefined, ◌>>=◌}
unfoldable pub use Context.*

pub record IoManager : Type 0 where
  pub fd_contexts : List FdContext
  pub pending_event_count : ℕ
  -- The calls of schedule, in order.
  pub scheduled : List Scheduled

-- IOManager::contextResize(size): a smaller size cuts contexts off.
unfoldable pub context_resize : ℕ → IoManager → IoManager
context_resize size m = record m {
  fd_contexts = take size m.fd_contexts ++ replicate (size - length m.fd_contexts) new_context;
}

-- ++m_pendingEventCount and --m_pendingEventCount
abbrev pub one_more : ℕ → ℕ
one_more n = (n + 1) % 2 ^ 64

abbrev pub one_less : ℕ → ℕ
one_less n = (n + 2 ^ 64 - 1) % 2 ^ 64

pub init : IoManager
init = context_resize 32 (record { fd_contexts = []; pending_event_count = 0; scheduled = [] })

-- epoll_ctl(m_epfd, op, fd, &epevent): the operation, the fd and the events; true if it returns 0.
pub data Op : Type 0 where
  ctl_add ctl_mod ctl_del : Op

abbrev pub EpollCtl : Type 0
EpollCtl = Op → ℕ → Events → Bool

-- The first part of addEvent: under the read lock it looks whether the vector is too short for fd, and
-- then under the write lock resizes it. The size is compared as an int.
unfoldable pub too_short : ℕ → IoManager → Bool
too_short fd m = int_at_most (length m.fd_contexts) fd

pub ensure_context : ℕ → IoManager → IoManager
ensure_context fd m = if too_short fd m then context_resize (fd * 3 / 2) m else m

-- Who calls addEvent: Scheduler::GetThis() and Fiber::GetThis(), whose state is EXEC or not.
pub record Caller : Type 0 where
  pub scheduler : ℕ
  pub fiber : ℕ
  pub exec : Bool

-- The assertion that an event context is unused, and what addEvent puts into it.
abbrev is_none : Option ℕ → Bool
is_none none = true
is_none (some x) = false

unfoldable pub arm : Caller → Option ℕ → EventContext → Outcome EventContext
arm who callback x =
    if is_none x.scheduler && is_none x.fiber && is_none x.cb
    then elim callback [
      | some f ↦ done (record { scheduler = some who.scheduler; fiber = none; cb = some f })
      | none ↦
          if who.exec
          then done (record { scheduler = some who.scheduler; fiber = some who.fiber; cb = none })
          else assert_failed
    ]
    else assert_failed

-- IOManager::addEvent(fd, event, cb)
pub add_event : EpollCtl → Caller → ℕ → Event → Option ℕ → IoManager → Outcome (IoManager × ℤ)
add_event epoll_ctl who fd e callback m =
    let m' = ensure_context fd m in
    context_at fd m'.fd_contexts >>= λ c.
    let es = with_event c.events e in
    if has c.events e
    then assert_failed
    else if not (epoll_ctl (if any c.events then ctl_mod else ctl_add) fd es)
    then done (m', negsuc 0)
    else (arm who callback (get_context c e) >>= λ x. done (
      record m' {
        fd_contexts = put_context fd (set_context (set_events c es) e x) m'.fd_contexts;
        pending_event_count = one_more m'.pending_event_count;
      },
      pos 0,
    ))

-- IOManager::delEvent(fd, event)
pub del_event : EpollCtl → ℕ → Event → IoManager → Outcome (IoManager × Bool)
del_event epoll_ctl fd e m =
    if too_short fd m
    then done (m, false)
    else (context_at fd m.fd_contexts >>= λ c.
        let es = without_event c.events e in
        if not (has c.events e)
        then done (m, false)
        else if not (epoll_ctl (if any es then ctl_mod else ctl_del) fd es)
        then done (m, false)
        else done (
          record m {
            fd_contexts =
                put_context fd (set_context (set_events c es) e reset_context) m.fd_contexts;
            pending_event_count = one_less m.pending_event_count;
          },
          true,
        ))

-- fd_ctx->triggerEvent(event); --m_pendingEventCount;
unfoldable pub trigger : ℕ → Event → IoManager → Outcome IoManager
trigger fd e m = context_at fd m.fd_contexts >>= λ c. trigger_event e c >>= λ r. done (record {
  fd_contexts = put_context fd r.0 m.fd_contexts;
  pending_event_count = one_less m.pending_event_count;
  scheduled = m.scheduled ++ r.1;
})

-- IOManager::cancelEvent(fd, event)
pub cancel_event : EpollCtl → ℕ → Event → IoManager → Outcome (IoManager × Bool)
cancel_event epoll_ctl fd e m =
    if too_short fd m
    then done (m, false)
    else (context_at fd m.fd_contexts >>= λ c.
        let es = without_event c.events e in
        if not (has c.events e)
        then done (m, false)
        else if not (epoll_ctl (if any es then ctl_mod else ctl_del) fd es)
        then done (m, false)
        else (trigger fd e m >>= λ m'. done (m', true)))

-- if(test) { fd_ctx->triggerEvent(event); --m_pendingEventCount; }
unfoldable pub trigger_if : Bool → ℕ → Event → IoManager → Outcome IoManager
trigger_if test fd e m = if test then trigger fd e m else done m

-- IOManager::cancelAll(fd)
pub cancel_all : EpollCtl → ℕ → IoManager → Outcome (IoManager × Bool)
cancel_all epoll_ctl fd m =
    if too_short fd m
    then done (m, false)
    else (context_at fd m.fd_contexts >>= λ c.
        if not (any c.events)
        then done (m, false)
        else if not (epoll_ctl ctl_del fd no_events)
        then done (m, false)
        else (trigger_if c.events.read fd reading m >>= λ m1. context_at fd m1.fd_contexts >>= λ c1.
            trigger_if c1.events.write fd writing m1 >>= λ m2.
            context_at fd m2.fd_contexts >>= λ c2.
            if any c2.events then assert_failed else done (m2, true)))

-- What epoll_wait reports of an fd: EPOLLIN, EPOLLOUT, and whether EPOLLERR or EPOLLHUP.
pub record Report : Type 0 where
  pub fd : ℕ
  pub input : Bool
  pub output : Bool
  pub failed : Bool

-- The events that a report stands for: after an error, all that are registered too.
abbrev pub real_events : Report → Events → Events
real_events r es = record {
  read = r.input || (r.failed && es.read);
  write = r.output || (r.failed && es.write);
}

-- One round of the loop of idle() over the reports, for an event that is not that of the pipe.
pub handle_event : EpollCtl → Report → IoManager → Outcome IoManager
handle_event epoll_ctl r m = context_at r.fd m.fd_contexts >>= λ c.
    let real = real_events r c.events in
    let left : Events = record {
      read = c.events.read && not real.read;
      write = c.events.write && not real.write;
    } in
    if not ((c.events.read && real.read) || (c.events.write && real.write))
    then done m
    else if not (epoll_ctl (if any left then ctl_mod else ctl_del) r.fd left)
    then done m
    else (trigger_if real.read r.fd reading m >>= λ m1. trigger_if real.write r.fd writing m1)

-- The loop of idle() over what epoll_wait reports.
pub handle_events : EpollCtl → List Report → IoManager → Outcome IoManager
handle_events epoll_ctl [] m = done m
handle_events epoll_ctl (r ∷ rs) m = handle_event epoll_ctl r m >>= handle_events epoll_ctl rs

-- How long epoll_wait waits: getNextTimer() or 3000 ms, the shorter, where a number from 2^31 on is
-- negative as an int.
unfoldable pub wait_timeout : ℕ → ℕ
wait_timeout next_timeout =
    if next_timeout == 2 ^ 64 - 1
    then 3000
    else if ltb (next_timeout % 2 ^ 32) (2 ^ 31) && ltb 3000 (next_timeout % 2 ^ 32)
    then 3000
    else next_timeout

-- IOManager::stopping(timeout), where the last argument is Scheduler::stopping().
pub is_stopping : ℕ → IoManager → Bool → Bool
is_stopping timeout m scheduler_stopping =
    timeout == 2 ^ 64 - 1 && m.pending_event_count == 0 && scheduler_stopping
