-- ===== src/FdManager.antt =====
-- fd_manager.h, fd_manager.cc: what is known of a file descriptor, and the FdManager, which holds a
-- pointer to that for each. The kernel's answers (fstat, fcntl) are arguments.
pub mod Get
mod Tests
use c.Prelude.{
  ℕ, zero, suc, ◌+◌, ◌-◌, ◌*◌, ◌/◌, ◌^◌, Bool, true, false, not, ◌&&◌, ◌||◌, List, [], ◌∷◌, ◌++◌,
  Option, none, some, leb, ◌==◌, if◌then◌else◌, length, take, replicate, set, get_or,
}
use c.Prelude.Int.{ℤ, pos, negsuc, int_at_most}
pub use c.Prelude.Outcome.{Outcome, done, assert_failed, undefined, ◌>>=◌}

-- FdCtx
pub record FdCtx : Type 0 where
  pub is_init : Bool
  pub is_socket : Bool
  pub sys_nonblock : Bool
  pub user_nonblock : Bool
  pub is_closed : Bool
  pub fd : ℕ
  pub recv_timeout : ℕ
  pub send_timeout : ℕ

-- What the kernel answers: whether fstat succeeds and S_ISSOCK holds, and whether O_NONBLOCK is set.
pub record Kernel : Type 0 where
  pub fstat : ℕ → Option Bool
  pub nonblock : ℕ → Bool

-- FdCtx::init(): the context, and whether O_NONBLOCK is set by fcntl.
unfoldable pub init : Kernel → FdCtx → FdCtx × Bool
init k c =
    if c.is_init
    then (c, false)
    else (let sock : Bool = elim (k.fstat c.fd) [ none ↦ false | some b ↦ b ] in
        (
          record c {
            is_init = elim (k.fstat c.fd) [ none ↦ false | some b ↦ true ];
            is_socket = sock;
            sys_nonblock = sock;
            user_nonblock = false;
            is_closed = false;
            recv_timeout = 2 ^ 64 - 1;
            send_timeout = 2 ^ 64 - 1;
          },
          sock && not (k.nonblock c.fd),
        ))

-- FdCtx::FdCtx(fd)
unfoldable pub new_ctx : Kernel → ℕ → FdCtx
new_ctx k fd =
    (init k (record {
      is_init = false;
      is_socket = false;
      sys_nonblock = false;
      user_nonblock = false;
      is_closed = false;
      fd = fd;
      recv_timeout = 2 ^ 64 - 1;
      send_timeout = 2 ^ 64 - 1;
    })).0

-- FdCtx::setTimeout(type, v) and getTimeout(type); `receive` tells whether the type is SO_RCVTIMEO.
pub set_timeout : Bool → ℕ → FdCtx → FdCtx
set_timeout receive v c =
    if receive then record c { recv_timeout = v } else record c { send_timeout = v }

pub get_timeout : Bool → FdCtx → ℕ
get_timeout receive c = if receive then c.recv_timeout else c.send_timeout

-- FdCtx::setUserNonblock(v) and setSysNonblock(v)
pub set_user_nonblock : Bool → FdCtx → FdCtx
set_user_nonblock v c = record c { user_nonblock = v }

pub set_sys_nonblock : Bool → FdCtx → FdCtx
set_sys_nonblock v c = record c { sys_nonblock = v }

-- FdManager: m_datas holds addresses of contexts, or null.
pub record FdManager : Type 0 where
  pub datas : List (Option ℕ)
  pub object : ℕ → FdCtx

-- m_datas.resize(n)
unfoldable pub resize : ℕ → List (Option ℕ) → List (Option ℕ)
resize n ds = take n ds ++ replicate (n - length ds) none

-- FdManager::FdManager(), over a memory.
unfoldable pub start : (ℕ → FdCtx) → FdManager
start o = record { datas = resize 64 []; object = o }

-- The first part of get, under the read lock, with the size as an int: what is found, or that a context is to be made.
pub data Found : Type 0 where
  found : Option ℕ → Found
  missing : Found

unfoldable pub look_up : ℕ → Bool → FdManager → Found
look_up fd auto_create m =
    if int_at_most (length m.datas) fd
    then (if auto_create then missing else found none)
    else (elim (get_or m.datas fd none) [
      | some p ↦ found (some p)
      | none ↦ if auto_create then missing else found none
    ])

-- The second part, under the write lock, with the new context at the address p; an index out of range is
-- undefined.
unfoldable pub create : Kernel → ℕ → ℕ → FdManager → Outcome FdManager
create k p fd m =
    let ds = if int_at_most (length m.datas) fd then resize (fd * 3 / 2) m.datas else m.datas in
    if leb (length ds) fd
    then undefined
    else done (record {
      datas = set ds fd (some p);
      object = λ q. if q == p then new_ctx k fd else m.object q;
    })

unfoldable pub finish_get : Kernel → ℕ → ℕ → FdManager → Found → Outcome (FdManager × Option ℕ)
finish_get k p fd m (found r) = done (m, r)
finish_get k p fd m missing = create k p fd m >>= λ m'. done (m', some p)

-- FdManager::get(fd, auto_create); a negative fd but -1 is an index out of range.
unfoldable pub get : Kernel → ℕ → ℤ → Bool → FdManager → Outcome (FdManager × Option ℕ)
get k p (negsuc zero) auto_create m = done (m, none)
get k p (negsuc (suc n)) auto_create m = undefined
get k p (pos fd) auto_create m = finish_get k p fd m (look_up fd auto_create m)

-- FdManager::del(fd)
unfoldable pub del : ℤ → FdManager → Outcome FdManager
del (negsuc n) m = undefined
del (pos fd) m =
    if int_at_most (length m.datas) fd
    then done m
    else done (record m { datas = set m.datas fd none })
