-- ===== src/FdManager/Tests.antt =====
-- Runs of the FdManager, and its theorems at concrete inputs.
use c.Prelude.{
  ℕ, ◌≡◌, refl, ◌≤◌, ◌<◌, ◌^◌, true, false, none, some, ◌==◌, if◌then◌else◌, length, arith,
}
use c.Prelude.Int.{pos, negsuc}
use c.FdManager.{FdCtx, Kernel, new_ctx, init, FdManager, start, resize, get, del, done, undefined}
use c.FdManager.Get.{entry, or_new, get_lem}

-- Every fd is a socket.
abbrev sockets : Kernel
sockets = record { fstat = λ fd. some true; nonblock = λ fd. false }

abbrev memory : ℕ → FdCtx
memory p = new_ctx sockets 0

abbrev m0 : FdManager
m0 = start memory

negative : get sockets 1 (negsuc 1) true m0 ≡ undefined
unfolding get
negative = refl

new_ctx_run : (new_ctx sockets 5).sys_nonblock ≡ true
unfolding new_ctx init
new_ctx_run = refl

get_lem_example :
    (m1 m2 : FdManager) × (get sockets 0x20 (pos 100) true m0 ≡ done (m1, some 0x20))
    × ((j : ℕ) → entry j m1 ≡ (if j == 100 then some 0x20 else entry j m0))
    × (get sockets 0x30 (pos 100) false m1 ≡ done (m1, some 0x20))
    × (del (pos 100) m1 ≡ done m2)
    × (get sockets 0x30 (pos 100) false m2 ≡ done (m2, none))
    × (64 ≤ length m2.datas)
    × (length m2.datas < 2 ^ 31)
unfolding start resize or_new
get_lem_example = get_lem sockets 0x20 0x30 100 false m0 (omega arith) (omega arith) (omega arith)
