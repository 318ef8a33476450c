-- ===== src/Syscall/Dispatch.antt =====
-- kernel/syscall.cpp: the handlers that do not concern files, `kRoutes` and `dispatch_syscall`.
-- `spawn` is `sched::spawn` on the entry and the name.
use knail.Types.{KResult}
use knail.Vfs.Tree.{FileOps}
use knail.Syscall.{System, Handler, e_inval, e_nosys, value_or}
use knail.Syscall.Calls.{
  handle_write, handle_read, handle_open, handle_close, handle_seek, handle_stat, handle_fstat,
  handle_readdir, handle_mkdir, handle_unlink, handle_dup, handle_dup2, handle_pipe, handle_getcwd,
  handle_chdir,
}
use knail.Prelude.{ℕ, Bool, true, false, not, ◌||◌, none, some, List, [], ◌∷◌, ◌==◌, if◌then◌else◌}

-- It does not return.
unfoldable pub handle_exit : Handler
handle_exit args sys = none

unfoldable pub handle_get_tid : Handler
handle_get_tid args sys = some (sys.tid, sys)

unfoldable pub handle_get_ticks : Handler
handle_get_ticks args sys = some (sys.ticks, sys)

unfoldable pub handle_yield : Handler
handle_yield args sys = some (0, record sys { yield_pending = true })

unfoldable pub handle_mmap : Handler
handle_mmap args sys = some (e_nosys, sys)

unfoldable pub handle_brk : Handler
handle_brk args sys = some (0, sys)

-- A write of a word to port 0x604.
abbrev power : ℕ → System → System
power v sys = record sys { ports = (0x604, v) ∷ sys.ports }

unfoldable pub handle_reboot : Handler
handle_reboot args sys =
    if not (args.arg0 == 0xfee1dead) || not (args.arg1 == 0x28121969)
    then some (e_inval, sys)
    else if args.arg2 == 0x4321fedc
    then some (0, power 0x2000 sys)
    else if args.arg2 == 0x01234567
    then some (0, power 0 sys)
    else some (e_inval, sys)

unfoldable pub spawn_named : KResult ℕ × System → ℕ × System
spawn_named (reply, sys) = (value_or e_inval reply, sys)

-- The loop over the routes.
unfoldable pub dispatch_from : List (ℕ × Handler) → ℕ → Handler
dispatch_from [] nr args sys = some (e_nosys, sys)
dispatch_from ((route, fn) ∷ routes) nr args sys =
    let rest = dispatch_from routes nr args sys in if route == nr then fn args sys else rest

module _ (tables : ℕ → FileOps) (rounds pipe_table : ℕ)
    (spawn : ℕ → List ℕ → System → KResult ℕ × System) where
  unfoldable pub handle_spawn : Handler
  handle_spawn args sys =
      let name =
        if args.arg1 == 0 then b't' ∷ b'a' ∷ b's' ∷ b'k' ∷ [] else sys.user_string args.arg1 in
      some (spawn_named (spawn args.arg0 name sys))

  -- `kRoutes`, in its order.
  unfoldable pub routes : List (ℕ × Handler)
  routes =
      (0, handle_read tables rounds pipe_table)
      ∷ (1, handle_write tables rounds pipe_table)
      ∷ (2, handle_open tables rounds pipe_table)
      ∷ (3, handle_close tables rounds pipe_table)
      ∷ (4, handle_stat tables rounds pipe_table)
      ∷ (5, handle_fstat tables rounds pipe_table)
      ∷ (8, handle_seek tables rounds pipe_table)
      ∷ (9, handle_mmap)
      ∷ (12, handle_brk)
      ∷ (24, handle_yield)
      ∷ (60, handle_exit)
      ∷ (231, handle_exit)
      ∷ (78, handle_readdir tables rounds pipe_table)
      ∷ (83, handle_mkdir tables rounds pipe_table)
      ∷ (87, handle_unlink tables rounds pipe_table)
      ∷ (186, handle_get_tid)
      ∷ (220, handle_spawn)
      ∷ (228, handle_get_ticks)
      ∷ (169, handle_reboot)
      ∷ (32, handle_dup tables rounds pipe_table)
      ∷ (33, handle_dup2 tables rounds pipe_table)
      ∷ (22, handle_pipe tables rounds pipe_table)
      ∷ (79, handle_getcwd tables rounds pipe_table)
      ∷ (80, handle_chdir tables rounds pipe_table)
      ∷ []

  unfoldable pub dispatch_syscall : ℕ → Handler
  dispatch_syscall nr args sys = dispatch_from routes nr args sys

abbrev pub is_routed : ℕ → List (ℕ × Handler) → Bool
is_routed nr [] = false
is_routed nr (route ∷ routes) = (route.0 == nr) || is_routed nr routes

-- The numbers that kernel/include/syscall.hpp gives to the calls that have a handler.
abbrev pub numbers : List ℕ
numbers =
    0 ∷ 1 ∷ 2 ∷ 3 ∷ 4 ∷ 5 ∷ 8 ∷ 9 ∷ 12 ∷ 24 ∷ 60 ∷ 231 ∷ 78 ∷ 83 ∷ 87 ∷ 186 ∷ 220 ∷ 228 ∷ 169 ∷ 32
    ∷ 33 ∷ 22 ∷ 79 ∷ 80 ∷ []

abbrev pub has_number : ℕ → List ℕ → Bool
has_number nr [] = false
has_number nr (n ∷ ns) = (n == nr) || has_number nr ns
