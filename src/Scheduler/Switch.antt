-- ===== src/Scheduler/Switch.antt =====
-- kernel/scheduler.cpp: the switch to another task, and the operations that make one. A state is
-- what the next task finds: `switch_context` itself, which exchanges the registers, and the flags
-- that `irq_restore` gives back are left out.
use knail.Prelude.{
  ℕ, zero, suc, ◌+◌, ◌-◌, ◌^◌, ◌%◌, not, ◌&&◌, ◌||◌, [], ◌∷◌, ◌++◌, Option, none, some, ◌==◌,
  if◌then◌else◌, ◌>>=◌,
}
use knail.Scheduler.{
  ready, running, blocked, dead, Sched, default_stack, put, set_next, set_state, is_running,
  is_blocked, unlink_task, pick_next, reap_zombies,
}

unfoldable pub do_switch : ℕ → Sched → Sched
do_switch next s =
    if next == s.current_task
    then s
    else let prev = s.current_task in
      let s1 = if is_running (s.mem prev).state then set_state prev ready s else s in
      let t = record (s1.mem next) { state = running; timeslice = (s1.mem next).quantum } in
      record s1 {
        mem = put next t s1.mem;
        run_queue = next;
        current_task = next;
        kernel_stack = (t.stack + t.stack_size) % 2 ^ 64;
        syscall_stack_top =
            if t.syscall_stack == 0
            then (t.stack + t.stack_size) % 2 ^ 64
            else (t.syscall_stack + default_stack) % 2 ^ 64;
        active = if t.pml4 == 0 then s1.kernel_space else t.pml4;
      }

unfoldable pub preempt_disable : Sched → Sched
preempt_disable s = record s { preempt_count = s.preempt_count + 1 }

unfoldable pub preempt_enable : Sched → Sched
preempt_enable s = record s { preempt_count = s.preempt_count - 1 }

-- `do_switch(pick_next())`
unfoldable pub switch_picked : Option ℕ → Sched → Option Sched
switch_picked none s = none
switch_picked (some next) s = some (do_switch next s)

unfoldable pub reschedule : ℕ → Sched → Option Sched
reschedule fuel s = switch_picked (pick_next fuel s) s

-- `p->timeslice = n`
unfoldable pub set_timeslice : ℕ → ℕ → Sched → Sched
set_timeslice p n s = record s { mem = put p (record (s.mem p) { timeslice = n }) s.mem }

-- `tick` behind the reaping.
unfoldable pub tick_task : ℕ → Sched → Option Sched
tick_task fuel s =
    if s.current_task == 0
    then some s
    else let s1 = set_timeslice s.current_task ((s.mem s.current_task).timeslice - 1) s in
      if ((s1.mem s1.current_task).timeslice == 0) && (s1.preempt_count == 0)
      then reschedule fuel s1
      else some s1

unfoldable pub tick : ℕ → Sched → Option Sched
tick fuel s = do s1 ← reap_zombies fuel s; tick_task fuel s1

unfoldable pub yield : ℕ → Sched → Option Sched
yield fuel s = do s1 ← reap_zombies fuel s; reschedule fuel (set_timeslice s1.current_task 0 s1)

unfoldable pub block_current : ℕ → Sched → Option Sched
block_current fuel s = reschedule fuel (set_state s.current_task blocked s)

unfoldable pub wake : ℕ → Sched → Sched
wake t s =
    if t == 0
    then s
    else if not (is_blocked (s.mem t).state)
    then s
    else let s1 = set_state t ready s in
      if s1.current_task == s1.idle_task then do_switch t s1 else s1

-- The loop of `exit` that gives the children of task `tid` to the task 1.
unfoldable pub reparent : ℕ → ℕ → ℕ → ℕ → Sched → Option Sched
reparent zero tid start t s = none
reparent (suc fuel) tid start t s =
    let s1 =
      if (s.mem t).parent_tid == tid
      then record s { mem = put t (record (s.mem t) { parent_tid = 1 }) s.mem }
      else s in
    let rest = reparent fuel tid start (s1.mem t).next s1 in
    if (s1.mem t).next == start then some s1 else rest

-- The loop of `exit` that wakes the parent.
unfoldable pub wake_parent : ℕ → ℕ → ℕ → ℕ → Sched → Option Sched
wake_parent zero parent start t s = none
wake_parent (suc fuel) parent start t s =
    let rest = wake_parent fuel parent start (s.mem t).next s in
    if ((s.mem t).tid == parent) && is_blocked (s.mem t).state
    then some (set_state t ready s)
    else if (s.mem t).next == start
    then some s
    else rest

-- `exit` up to the reparenting: the code, the state, and the descriptors.
unfoldable pub mark_dead : ℕ → Sched → Sched
mark_dead code s =
    let d = s.current_task in
    let table = (s.mem d).fd_table in
    record s {
      mem = put d (record (s.mem d) { exit_code = code; state = dead; fd_table = 0 }) s.mem;
      freed_tables = if table == 0 then s.freed_tables else s.freed_tables ++ (table ∷ []);
    }

-- The end of `exit`, with the task taken out of the ring: it becomes a zombie, and the processor
-- halts with an empty run queue or goes to another task.
unfoldable pub leave : ℕ → ℕ → Sched → Option Sched
leave fuel d s =
    let s1 = record (set_next d s.zombie_list s) { zombie_list = d } in
    if s1.run_queue == 0 then some s1 else reschedule fuel s1

unfoldable pub exit : ℕ → ℕ → Sched → Option Sched
exit fuel code s0 = do
  let d = s0.current_task
  let s = mark_dead code s0
  s1 ← (if s.run_queue == 0 then some s else reparent fuel (s.mem d).tid s.run_queue s.run_queue s)
  s2 ←
      (if ((s1.mem d).parent_tid == 0) || (s1.run_queue == 0)
        then some s1
        else wake_parent fuel (s1.mem d).parent_tid s1.run_queue s1.run_queue s1)
  s3 ← unlink_task fuel d s2
  leave fuel d s3
