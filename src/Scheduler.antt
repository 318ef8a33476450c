-- ===== src/Scheduler.antt =====
-- kernel/scheduler.cpp and kernel/include/scheduler.hpp: the tasks, the run queue and the loops over
-- it. A task is reached by its address, 0 for a null pointer, and `mem` gives the task at an
-- address. The run queue is the ring of the `next` links from `run_queue`; the zombies are a list
-- that ends at 0. A loop over links takes fuel and answers `none` without it.
-- `kernel_stack`, `syscall_stack_top` and `active` are what `gdt::set_kernel_stack`,
-- `syscall::update_kernel_stack` and `vmm::activate` were last told; `freed` and `freed_tables` list
-- what went to `heap::kfree` and `fdtable::free`.
pub mod Switch
pub mod Spawn
pub mod Spawned
pub mod Wait
pub mod Ring
pub mod Pick
pub mod Queue
pub mod Turns
mod Tests
use knail.Prelude.{
  ℕ, zero, suc, ◌+◌, ◌*◌, ◌^◌, ◌%◌, Bool, true, false, not, ◌&&◌, ◌||◌, List, [], ◌∷◌, ◌++◌, Option,
  none, some, ◌==◌, if◌then◌else◌,
}

pub data State : Type 0 where
  ready running blocked dead : State

-- `frame` holds the words from `ctx` up.
pub record Task : Type 0 where
  pub ctx : ℕ
  pub frame : List ℕ
  pub stack : ℕ
  pub stack_size : ℕ
  pub syscall_stack : ℕ
  pub state : State
  pub tid : ℕ
  pub parent_tid : ℕ
  pub exit_code : ℕ
  pub timeslice : ℕ
  pub quantum : ℕ
  pub next : ℕ
  pub name : List ℕ
  pub pml4 : ℕ
  pub cwd : ℕ
  pub fd_table : ℕ

pub record Sched : Type 0 where
  pub mem : ℕ → Task
  pub run_queue : ℕ
  pub current_task : ℕ
  pub zombie_list : ℕ
  pub next_tid : ℕ
  pub preempt_count : ℕ
  pub idle_task : ℕ
  pub kernel_space : ℕ
  pub kernel_stack : ℕ
  pub syscall_stack_top : ℕ
  pub active : ℕ
  pub freed : List ℕ
  pub freed_tables : List ℕ

abbrev pub default_stack : ℕ
default_stack = 16 * 1024

abbrev pub default_quantum : ℕ
default_quantum = 10

-- The memory with another task at `p`.
unfoldable pub put : ℕ → Task → (ℕ → Task) → ℕ → Task
put p t mem q = if p == q then t else mem q

-- `p->next = v`
unfoldable pub set_next : ℕ → ℕ → Sched → Sched
set_next p v s = record s { mem = put p (record (s.mem p) { next = v }) s.mem }

-- `p->state = st`
unfoldable pub set_state : ℕ → State → Sched → Sched
set_state p st s = record s { mem = put p (record (s.mem p) { state = st }) s.mem }

abbrev pub is_running : State → Bool
is_running running = true
is_running _ = false

abbrev pub is_blocked : State → Bool
is_blocked blocked = true
is_blocked _ = false

-- `t->state == State::Ready || t->state == State::Running`
abbrev pub can_run : State → Bool
can_run ready = true
can_run running = true
can_run _ = false

unfoldable pub enqueue : ℕ → Sched → Sched
enqueue t s =
    if s.run_queue == 0
    then record (set_next t t s) { run_queue = t }
    else let s1 = set_next t (s.mem s.run_queue).next s in set_next s1.run_queue t s1

-- The loop of `unlink_task`: the task before the victim, or the last of the ring.
unfoldable pub find_prev : ℕ → ℕ → ℕ → Sched → Option ℕ
find_prev zero victim prev s = none
find_prev (suc fuel) victim prev s =
    let rest = find_prev fuel victim (s.mem prev).next s in
    if not ((s.mem prev).next == victim) && not ((s.mem prev).next == s.run_queue)
    then rest
    else some prev

-- `unlink_task` behind its loop.
unfoldable pub unlink_after : ℕ → ℕ → Sched → Sched
unlink_after prev victim s =
    if not ((s.mem prev).next == victim)
    then s
    else if (s.mem victim).next == victim
    then set_next victim 0 (record s { run_queue = 0 })
    else let s1 = set_next prev (s.mem victim).next s in
      set_next victim 0
        (record s1 { run_queue = if s1.run_queue == victim then prev else s1.run_queue })

unfoldable pub unlink_with : Option ℕ → ℕ → Sched → Option Sched
unlink_with none victim s = none
unlink_with (some prev) victim s = some (unlink_after prev victim s)

unfoldable pub unlink_task : ℕ → ℕ → Sched → Option Sched
unlink_task fuel victim s =
    if (s.run_queue == 0) || (victim == 0)
    then some s
    else unlink_with (find_prev fuel victim s.run_queue s) victim s

-- The loop of `pick_next` from `t` on.
unfoldable pub pick_loop : ℕ → ℕ → ℕ → Sched → Option ℕ
pick_loop zero start t s = none
pick_loop (suc fuel) start t s =
    let t' = (s.mem t).next in
    let rest = pick_loop fuel start t' s in
    if can_run (s.mem t).state then some t else if t' == start then some s.idle_task else rest

unfoldable pub pick_next : ℕ → Sched → Option ℕ
pick_next fuel s = pick_loop fuel s.run_queue (s.mem s.run_queue).next s

-- `heap::kfree(p)`, and the same for a pointer that is not null.
unfoldable pub kfree : ℕ → Sched → Sched
kfree p s = record s { freed = s.freed ++ (p ∷ []) }

unfoldable pub kfree_some : ℕ → Sched → Sched
kfree_some p s = if p == 0 then s else kfree p s

-- The three calls that free a dead task.
unfoldable pub free_task : ℕ → Sched → Sched
free_task t s = kfree t (kfree_some (s.mem t).syscall_stack (kfree_some (s.mem t).stack s))

unfoldable pub reap_zombies : ℕ → Sched → Option Sched
reap_zombies zero s = none
reap_zombies (suc fuel) s =
    let dead = s.zombie_list in
    let rest = reap_zombies fuel (free_task dead (record s { zombie_list = (s.mem dead).next })) in
    if dead == 0 then some s else rest
