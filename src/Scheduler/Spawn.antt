-- ===== src/Scheduler/Spawn.antt =====
-- kernel/scheduler.cpp: the first task, and a new kernel task. The addresses that `heap::kmalloc`
-- gave are arguments, 0 for none.
use knail.Types.{KResult, ok, err, KError}
use knail.Prelude.{ℕ, ◌+◌, ◌-◌, ◌^◌, ◌%◌, List, [], ◌∷◌, ◌++◌, ◌==◌, if◌then◌else◌, take, replicate}
use knail.Scheduler.{ready, running, Task, Sched, put, enqueue, kfree}

-- The eleven words below `top` that the first switch to a task pops, from the lowest up: `rbx`,
-- `rbp`, `r8` to `r14`, `r15` and `rip`.
abbrev pub first_frame : ℕ → ℕ → List ℕ
first_frame r15 rip = replicate 9 0 ++ (r15 ∷ rip ∷ [])

-- `init`, with the address of `idle_stack`.
unfoldable pub init : ℕ → Sched → Sched
init idle_stack s =
    let idle = record (s.mem s.idle_task) {
      state = running;
      tid = 0;
      quantum = 1;
      timeslice = 1;
      stack = idle_stack;
      stack_size = 4096;
      syscall_stack = 0;
      fd_table = 0;
      next = s.idle_task;
      name = b'i' ∷ b'd' ∷ b'l' ∷ b'e' ∷ [];
      pml4 = 0;
      cwd = 0;
      ctx = idle_stack + 4096 - 88;
      frame = first_frame 0 0;
    } in
    record s {
      mem = put s.idle_task idle s.mem;
      run_queue = s.idle_task;
      current_task = s.idle_task;
    }

-- The task that `spawn` writes at `t`.
unfoldable pub spawned_task : ℕ → ℕ → ℕ → List ℕ → ℕ → ℕ → ℕ → Task → Task
spawned_task stack trampoline entry name stack_size quantum tid old = record old {
  stack = stack;
  stack_size = stack_size;
  syscall_stack = 0;
  fd_table = 0;
  state = ready;
  tid = tid;
  quantum = quantum;
  timeslice = quantum;
  next = 0;
  pml4 = 0;
  name = take 31 name;
  ctx = stack + stack_size - 88;
  frame = first_frame entry trampoline;
}

-- The last statements of `spawn`: the result is read from the task.
unfoldable pub spawn_enqueued : ℕ → Sched → KResult ℕ × Sched
spawn_enqueued t s = let s' = enqueue t s in (ok (s'.mem t).tid, s')

-- `spawn`: `t` and `stack` are the two allocations, `trampoline` the address of
-- `task_entry_trampoline`, and `name` the characters before the final 0.
unfoldable pub spawn : ℕ → ℕ → ℕ → ℕ → List ℕ → ℕ → ℕ → Sched → KResult ℕ × Sched
spawn t stack trampoline entry name stack_size quantum s =
    if t == 0
    then (err KError.out_of_memory, s)
    else if stack == 0
    then (err KError.out_of_memory, kfree t s)
    else spawn_enqueued t (record s {
      mem =
          put t (spawned_task stack trampoline entry name stack_size quantum s.next_tid (s.mem t))
            s.mem;
      next_tid = (s.next_tid + 1) % 2 ^ 32;
    })
