-- ===== src/Scheduler/Tests.antt =====
-- Runs on a ring of three tasks: the idle task at 16, which runs, and those at 32 and 48.
use knail.Prelude.{ℕ, ◌≡◌, ◌⊎◌, refl, [], ◌∷◌, some, arith, ◌==◌, if◌then◌else◌}
use knail.Types.{ok, err, KError}
use knail.Scheduler.{Sched, State, ready, running, dead, Task, enqueue, unlink_task, pick_next}
use knail.Scheduler.Spawn.{spawn}
use knail.Scheduler.Spawned.{Spawned, spawn-Spawned}
use knail.Scheduler.Ring.{IsRing}
use knail.Scheduler.Queue.{enqueue-IsRing, unlink_task-IsRing, unlink_first-IsRing}
use knail.Scheduler.Pick.{pick_next_lem}
use knail.Scheduler.Turns.{turns, turns-current}

abbrev task : ℕ → State → ℕ → Task
task tid st next = record {
  ctx = 0;
  frame = [];
  stack = 4096;
  stack_size = 4096;
  syscall_stack = 0;
  state = st;
  tid = tid;
  parent_tid = 0;
  exit_code = 0;
  timeslice = 1;
  quantum = 10;
  next = next;
  name = [];
  pml4 = 0;
  cwd = 0;
  fd_table = 0;
}

abbrev three_mem : ℕ → Task
three_mem q =
    if q == 16
    then task 0 running 32
    else if q == 32
    then task 1 ready 48
    else if q == 48
    then task 2 ready 16
    else task 9 dead 0

abbrev three : Sched
three = record {
  mem = three_mem;
  run_queue = 16;
  current_task = 16;
  zombie_list = 0;
  next_tid = 3;
  preempt_count = 0;
  idle_task = 16;
  kernel_space = 1;
  kernel_stack = 0;
  syscall_stack_top = 0;
  active = 1;
  freed = [];
  freed_tables = [];
}

three-IsRing : IsRing three (32 ∷ 48 ∷ [])
three-IsRing = record {
  links = (refl, (refl, refl));
  live = omega arith;
  others = (omega arith, (omega arith, tt));
  others_live = (omega arith, (omega arith, tt));
  distinct = ((omega arith, tt), (tt, tt));
}

enqueue-IsRing_example : IsRing (enqueue 64 three) (64 ∷ 32 ∷ 48 ∷ [])
enqueue-IsRing_example =
    enqueue-IsRing 64 three-IsRing (omega arith, (omega arith, tt)) (omega arith) (omega arith)

unlink_task-IsRing_example :
    (s' : Sched) × (unlink_task 2 48 three ≡ some s') × IsRing s' (32 ∷ []) × (s'.run_queue ≡ 16)
unlink_task-IsRing_example = unlink_task-IsRing (32 ∷ []) [] 48 2 three-IsRing (omega arith)

unlink_first-IsRing_example :
    (s' : Sched) × (unlink_task 3 16 three ≡ some s') × IsRing s' (32 ∷ []) × (s'.run_queue ≡ 48)
unlink_first-IsRing_example = unlink_first-IsRing (32 ∷ []) 48 3 three-IsRing (omega arith)

pick_next_lem_example : pick_next 3 three ≡ some 32
pick_next_lem_example = pick_next_lem 3 three-IsRing (omega arith)

spawn-Spawned_example :
    ((◌≡◌ {A = ℕ} 64 0) × (spawn 64 4096 7 8 [] 4096 10 three ≡ (err KError.out_of_memory, three)))
    ⊎ (◌≡◌ {A = ℕ} 4096 0)
      × (spawn 64 4096 7 8 [] 4096 10 three
          ≡ (err KError.out_of_memory, record three { freed = 64 ∷ [] }))
    ⊎ ((spawn 64 4096 7 8 [] 4096 10 three).0 ≡ ok 3)
      × Spawned three (spawn 64 4096 7 8 [] 4096 10 three).1 (32 ∷ 48 ∷ []) 64 4096 7 8 4096 10
spawn-Spawned_example =
    spawn-Spawned 64 4096 7 8 [] 4096 10 three-IsRing (omega arith) (omega arith, (omega arith, tt))

turns-current_example : (s' : Sched) × (turns 3 2 three ≡ some s') × (s'.current_task ≡ 48)
turns-current_example =
    turns-current (32 ∷ []) 48 [] 3 (record { ring = three-IsRing; runs_first = refl })
      (refl, (refl, tt)) (omega arith)
