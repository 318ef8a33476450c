-- ===== src/Scheduler/Wait.antt =====
-- kernel/scheduler.cpp: `wait`, by its rounds.
use knail.Prelude.{
  ℕ, zero, suc, Bool, true, false, ◌||◌, Option, none, some, ◌==◌, if◌then◌else◌, ◌>>=◌,
}
use knail.Scheduler.{Sched, blocked, set_next, set_state, free_task}
use knail.Scheduler.Switch.{reschedule}

-- What the loop over the zombies finds: a child and the zombie before it, or whether there was
-- any zombie.
pub data Scan : Type 0 where
  found : ℕ → ℕ → Scan
  scanned : Bool → Scan

unfoldable pub scan_zombies : ℕ → ℕ → ℕ → ℕ → Bool → Sched → Option Scan
scan_zombies zero me prev z any_child s = none
scan_zombies (suc fuel) me prev z any_child s =
    let rest = scan_zombies fuel me z (s.mem z).next true s in
    if z == 0
    then some (scanned any_child)
    else if (s.mem z).parent_tid == me
    then some (found prev z)
    else rest

-- The loop over the run queue: whether a task in it is a child of `me`.
unfoldable pub has_child : ℕ → ℕ → ℕ → ℕ → Sched → Option Bool
has_child zero me start t s = none
has_child (suc fuel) me start t s =
    let rest = has_child fuel me start (s.mem t).next s in
    if (s.mem t).parent_tid == me
    then some true
    else if (s.mem t).next == start
    then some false
    else rest

-- A round ends with the number and the code of a child, with `NotFound`, or with the task blocked;
-- the next round then starts when the task runs again.
pub data Round : Type 0 where
  reaped : ℕ → ℕ → Round
  no_child : Round
  sleeps : Round

-- Taking the zombie behind `prev` out of the list.
unfoldable pub take_zombie : ℕ → ℕ → Sched → Sched
take_zombie prev z s = free_task z (
    if prev == 0 then record s { zombie_list = (s.mem z).next } else set_next prev (s.mem z).next s)

-- `wait` without a dead child: `any_child` may have come from the zombies.
unfoldable pub wait_after : ℕ → Bool → Sched → Option (Round × Sched)
wait_after fuel false s = some (no_child, s)
wait_after fuel true s = do
  s1 ← reschedule fuel (set_state s.current_task blocked s)
  some (sleeps, s1)

unfoldable pub wait_living : ℕ → Bool → Sched → Option (Round × Sched)
wait_living fuel any_child s = do
  living ←
      (if s.run_queue == 0
        then some false
        else has_child fuel (s.mem s.current_task).tid s.run_queue s.run_queue s)
  wait_after fuel (any_child || living) s

unfoldable pub wait_scanned : ℕ → Scan → Sched → Option (Round × Sched)
wait_scanned fuel (found prev z) s =
    some (reaped (s.mem z).tid (s.mem z).exit_code, take_zombie prev z s)
wait_scanned fuel (scanned any_child) s = wait_living fuel any_child s

unfoldable pub wait_round : ℕ → Sched → Option (Round × Sched)
wait_round fuel s = do
  scan ← scan_zombies fuel (s.mem s.current_task).tid 0 s.zombie_list false s
  wait_scanned fuel scan s
