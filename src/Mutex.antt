-- ===== src/Mutex.antt =====
-- kernel/include/mutex.hpp and kernel/mutex.cpp: the spin lock and the sleeping mutex on it, as the
-- passes of one task through `lock`, `unlock` and `try_lock`, of one access to the shared state each:
-- the exchange on the guard, the test of `locked`, the writes that the guard protects, and the
-- release. The waiting nodes, which stand on the stacks of the tasks, are the list of these tasks.
pub mod Exclusion
pub mod Passes
pub mod Places
mod Tests
use knail.Prelude.{ℕ, Bool, true, false, List, [], ◌∷◌, ◌==◌, if◌then◌else◌, Option, none, some}

-- `flag`, and whether the processor takes interrupts.
pub record Spinlock : Type 0 where
  pub flag : ℕ
  pub interrupts : Bool

-- One exchange of `acquire` or of `try_acquire`: whether the flag was 0.
unfoldable pub try_acquire : Spinlock → Bool × Spinlock
try_acquire l =
    if l.flag == 0
    then (true, record { flag = 1; interrupts = false })
    else (false, record { flag = 1; interrupts = true })

-- `acquire`, where no other processor gives the lock back: `none` spins for ever.
unfoldable pub acquire : Spinlock → Option Spinlock
acquire l = let (taken, l') = try_acquire l in (if taken then some l' else none)

unfoldable pub release : Spinlock → Spinlock
release l = record { flag = 0; interrupts = true }

-- `owner` is the number of a task, 0 for none. `marks` are the writes to the states of tasks, the
-- latest first: the task, and whether it became ready instead of blocked.
pub record Mutex : Type 0 where
  pub guard : Spinlock
  pub locked : Bool
  pub owner : ℕ
  pub waiters : List ℕ
  pub marks : List (ℕ × Bool)

abbrev pub unlocked : Mutex
unlocked = record {
  guard = record { flag = 0; interrupts = true };
  locked = false;
  owner = 0;
  waiters = [];
  marks = [];
}

pub data Call : Type 0 where
  lock : Call
  unlock : Call
  try_lock : Call

-- Where a task is: in none of the functions, before the exchange on the guard, behind it, between
-- the test that found the mutex free and the writes, before the release; `again` goes round the
-- loop of `lock`.
pub data Place : Type 0 where
  outside : Place
  enters : Call → Place
  tests : Call → Place
  takes : Place
  leaves : Bool → Place

-- `unlock` behind the guard: the mutex is free, and the first that waits is taken off the list.
unfoldable pub wake_first : List ℕ → Mutex → Mutex
wake_first [] m = record m { locked = false; owner = 0; waiters = [] }
wake_first (w ∷ ws) m = record m {
  locked = false;
  owner = 0;
  waiters = ws;
  marks = (w, true) ∷ m.marks;
}

-- One pass of task `me`.
unfoldable pub pass : ℕ → Place → Mutex → Place × Mutex
pass me outside m = (outside, m)
pass me (enters call) m =
    let (got, g) = try_acquire m.guard in
    (if got then tests call else enters call, record m { guard = g })
pass me (tests lock) m =
    if m.locked
    then (leaves true, record m { waiters = me ∷ m.waiters; marks = (me, false) ∷ m.marks })
    else (takes, m)
pass me (tests try_lock) m = if m.locked then (leaves false, m) else (takes, m)
pass me (tests unlock) m = (leaves false, wake_first m.waiters m)
pass me takes m = (leaves false, record m { locked = true; owner = me })
pass me (leaves again) m =
    (if again then enters lock else outside, record m { guard = release m.guard })
