-- ===== src/Scheduler/Pick.antt =====
-- kernel/scheduler.cpp: the order in which `pick_next` looks at the tasks.
use knail.Prelude.{
  ℕ, zero, suc, ◌<◌, ◌≡◌, refl, List, [], ◌∷◌, some, arith, if◌then◌else◌, length, Bool-cases, inl,
  inr,
}
use knail.Scheduler.{Sched, can_run, pick_loop, pick_next}
use knail.Scheduler.Ring.{Trail, Absent, IsRing}

-- The first task of a list that can run, and the idle task when none can.
abbrev pub first_runnable : Sched → List ℕ → ℕ
first_runnable s [] = s.idle_task
first_runnable s (x ∷ xs) = if can_run (s.mem x).state then x else first_runnable s xs

pick_loop_lem :
    (x : ℕ) (xs : List ℕ) (fuel start : ℕ) (s : Sched)
    → length xs < fuel
    → Trail s.mem (s.mem x).next xs start
    → Absent start xs
    → pick_loop fuel start x s ≡ some (first_runnable s (x ∷ xs))
unfolding pick_loop
pick_loop_lem x xs zero start s lt h off = absurd (omega arith)
pick_loop_lem x [] (suc fuel) start s lt h off = ground arith
pick_loop_lem x (y ∷ xs) (suc fuel) start s lt h off =
    let next : (s.mem x).next ≡ y = h.0 in
    let rest : pick_loop fuel start y s ≡ some (first_runnable s (y ∷ xs)) =
      pick_loop_lem y xs fuel start s (omega arith) h.1 off.1 in
    elim (Bool-cases (can_run (s.mem x).state)) [
      | inl runs ↦ rw runs refl
      | inr waits ↦ rw (waits, next, rest) (ground arith)
    ]

-- With more rounds than tasks behind the first, `pick_next` ends. It gives the first task behind
-- the one that runs which is ready or running, in the order of the ring, and the idle task when
-- there is none; only alone in the ring is the first task itself looked at.
pub pick_next_lem :
    {s : Sched} {rest : List ℕ} (fuel : ℕ)
    → IsRing s rest
    → length rest < fuel
    → pick_next fuel s
      ≡ some (first_runnable s (elim rest [ [] ↦ s.run_queue ∷ [] | x ∷ xs ↦ x ∷ xs ]))
unfolding pick_next
pick_next_lem {s} {rest} fuel h lt = go rest h lt
  where
    go :
        (xs : List ℕ)
        → IsRing s xs
        → length xs < fuel
        → pick_loop fuel s.run_queue (s.mem s.run_queue).next s
          ≡ some (first_runnable s (elim xs [ [] ↦ s.run_queue ∷ [] | x ∷ xs ↦ x ∷ xs ]))
    go [] h lt =
        let next : (s.mem s.run_queue).next ≡ s.run_queue = h.links in
        rw next (pick_loop_lem s.run_queue [] fuel s.run_queue s lt next tt)
    go (x ∷ xs) h lt =
        let next : (s.mem s.run_queue).next ≡ x = h.links.0 in
        rw next (pick_loop_lem x xs fuel s.run_queue s (omega arith) h.links.1 h.others.1)
