-- ===== src/Mutex/Tests.antt =====
-- A run of two tasks: 1 locks, 2 finds the mutex locked, and 1 has it.
use knail.Prelude.{ℕ, refl, false}
use knail.Mutex.{lock, enters, pass}
use knail.Mutex.Places.{System, start, calls, passes, Reach, begin, then_step, with_task, has_after}
use knail.Mutex.Exclusion.{Exclusive, reach-Exclusive}

-- Task `t` after one pass.
abbrev passed : ℕ → System → System
passed t s =
    with_task t (pass t (s.place t) s.mutex).0 (has_after (s.place t) (s.has t))
      (pass t (s.place t) s.mutex).1 s

abbrev called : System
called = with_task 1 (enters lock) false start.mutex start

abbrev one_in : System
one_in = passed 1 (passed 1 (passed 1 (passed 1 called)))

abbrev two_waits : System
two_waits = passed 2 (passed 2 (with_task 2 (enters lock) false one_in.mutex one_in))

two_waits-Reach : Reach two_waits
unfolding pass
two_waits-Reach =
    let entered = then_step begin (calls 1 lock refl (λ e. absurd cc)) in
    let took =
      then_step (then_step (then_step (then_step entered (passes 1)) (passes 1)) (passes 1))
        (passes 1) in
    then_step (then_step (then_step took (calls 2 lock refl (λ e. absurd cc))) (passes 2))
      (passes 2)

reach-Exclusive_example : Exclusive two_waits
reach-Exclusive_example = reach-Exclusive two_waits-Reach
