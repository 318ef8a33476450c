-- ===== src/Mutex/Exclusion.antt =====
-- kernel/mutex.cpp: whatever the passes of any tasks and their order, at most one has the mutex.
use knail.Prelude.{ℕ, ◌≡◌, refl, sym, ◌∙◌, true}
use knail.Mutex.{Call, lock, unlock, try_lock, enters}
use knail.Mutex.Places.{
  System, start, Step, calls, passes, Reach, begin, then_step, unlocks, Sound, with_task-Sound,
}
use knail.Mutex.Passes.{idle-Fits, pass-Fits}

Step-Sound : {s s' : System} → Sound s → Step s s' → Sound s'
Step-Sound {s} v (calls t call at entitled) =
    with_task-Sound s t (enters call) (s.has t) s.mutex v
      (idle-Fits s t (enters call) v refl refl (λ e. entitled (is_unlock call e)))
  where
    is_unlock : (call : Call) → unlocks (enters call) ≡ true → call ≡ unlock
    is_unlock lock e = absurd cc
    is_unlock unlock e = refl
    is_unlock try_lock e = absurd cc
Step-Sound {s} v (passes t) = with_task-Sound s t _ _ _ v (pass-Fits s t v (s.place t) refl)

start-Sound : Sound start
start-Sound = record {
  alone = λ t u a b. absurd cc;
  shut = λ t a. absurd cc;
  found_free = λ t a. absurd cc;
  owned = λ t a. absurd cc;
  in_use = λ e. absurd cc;
  entitled = λ t a. absurd cc;
}

Reach-Sound : {s : System} → Reach s → Sound s
Reach-Sound begin = start-Sound
Reach-Sound (then_step r st) = Step-Sound (Reach-Sound r) st

-- The tasks that have the mutex are none, and it is free, or one, its owner, and it is locked.
pub record Exclusive (s : System) : Type 0 where
  pub one : (t u : ℕ) → s.has t ≡ true → s.has u ≡ true → t ≡ u
  pub owner : (t : ℕ) → s.has t ≡ true → (s.mutex.locked ≡ true) × (s.mutex.owner ≡ t)
  pub in_use : s.mutex.locked ≡ true → s.has s.mutex.owner ≡ true

-- In every state that the passes of any tasks reach in any order from the unlocked mutex, where only
-- a task that has the mutex calls `unlock`: no two tasks have it; one that has it is its owner, and
-- it is locked; and where it is locked, its owner has it.
pub reach-Exclusive : {s : System} → Reach s → Exclusive s
reach-Exclusive r =
    let v = Reach-Sound r in
    record {
      one = λ t u a b. sym (v.owned t a).1 ∙ (v.owned u b).1;
      owner = v.owned;
      in_use = v.in_use;
    }
