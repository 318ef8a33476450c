-- ===== src/Scheduler/Turns.antt =====
-- kernel/scheduler.cpp: the switches go round the ring, so that every task has its turn.
use knail.Prelude.{
  ℕ, zero, suc, ◌<◌, ◌≡◌, ◌≢◌, refl, ap, sym, ◌∙◌, subst, Bool, true, false, List, [], ◌∷◌, ◌++◌,
  Option, some, arith, ◌==◌, if◌then◌else◌, All, length, Bool-cases, inl, inr, length-append,
  append_assoc, ◌>>=◌,
}
use knail.Scheduler.{Sched, Task, can_run, put, set_state, pick_next, ready, running, is_running}
use knail.Scheduler.Switch.{do_switch, switch_picked, reschedule}
use knail.Scheduler.Ring.{Trail, Absent, Absent-join, Distinct, IsRing}
use knail.Scheduler.Pick.{pick_next_lem}

-- A write that leaves a property of the task written to, leaves it for all.
put_keeps :
    {A : Type 0} (f : Task → A) (p : ℕ) (t : Task) (mem : ℕ → Task) (q : ℕ)
    → f t ≡ f (mem p)
    → f (put p t mem q) ≡ f (mem q)
unfolding put
put_keeps f p t mem q e = elim (Bool-cases (p == q)) [
  | inl here ↦ let eq : p ≡ q = ground arith in rw here (e ∙ ap (λ i. f (mem i)) eq)
  | inr away ↦ rw away refl
]

-- The task that stops running becomes ready.
stopped : Sched → Sched
stopped s = if is_running (s.mem s.current_task).state then set_state s.current_task ready s else s

stopped-next : (s : Sched) (q : ℕ) → ((stopped s).mem q).next ≡ (s.mem q).next
unfolding stopped set_state
stopped-next s q = elim (Bool-cases (is_running (s.mem s.current_task).state)) [
  | inl runs ↦ rw runs (
      put_keeps (λ t. t.next) s.current_task (record (s.mem s.current_task) { state = ready }) s.mem
        q refl)
  | inr idle ↦ rw idle refl
]

-- A switch moves no link.
do_switch-next : (n : ℕ) (s : Sched) (q : ℕ) → ((do_switch n s).mem q).next ≡ (s.mem q).next
unfolding do_switch stopped
do_switch-next n s q = elim (Bool-cases (n == s.current_task)) [
  | inl here ↦ rw here refl
  | inr away ↦
      let t : Task = record ((stopped s).mem n) {
        state = running;
        timeslice = ((stopped s).mem n).quantum;
      } in
      rw away (put_keeps (λ t. t.next) n t (stopped s).mem q refl ∙ stopped-next s q)
]

put_holds :
    (f : Task → Bool) (p : ℕ) (t : Task) (mem : ℕ → Task) (q : ℕ)
    → f t ≡ true
    → f (mem q) ≡ true
    → f (put p t mem q) ≡ true
unfolding put
put_holds f p t mem q h k = elim (Bool-cases (p == q)) [
  | inl here ↦ rw here h
  | inr away ↦ rw away k
]

-- A task that can run can run after the switch.
do_switch-can_run :
    (n : ℕ) (s : Sched) (q : ℕ)
    → can_run (s.mem q).state ≡ true
    → can_run ((do_switch n s).mem q).state ≡ true
unfolding do_switch stopped set_state
do_switch-can_run n s q h =
    let kept : can_run ((stopped s).mem q).state ≡ true =
      elim (Bool-cases (is_running (s.mem s.current_task).state)) [
        | inl runs ↦ rw runs (
            put_holds (λ t. can_run t.state) s.current_task
              (record (s.mem s.current_task) { state = ready }) s.mem q refl h)
        | inr idle ↦ rw idle h
      ] in
    elim (Bool-cases (n == s.current_task)) [
      | inl here ↦ rw here h
      | inr away ↦
          let t : Task = record ((stopped s).mem n) {
            state = running;
            timeslice = ((stopped s).mem n).quantum;
          } in
          rw away (put_holds (λ t. can_run t.state) n t (stopped s).mem q refl kept)
    ]

Trail-same :
    (mem mem' : ℕ → Task) (xs : List ℕ) (a b : ℕ)
    → ((q : ℕ) → (mem' q).next ≡ (mem q).next)
    → Trail mem a xs b
    → Trail mem' a xs b
Trail-same mem mem' [] a b same h = h
Trail-same mem mem' (x ∷ xs) a b same h =
    (h.0, rw (same x) (Trail-same mem mem' xs (mem x).next b same h.1))

Trail-snoc :
    (mem : ℕ → Task) (xs : List ℕ) (a b : ℕ)
    → Trail mem a xs b
    → Trail mem a (xs ++ (b ∷ [])) (mem b).next
Trail-snoc mem [] a b h = (h, refl)
Trail-snoc mem (x ∷ xs) a b h = (h.0, Trail-snoc mem xs (mem x).next b h.1)

Distinct-snoc : (xs : List ℕ) (p : ℕ) → Distinct xs → Absent p xs → Distinct (xs ++ (p ∷ []))
Distinct-snoc [] p ds off = (tt, tt)
Distinct-snoc (x ∷ xs) p ds off =
    (Absent-join x xs (p ∷ []) ds.0 ((λ e. off.0 (sym e)), tt), Distinct-snoc xs p ds.1 off.1)

-- The first task runs, and those of `rest` wait for their turns.
pub record Turn (s : Sched) (rest : List ℕ) : Type 0 where
  pub ring : IsRing s rest
  pub runs_first : s.current_task ≡ s.run_queue

do_switch-current :
    (n : ℕ) (s : Sched)
    → n ≢ s.current_task
    → ((do_switch n s).run_queue ≡ n) × ((do_switch n s).current_task ≡ n)
unfolding do_switch
do_switch-current n s ne =
    let away : (n == s.current_task) ≡ false = ground arith in (rw away refl, rw away refl)

-- A switch to the task behind the first turns the ring by one.
do_switch-Turn :
    {s : Sched} (x : ℕ) (xs : List ℕ)
    → Turn s (x ∷ xs)
    → Turn (do_switch x s) (xs ++ (s.run_queue ∷ [])) × ((do_switch x s).current_task ≡ x)
do_switch-Turn {s} x xs h =
    let r : ℕ = s.run_queue in
    let s' : Sched = do_switch x s in
    let fields = do_switch-current x s (λ e. h.ring.others.0 (e ∙ h.runs_first)) in
    let path : Trail s'.mem (s'.mem x).next (xs ++ (r ∷ [])) x = rw (do_switch-next x s x) (
      Trail-same s.mem s'.mem (xs ++ (r ∷ [])) (s.mem x).next x (do_switch-next x s) (
        subst (λ i. Trail s.mem (s.mem x).next (xs ++ (r ∷ [])) i) h.ring.links.0
          (Trail-snoc s.mem xs (s.mem x).next r h.ring.links.1))) in
    (
      record {
        ring = record {
          links = rw fields.0 path;
          live = rw fields.0 h.ring.others_live.0;
          others =
              rw fields.0
                (Absent-join x xs (r ∷ []) h.ring.distinct.0 ((λ e. h.ring.others.0 (sym e)), tt));
          others_live = Absent-join 0 xs (r ∷ []) h.ring.others_live.1 (h.ring.live, tt);
          distinct = Distinct-snoc xs r h.ring.distinct.1 h.ring.others.1;
        };
        runs_first = fields.1 ∙ sym fields.0;
      },
      fields.1,
    )

-- `n` switches to the next task.
abbrev pub turns : ℕ → ℕ → Sched → Option Sched
turns fuel zero s = some s
turns fuel (suc n) s = reschedule fuel s >>= λ s1. turns fuel n s1

reschedule-first :
    {s : Sched} (x : ℕ) (xs : List ℕ) (fuel : ℕ)
    → Turn s (x ∷ xs)
    → can_run (s.mem x).state ≡ true
    → length (x ∷ xs) < fuel
    → reschedule fuel s ≡ some (do_switch x s)
unfolding reschedule switch_picked
reschedule-first {s} x xs fuel h runs lt =
    let picked : pick_next fuel s ≡ some x = pick_next_lem fuel h.ring lt ∙ rw runs refl in
    rw picked refl

runnable-do_switch :
    (n : ℕ) (s : Sched) (xs : List ℕ)
    → All (λ q. can_run (s.mem q).state ≡ true) xs
    → All (λ q. can_run ((do_switch n s).mem q).state ≡ true) xs
runnable-do_switch n s [] h = tt
runnable-do_switch n s (x ∷ xs) h = (do_switch-can_run n s x h.0, runnable-do_switch n s xs h.1)

-- Round robin. While the first task of the ring runs, and the tasks `xs` and `x` next behind it
-- can run, `x` runs after one switch more than there are tasks in `xs`; the rounds that
-- `pick_next` has are more than the other tasks of the ring.
pub turns-current :
    (xs : List ℕ) (x : ℕ) (ys : List ℕ) (fuel : ℕ) {s : Sched}
    → Turn s (xs ++ (x ∷ ys))
    → All (λ q. can_run (s.mem q).state ≡ true) (xs ++ (x ∷ []))
    → length (xs ++ (x ∷ ys)) < fuel
    → (s' : Sched) × (turns fuel (suc (length xs)) s ≡ some s') × (s'.current_task ≡ x)
turns-current [] x ys fuel {s} h runs lt =
    (do_switch x s, rw (reschedule-first x ys fuel h runs.0 lt) refl, (do_switch-Turn x ys h).1)
turns-current (z ∷ zs) x ys fuel {s} h runs lt =
    let r : ℕ = s.run_queue in
    let ys' : List ℕ = ys ++ (r ∷ []) in
    let later : List ℕ = zs ++ (x ∷ ys) in
    let turned : Turn (do_switch z s) (zs ++ (x ∷ ys')) =
      subst (Turn (do_switch z s)) (append_assoc zs (x ∷ ys) (r ∷ []))
        (do_switch-Turn z later h).0 in
    let fits : length (zs ++ (x ∷ ys')) < fuel =
      omega
        (arith, length-append zs (x ∷ ys), length-append zs (x ∷ ys'), length-append ys (r ∷ [])) in
    let (s', ended, runs_last) =
      turns-current zs x ys' fuel turned (runnable-do_switch z s (zs ++ (x ∷ [])) runs.1) fits in
    (s', rw (reschedule-first z later fuel h runs.0 lt) ended, runs_last)
