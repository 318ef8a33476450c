-- ===== src/Scheduler/Spawned.antt =====
-- kernel/scheduler.cpp: what `spawn` leaves on each of its ways.
use knail.Types.{ok, err, KError}
use knail.Prelude.{
  ℕ, ◌+◌, ◌-◌, ◌^◌, ◌%◌, false, List, [], ◌∷◌, ◌++◌, ◌==◌, ◌≡◌, ◌≢◌, refl, sym, ap, ◌∙◌, ◌⊎◌, inl,
  inr, subst, Bool-cases, arith,
}
use knail.Scheduler.Ring.{IsRing, Absent, Trail-put, put_same, put_other}
use knail.Scheduler.Queue.{enqueue-IsRing}
use knail.Scheduler.{ready, Task, Sched, put, enqueue, set_next, kfree}
use knail.Scheduler.Spawn.{spawned_task, spawn_enqueued, spawn}

-- A task that has not run: it is ready, with a full time slice, and the first switch to it pops
-- nine zeros, the entry into `r15`, and goes to the trampoline.
pub record IsNew (t : Task) (tid stack trampoline entry stack_size quantum : ℕ) : Type 0 where
  pub is_ready : t.state ≡ ready
  pub tid_given : t.tid ≡ tid
  pub slice : t.timeslice ≡ quantum
  pub slices : t.quantum ≡ quantum
  pub stack_given : t.stack ≡ stack
  pub stack_pointer : t.ctx ≡ stack + stack_size - 88
  pub pops : t.frame ≡ 0 ∷ 0 ∷ 0 ∷ 0 ∷ 0 ∷ 0 ∷ 0 ∷ 0 ∷ 0 ∷ entry ∷ trampoline ∷ []
  pub no_table : t.fd_table ≡ 0
  pub no_space : t.pml4 ≡ 0

-- What `spawn` leaves when both allocations are made.
pub record Spawned (s s' : Sched) (rest : List ℕ) (t stack trampoline entry stack_size quantum : ℕ)
    : Type 0 where
  pub ring : IsRing s' (t ∷ rest)
  pub fresh : IsNew (s'.mem t) s.next_tid stack trampoline entry stack_size quantum
  pub counted : s'.next_tid ≡ (s.next_tid + 1) % 2 ^ 32
  pub current : s'.current_task ≡ s.current_task
  pub first : s'.run_queue ≡ s.run_queue
  pub others : (q : ℕ) → q ≢ t → q ≢ s.run_queue → s'.mem q ≡ s.mem q

module _ {s : Sched} {rest : List ℕ} (t stack trampoline entry : ℕ) (name : List ℕ)
    (stack_size quantum : ℕ) (h : IsRing s rest) (ne : t ≢ s.run_queue) (off : Absent t rest) where
  numbered : Sched
  numbered = record s {
    mem =
        put t (spawned_task stack trampoline entry name stack_size quantum s.next_tid (s.mem t))
          s.mem;
    next_tid = (s.next_tid + 1) % 2 ^ 32;
  }

  numbered-IsRing : IsRing numbered rest
  unfolding numbered
  numbered-IsRing =
      let task : Task =
        spawned_task stack trampoline entry name stack_size quantum s.next_tid (s.mem t) in
      record {
        links =
            rw (put_other t s.run_queue task s.mem (λ e. ne (sym e)))
              (Trail-put t task s.mem rest (s.mem s.run_queue).next s.run_queue off h.links);
        live = h.live;
        others = h.others;
        others_live = h.others_live;
        distinct = h.distinct;
      }

-- `enqueue` changes the links of two tasks only.
enqueue_self :
    (t : ℕ) (s : Sched)
    → s.run_queue ≢ 0
    → t ≢ s.run_queue
    → (enqueue t s).mem t ≡ record (s.mem t) { next = (s.mem s.run_queue).next }
unfolding enqueue set_next
enqueue_self t s live ne =
    let some_first : (s.run_queue == 0) ≡ false = ground arith in
    rw some_first (put_other s.run_queue t _ _ ne ∙ put_same t _ s.mem)

enqueue_other :
    (t q : ℕ) (s : Sched)
    → s.run_queue ≢ 0
    → q ≢ t
    → q ≢ s.run_queue
    → (enqueue t s).mem q ≡ s.mem q
unfolding enqueue set_next
enqueue_other t q s live ne off =
    let some_first : (s.run_queue == 0) ≡ false = ground arith in
    rw some_first (put_other s.run_queue q _ _ off ∙ put_other t q _ s.mem ne)

enqueue_rest :
    (t : ℕ) (s : Sched)
    → s.run_queue ≢ 0
    → ((enqueue t s).next_tid ≡ s.next_tid)
      × ((enqueue t s).current_task ≡ s.current_task)
      × ((enqueue t s).run_queue ≡ s.run_queue)
unfolding enqueue set_next
enqueue_rest t s live =
    let some_first : (s.run_queue == 0) ≡ false = ground arith in rw some_first (refl, refl, refl)

module _ {s : Sched} {rest : List ℕ} (t stack trampoline entry : ℕ) (name : List ℕ)
    (stack_size quantum : ℕ) (h : IsRing s rest) (ne : t ≢ s.run_queue) (off : Absent t rest) where
  spawned_task-IsNew :
      (old : Task) (link : ℕ)
      → IsNew
          (record (spawned_task stack trampoline entry name stack_size quantum s.next_tid old) {
            next = link;
          })
          s.next_tid
          stack
          trampoline
          entry
          stack_size
          quantum
  unfolding spawned_task
  spawned_task-IsNew old link = record {
    is_ready = refl;
    tid_given = refl;
    slice = refl;
    slices = refl;
    stack_given = refl;
    stack_pointer = refl;
    pops = refl;
    no_table = refl;
    no_space = refl;
  }

  new_task-IsNew :
      t ≢ 0
      → IsNew
          ((enqueue t (numbered t stack trampoline entry name stack_size quantum h ne off)).mem t)
          s.next_tid
          stack
          trampoline
          entry
          stack_size
          quantum
  unfolding numbered
  new_task-IsNew given =
      let s1 = numbered t stack trampoline entry name stack_size quantum h ne off in
      let task : Task =
        spawned_task stack trampoline entry name stack_size quantum s.next_tid (s.mem t) in
      let same : (enqueue t s1).mem t ≡ record task { next = (s1.mem s1.run_queue).next } =
        enqueue_self t s1 h.live ne
        ∙ ap (λ (x : Task). record x { next = (s1.mem s1.run_queue).next })
            (put_same t task s.mem) in
      subst (λ x. IsNew x s.next_tid stack trampoline entry stack_size quantum) (sym same)
        (spawned_task-IsNew (s.mem t) (s1.mem s1.run_queue).next)

  numbered-Spawned :
      t ≢ 0
      → Spawned s
          (enqueue t (numbered t stack trampoline entry name stack_size quantum h ne off))
          rest
          t
          stack
          trampoline
          entry
          stack_size
          quantum
  unfolding numbered
  numbered-Spawned given =
      let s1 = numbered t stack trampoline entry name stack_size quantum h ne off in
      let kept = enqueue_rest t s1 h.live in
      record {
        ring =
            enqueue-IsRing t
              (numbered-IsRing t stack trampoline entry name stack_size quantum h ne off) off ne
              given;
        fresh = new_task-IsNew given;
        counted = kept.0;
        current = kept.1;
        first = kept.2;
        others =
            λ q apart away. enqueue_other t q s1 h.live apart away ∙ put_other t q _ s.mem apart;
      }

-- With the new task at an address that no task of the ring has: where the task is not allocated,
-- `spawn` fails and changes nothing; where its stack is not, it fails and frees the task; otherwise
-- it answers the next number, which the new task has, and counts it. The task is ready to enter the
-- trampoline and stands behind the first of the ring, before all that wait; the first, the current
-- task and every other stay.
pub spawn-Spawned :
    {s : Sched} {rest : List ℕ} (t stack trampoline entry : ℕ) (name : List ℕ)
    (stack_size quantum : ℕ)
    → IsRing s rest
    → t ≢ s.run_queue
    → Absent t rest
    → ((t ≡ 0)
        × (spawn t stack trampoline entry name stack_size quantum s
            ≡ (err KError.out_of_memory, s)))
      ⊎ (stack ≡ 0)
        × (spawn t stack trampoline entry name stack_size quantum s
            ≡ (err KError.out_of_memory, record s { freed = s.freed ++ (t ∷ []) }))
      ⊎ ((spawn t stack trampoline entry name stack_size quantum s).0 ≡ ok s.next_tid)
        × Spawned s
            (spawn t stack trampoline entry name stack_size quantum s).1
            rest
            t
            stack
            trampoline
            entry
            stack_size
            quantum
unfolding spawn spawn_enqueued kfree numbered
spawn-Spawned {s} {rest} t stack trampoline entry name stack_size quantum h ne off =
    elim (Bool-cases (t == 0)) [
      | inl null ↦ inl (ground arith, rw null refl)
      | inr given ↦ elim (Bool-cases (stack == 0)) [
        | inl no_stack ↦ inr (inl (ground arith, rw (given, no_stack) refl))
        | inr live ↦
            let made =
              numbered-Spawned t stack trampoline entry name stack_size quantum h ne off
                (ground arith) in
            rw (given, live) (inr (inr (ap ok made.fresh.tid_given, made)))
      ]
    ]
