-- ===== src/Scheduler/Queue.antt =====
-- kernel/scheduler.cpp: `enqueue` puts a task into the ring and `unlink_task` takes one out.
use knail.Prelude.{
  ℕ, zero, suc, ◌+◌, ◌<◌, ◌≡◌, ◌≢◌, refl, ap, sym, ◌∙◌, subst, true, false, List, [], ◌∷◌, ◌++◌,
  some, arith, ◌==◌, if◌then◌else◌, length, inl, inr, ◌⊎◌, length-append,
}
use knail.Scheduler.{
  Sched, Task, put, set_next, enqueue, find_prev, unlink_after, unlink_with, unlink_task,
}
use knail.Scheduler.Ring.{
  Trail, Absent, IsRing, put_same, put_other, Trail-put, Absent-append, Absent-join, Trail-split,
  Trail-join, Distinct-remove, Distinct-left, last_or_apart, last_or-snoc, Trail-start, last_or,
  last_or-next, Trail-relink,
}

==_false : (a b : ℕ) → a ≢ b → (a == b) ≡ false
==_false a b h = ground arith

==_true : (a b : ℕ) → a ≡ b → (a == b) ≡ true
==_true a b h = ground arith

-- In a ring, `enqueue` puts a task that is not in it, and not at address 0, behind the first one.
pub enqueue-IsRing :
    {s : Sched} {rest : List ℕ} (t : ℕ)
    → IsRing s rest
    → Absent t rest
    → t ≢ s.run_queue
    → t ≢ 0
    → IsRing (enqueue t s) (t ∷ rest)
unfolding enqueue set_next
enqueue-IsRing {s} {rest} t h off ne live =
    let r : ℕ = s.run_queue in
    let mem1 : ℕ → Task = put t (record (s.mem t) { next = (s.mem r).next }) s.mem in
    let first : Task = record (mem1 r) { next = t } in
    let linked : (put r first mem1 t).next ≡ (s.mem r).next =
      rw
        (put_other r t first mem1 ne, put_same t (record (s.mem t) { next = (s.mem r).next }) s.mem)
        refl in
    let path : Trail (put r first mem1) (s.mem r).next rest r =
      Trail-put r first mem1 rest (s.mem r).next r h.others (
        Trail-put t (record (s.mem t) { next = (s.mem r).next }) s.mem rest (s.mem r).next r off
          h.links) in
    rw (==_false r 0 h.live) (record {
      links = (
        rw (put_same r first mem1) refl,
        subst (λ i. Trail (put r first mem1) i rest r) (sym linked) path,
      );
      live = h.live;
      others = (ne, h.others);
      others_live = (live, h.others_live);
      distinct = (off, h.distinct);
    })

-- Into an empty queue it goes alone.
pub enqueue_empty-IsRing : (s : Sched) (t : ℕ) → s.run_queue ≡ 0 → t ≢ 0 → IsRing (enqueue t s) []
unfolding enqueue set_next
enqueue_empty-IsRing s t e ne = rw (==_true s.run_queue 0 e) (record {
  links = rw (put_same t (record (s.mem t) { next = t }) s.mem) refl;
  live = ne;
  others = tt;
  others_live = tt;
  distinct = tt;
})

-- The loop of `unlink_task` follows a path on which it meets neither the victim nor the start,
-- when one of the two is at its end.
find_prev_lem :
    (xs : List ℕ) (fuel victim prev stop : ℕ) (s : Sched)
    → length xs < fuel
    → Trail s.mem (s.mem prev).next xs stop
    → Absent victim xs
    → Absent s.run_queue xs
    → (stop ≡ victim) ⊎ (stop ≡ s.run_queue)
    → find_prev fuel victim prev s ≡ some (last_or prev xs)
unfolding find_prev
find_prev_lem xs zero victim prev stop s lt h v r e = absurd (omega arith)
find_prev_lem [] (suc fuel) victim prev stop s lt h v r (inl e) =
    rw (==_true (s.mem prev).next victim (h ∙ e)) refl
find_prev_lem [] (suc fuel) victim prev stop s lt h v r (inr e) = ground arith
find_prev_lem (x ∷ xs) (suc fuel) victim prev stop s lt h v r e =
    let next : (s.mem prev).next ≡ x = h.0 in
    let rest : find_prev fuel victim x s ≡ some (last_or x xs) =
      find_prev_lem xs fuel victim x stop s (omega arith) h.1 v.1 r.1 e in
    rw (next, ==_false x victim v.0, ==_false x s.run_queue r.0) rest

-- Unlinking a victim that is not the whole ring, with the task before it in hand.
unlinked : (prev victim : ℕ) → Sched → Sched
unlinked prev victim s = set_next victim 0 (record (set_next prev (s.mem victim).next s) {
  run_queue = if s.run_queue == victim then prev else s.run_queue;
})

unlink_after_lem :
    (prev victim : ℕ) (s : Sched)
    → (s.mem prev).next ≡ victim
    → (s.mem victim).next ≢ victim
    → unlink_after prev victim s ≡ unlinked prev victim s
unfolding unlink_after set_next unlinked
unlink_after_lem prev victim s e ne =
    rw (==_true (s.mem prev).next victim e, ==_false (s.mem victim).next victim ne) refl

-- The ring of `xs` and `ys`, once the task before `v` leads past `v`.
unlinked_links :
    (xs ys : List ℕ) (v : ℕ) (s : Sched)
    → IsRing s (xs ++ (v ∷ ys))
    → Trail
        (unlinked (last_or s.run_queue xs) v s).mem
        ((unlinked (last_or s.run_queue xs) v s).mem s.run_queue).next
        (xs ++ ys)
        s.run_queue
unfolding unlinked set_next
unlinked_links xs ys v s h =
    let r : ℕ = s.run_queue in
    let vn : ℕ = (s.mem v).next in
    let prev : ℕ = last_or r xs in
    let t1 : Task = record (s.mem prev) { next = vn } in
    let mem1 : ℕ → Task = put prev t1 s.mem in
    let t2 : Task = record (mem1 v) { next = 0 } in
    let parts = Trail-split s.mem xs (s.mem r).next v ys r h.links in
    let away = Absent-append r xs (v ∷ ys) h.others in
    let gone = Distinct-remove xs v ys h.distinct in
    let front : Trail mem1 (mem1 r).next xs vn =
      Trail-relink s.mem xs r v vn t1 refl away.0 (Distinct-left xs (v ∷ ys) h.distinct) parts.0 in
    let back : Trail mem1 vn ys r =
      Trail-put prev t1 s.mem ys vn r (last_or_apart xs r v ys h.distinct away.1.1) parts.1 in
    rw (put_other v r t2 mem1 (λ e. away.1.0 (sym e))) (
      Trail-put v t2 mem1 (xs ++ ys) (mem1 r).next r gone.1
        (Trail-join mem1 xs (mem1 r).next vn ys r front back))

-- For a task of the ring other than the first, and more rounds than tasks stand between the two,
-- `unlink_task` ends, takes the task out of its place, and leaves the others in order.
pub unlink_task-IsRing :
    {s : Sched} (xs ys : List ℕ) (v fuel : ℕ)
    → IsRing s (xs ++ (v ∷ ys))
    → length xs < fuel
    → (s' : Sched) × (unlink_task fuel v s ≡ some s')
      × IsRing s' (xs ++ ys)
      × (s'.run_queue ≡ s.run_queue)
unfolding unlink_task unlink_with unlinked set_next
unlink_task-IsRing {s} xs ys v fuel h lt =
    let r : ℕ = s.run_queue in
    let prev : ℕ = last_or r xs in
    let parts = Trail-split s.mem xs (s.mem r).next v ys r h.links in
    let away = Absent-append r xs (v ∷ ys) h.others in
    let alive = Absent-append 0 xs (v ∷ ys) h.others_live in
    let gone = Distinct-remove xs v ys h.distinct in
    let mine = Absent-append v xs ys gone.1 in
    let found : find_prev fuel v r s ≡ some prev =
      find_prev_lem xs fuel v r v s lt parts.0 mine.0 away.0 (inl refl) in
    let done : unlink_after prev v s ≡ unlinked prev v s =
      unlink_after_lem prev v s (last_or-next s.mem xs r v parts.0)
        (Trail-start s.mem ys (s.mem v).next r v parts.1 mine.1 (λ e. away.1.0 (sym e))) in
    let kept : (unlinked prev v s).run_queue ≡ r = rw (==_false r v (λ e. away.1.0 (sym e))) refl in
    (
      unlinked prev v s,
      rw (==_false r 0 h.live, ==_false v 0 alive.1.0, found, done) refl,
      record {
        links = rw kept (unlinked_links xs ys v s h);
        live = rw kept h.live;
        others = rw kept (Absent-join r xs ys away.0 away.1.1);
        others_live = Absent-join 0 xs ys alive.0 alive.1.1;
        distinct = gone.0;
      },
      kept,
    )

-- For the first task of a ring of several, and more rounds than there are others, `unlink_task`
-- ends, takes the task out, and leaves the others in order, with the last one first.
pub unlink_first-IsRing :
    {s : Sched} (xs : List ℕ) (l fuel : ℕ)
    → IsRing s (xs ++ (l ∷ []))
    → length xs + 1 < fuel
    → (s' : Sched) × (unlink_task fuel s.run_queue s ≡ some s') × IsRing s' xs × (s'.run_queue ≡ l)
unfolding unlink_task unlink_with unlinked set_next
unlink_first-IsRing {s} xs l fuel h lt =
    let r : ℕ = s.run_queue in
    let rn : ℕ = (s.mem r).next in
    let t1 : Task = record (s.mem l) { next = rn } in
    let mem1 : ℕ → Task = put l t1 s.mem in
    let t2 : Task = record (mem1 r) { next = 0 } in
    let parts = Trail-split s.mem xs rn l [] r h.links in
    let away = Absent-append r xs (l ∷ []) h.others in
    let alive = Absent-append 0 xs (l ∷ []) h.others_live in
    let mine : Absent l xs = (Absent-append l xs [] (Distinct-remove xs l [] h.distinct).1).0 in
    let found : find_prev fuel r r s ≡ some l =
      find_prev_lem (xs ++ (l ∷ [])) fuel r r r s (omega (arith, length-append xs (l ∷ []))) h.links
        h.others h.others (inl refl)
      ∙ ap some (last_or-snoc r l xs) in
    let done : unlink_after l r s ≡ unlinked l r s =
      unlink_after_lem l r s parts.1 (Trail-start s.mem xs rn l r parts.0 away.0 away.1.0) in
    let moved : (unlinked l r s).run_queue ≡ l = rw (==_true r r refl) refl in
    let link : ((unlinked l r s).mem l).next ≡ rn =
      rw (put_other r l t2 mem1 away.1.0, put_same l t1 s.mem) refl in
    let path : Trail (put r t2 mem1) rn xs l =
      Trail-put r t2 mem1 xs rn l away.0 (Trail-put l t1 s.mem xs rn l mine parts.0) in
    (
      unlinked l r s,
      rw (==_false r 0 h.live, found, done) refl,
      record {
        links = rw moved (subst (λ i. Trail (put r t2 mem1) i xs l) (sym link) path);
        live = rw moved alive.1.0;
        others = rw moved mine;
        others_live = alive.0;
        distinct = Distinct-left xs (l ∷ []) h.distinct;
      },
      moved,
    )
