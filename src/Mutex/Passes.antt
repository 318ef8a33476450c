-- ===== src/Mutex/Passes.antt =====
-- kernel/mutex.cpp: each pass of a task keeps what holds of all.
use native.Mathlib.Decide.{ℕ_discrete}
use knail.Prelude.{
  ℕ, ◌≡◌, ◌≢◌, ◌⊎◌, refl, sym, ◌∙◌, ap, subst, Bool, true, false, List, [], ◌∷◌, arith, ◌==◌,
  if◌then◌else◌, Bool-cases, inl, inr,
}
use knail.Mutex.{
  Spinlock, Mutex, Call, lock, unlock, try_lock, Place, outside, enters, tests, takes, leaves,
  try_acquire, release, wake_first, pass,
}
use knail.Mutex.Places.{System, has_after, guarded, is_takes, unlocks, Sound, Fits}

-- What a step to place `p` owes when neither `locked`, nor `owner`, nor who has the mutex changes.
same-Fits :
    (s : System) (t : ℕ) (p : Place) (m : Mutex)
    → Sound s
    → m.locked ≡ s.mutex.locked
    → m.owner ≡ s.mutex.owner
    → (guarded p ≡ true → (guarded (s.place t) ≡ true) ⊎ (s.mutex.guard.flag ≡ 0))
    → (guarded p ≡ true → m.guard.flag ≡ 1)
    → ((u : ℕ) → u ≢ t → guarded (s.place u) ≡ true → m.guard.flag ≡ 1)
    → (is_takes p ≡ true → s.mutex.locked ≡ false)
    → (unlocks p ≡ true → s.has t ≡ true)
    → Fits s t p (s.has t) m
same-Fits s t p m v locked owner entry shut shut_other free entitled = record {
  entry = entry;
  shut = shut;
  shut_other = shut_other;
  free = λ e. locked ∙ free e;
  free_other = λ u ne e. locked ∙ v.found_free u e;
  owned = λ e. let own = v.owned t e in (locked ∙ own.0, owner ∙ own.1);
  owned_other = λ u ne e. let own = v.owned u e in (locked ∙ own.0, owner ∙ own.1);
  in_use = λ e. by_owner (v.in_use (sym locked ∙ e));
  entitled = entitled;
}
  where
    by_owner :
        s.has s.mutex.owner ≡ true
        → ((m.owner ≡ t) × (s.has t ≡ true)) ⊎ ((m.owner ≢ t) × (s.has m.owner ≡ true))
    by_owner e = elim (ℕ_discrete m.owner t) [
      | yes mine ↦ inl (mine, subst (λ (u : ℕ). s.has u ≡ true) (sym owner ∙ mine) e)
      | no other ↦ inr (other, subst (λ (u : ℕ). s.has u ≡ true) (sym owner) e)
    ]

-- A step to a place outside the guard that leaves the mutex.
pub idle-Fits :
    (s : System) (t : ℕ) (p : Place)
    → Sound s
    → guarded p ≡ false
    → is_takes p ≡ false
    → (unlocks p ≡ true → s.has t ≡ true)
    → Fits s t p (s.has t) s.mutex
idle-Fits s t p v off no_takes entitled =
    same-Fits s t p s.mutex v refl refl (λ e. absurd (ground (arith, e, off)))
      (λ e. absurd (ground (arith, e, off))) (λ u ne e. v.shut u e)
      (λ e. absurd (ground (arith, e, no_takes))) entitled

module _ (s : System) (t : ℕ) (v : Sound s) where
  enters-Fits :
      (call : Call)
      → s.place t ≡ enters call
      → Fits s t (pass t (enters call) s.mutex).0 (s.has t) (pass t (enters call) s.mutex).1
  unfolding pass try_acquire
  enters-Fits call at = elim (Bool-cases (s.mutex.guard.flag == 0)) [
    | inl open_guard ↦ rw open_guard (
        same-Fits s t (tests call) _ v refl refl (λ e. inr (ground arith)) (λ e. refl)
          (λ u ne e. refl) (λ e. absurd cc) (λ e. v.entitled t (rw at (to_enters call e))))
    | inr held ↦ rw held (
        same-Fits s t (enters call) _ v refl refl (λ e. absurd cc) (λ e. absurd cc) (λ u ne e. refl)
          (λ e. absurd cc) (λ e. v.entitled t (rw at e)))
  ]
    where
      to_enters : (call : Call) → unlocks (tests call) ≡ true → unlocks (enters call) ≡ true
      to_enters lock e = absurd cc
      to_enters unlock e = refl
      to_enters try_lock e = absurd cc

  -- The task holds the guard.
  module _ (inside : guarded (s.place t) ≡ true) where
    tested-Fits :
        (p : Place) (m : Mutex)
        → m.locked ≡ s.mutex.locked
        → m.owner ≡ s.mutex.owner
        → m.guard ≡ s.mutex.guard
        → (is_takes p ≡ true → s.mutex.locked ≡ false)
        → unlocks p ≡ false
        → Fits s t p (s.has t) m
    tested-Fits p m locked owner guard free no_unlock =
        let flag : m.guard.flag ≡ 1 = ap (λ (g : Spinlock). g.flag) guard ∙ v.shut t inside in
        same-Fits s t p m v locked owner (λ e. inl inside) (λ e. flag) (λ u ne e. flag) free
          (λ e. absurd (ground (arith, e, no_unlock)))

    released-Fits :
        (p : Place)
        → guarded p ≡ false
        → is_takes p ≡ false
        → unlocks p ≡ false
        → Fits s t p (s.has t) (record s.mutex { guard = release s.mutex.guard })
    released-Fits p off no_takes no_unlock =
        same-Fits s t p _ v refl refl (λ e. absurd (ground (arith, e, off)))
          (λ e. absurd (ground (arith, e, off))) (λ u ne e. absurd (ne (v.alone u t e inside)))
          (λ e. absurd (ground (arith, e, no_takes))) (λ e. absurd (ground (arith, e, no_unlock)))

    taken-Fits :
        s.mutex.locked ≡ false
        → Fits s t (leaves false) true (record s.mutex { locked = true; owner = t })
    taken-Fits free = record {
      entry = λ e. inl inside;
      shut = λ e. v.shut t inside;
      shut_other = λ u ne e. v.shut u e;
      free = λ e. absurd cc;
      free_other = λ u ne e. absurd (ne (v.alone u t (takes-guarded (s.place u) e) inside));
      owned = λ e. (refl, refl);
      owned_other = λ u ne e. absurd (let own = (v.owned u e).0 in ground (arith, own, free));
      in_use = λ e. inl (refl, refl);
      entitled = λ e. absurd cc;
    }
      where
        takes-guarded : (p : Place) → is_takes p ≡ true → guarded p ≡ true
        takes-guarded outside e = absurd cc
        takes-guarded (enters call) e = absurd cc
        takes-guarded (tests call) e = refl
        takes-guarded takes e = refl
        takes-guarded (leaves again) e = refl

    freed-Fits :
        s.has t ≡ true → (ws : List ℕ) → Fits s t (leaves false) false (wake_first ws s.mutex)
    unfolding wake_first
    freed-Fits mine [] = record {
      entry = λ e. inl inside;
      shut = λ e. v.shut t inside;
      shut_other = λ u ne e. v.shut u e;
      free = λ e. absurd cc;
      free_other = λ u ne e. refl;
      owned = λ e. absurd cc;
      owned_other = λ u ne e. absurd (ne (sym (v.owned u e).1 ∙ (v.owned t mine).1));
      in_use = λ e. absurd cc;
      entitled = λ e. absurd cc;
    }
    freed-Fits mine (w ∷ ws) = record {
      entry = λ e. inl inside;
      shut = λ e. v.shut t inside;
      shut_other = λ u ne e. v.shut u e;
      free = λ e. absurd cc;
      free_other = λ u ne e. refl;
      owned = λ e. absurd cc;
      owned_other = λ u ne e. absurd (ne (sym (v.owned u e).1 ∙ (v.owned t mine).1));
      in_use = λ e. absurd cc;
      entitled = λ e. absurd cc;
    }

  choose-Fits :
      (b : Bool) (x y : Place × Mutex)
      → (b ≡ true → Fits s t x.0 (s.has t) x.1)
      → (b ≡ false → Fits s t y.0 (s.has t) y.1)
      → Fits s t (if b then x else y).0 (s.has t) (if b then x else y).1
  choose-Fits true x y f g = f refl
  choose-Fits false x y f g = g refl

  pub pass-Fits :
      (p : Place)
      → s.place t ≡ p
      → Fits s t (pass t p s.mutex).0 (has_after p (s.has t)) (pass t p s.mutex).1
  unfolding pass
  pass-Fits outside at = idle-Fits s t outside v refl refl (λ e. absurd cc)
  pass-Fits (enters lock) at = enters-Fits lock at
  pass-Fits (enters unlock) at = enters-Fits unlock at
  pass-Fits (enters try_lock) at = enters-Fits try_lock at
  pass-Fits (tests lock) at =
      let inside : guarded (s.place t) ≡ true = rw at refl in
      let waits : Mutex = record s.mutex {
        waiters = t ∷ s.mutex.waiters;
        marks = (t, false) ∷ s.mutex.marks;
      } in
      choose-Fits s.mutex.locked (leaves true, waits) (takes, s.mutex)
        (λ held. tested-Fits inside (leaves true) waits refl refl refl (λ e. absurd cc) refl)
        (λ free. tested-Fits inside takes s.mutex refl refl refl (λ e. free) refl)
  pass-Fits (tests try_lock) at =
      let inside : guarded (s.place t) ≡ true = rw at refl in
      choose-Fits s.mutex.locked (leaves false, s.mutex) (takes, s.mutex)
        (λ held. tested-Fits inside (leaves false) s.mutex refl refl refl (λ e. absurd cc) refl)
        (λ free. tested-Fits inside takes s.mutex refl refl refl (λ e. free) refl)
  pass-Fits (tests unlock) at = freed-Fits (rw at refl) (v.entitled t (rw at refl)) s.mutex.waiters
  pass-Fits takes at = taken-Fits (rw at refl) (v.found_free t (rw at refl))
  pass-Fits (leaves true) at = released-Fits (rw at refl) (enters lock) refl refl refl
  pass-Fits (leaves false) at = released-Fits (rw at refl) outside refl refl refl
