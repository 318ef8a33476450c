-- ===== src/Mutex/Places.antt =====
-- kernel/mutex.cpp: tasks at the places of `lock`, `unlock` and `try_lock`, and what holds of all.
use knail.Prelude.{
  ℕ, ◌≡◌, ◌≢◌, ◌⊎◌, refl, Bool, true, false, arith, ◌==◌, if◌then◌else◌, Bool-cases, inl, inr,
}
use knail.Mutex.{Mutex, unlocked, Call, unlock, Place, outside, enters, tests, takes, leaves, pass}

-- The mutex, the place of each task, and whether it got the mutex and did not unlock it since.
pub record System : Type 0 where
  pub mutex : Mutex
  pub place : ℕ → Place
  pub has : ℕ → Bool

abbrev pub start : System
start = record { mutex = unlocked; place = λ t. outside; has = λ t. false }

-- Whether a task has the mutex behind a pass: its writes give it, and `unlock` takes it.
abbrev pub has_after : Place → Bool → Bool
has_after takes h = true
has_after (tests unlock) h = false
has_after p h = h

-- The system with other values for a task.
abbrev pub with_task : ℕ → Place → Bool → Mutex → System → System
with_task t p h m s = record {
  mutex = m;
  place = λ u. if u == t then p else s.place u;
  has = λ u. if u == t then h else s.has u;
}

-- A task that is outside calls a function, `unlock` only where it has the mutex; and any task makes
-- a pass.
pub data Step (s : System) : System → Type 0 where
  calls :
      (t : ℕ) (call : Call)
      → s.place t ≡ outside
      → (call ≡ unlock → s.has t ≡ true)
      → Step s (with_task t (enters call) (s.has t) s.mutex s)
  passes :
      (t : ℕ)
      → Step s (
          with_task t
            (pass t (s.place t) s.mutex).0
            (has_after (s.place t) (s.has t))
            (pass t (s.place t) s.mutex).1
            s)

pub data Reach : System → Type 0 where
  begin : Reach start
  then_step : {s s' : System} → Reach s → Step s s' → Reach s'

-- The places behind the exchange on the guard and before its release.
abbrev pub guarded : Place → Bool
guarded outside = false
guarded (enters call) = false
guarded (tests call) = true
guarded takes = true
guarded (leaves again) = true

abbrev pub is_takes : Place → Bool
is_takes takes = true
is_takes p = false

abbrev pub unlocks : Place → Bool
unlocks (enters unlock) = true
unlocks (tests unlock) = true
unlocks p = false

pub record Sound (s : System) : Type 0 where
  pub alone : (t u : ℕ) → guarded (s.place t) ≡ true → guarded (s.place u) ≡ true → t ≡ u
  pub shut : (t : ℕ) → guarded (s.place t) ≡ true → s.mutex.guard.flag ≡ 1
  pub found_free : (t : ℕ) → is_takes (s.place t) ≡ true → s.mutex.locked ≡ false
  pub owned : (t : ℕ) → s.has t ≡ true → (s.mutex.locked ≡ true) × (s.mutex.owner ≡ t)
  pub in_use : s.mutex.locked ≡ true → s.has s.mutex.owner ≡ true
  pub entitled : (t : ℕ) → unlocks (s.place t) ≡ true → s.has t ≡ true

-- What a step of task `t` to place `p` owes the others.
pub record Fits (s : System) (t : ℕ) (p : Place) (h : Bool) (m : Mutex) : Type 0 where
  pub entry : guarded p ≡ true → (guarded (s.place t) ≡ true) ⊎ (s.mutex.guard.flag ≡ 0)
  pub shut : guarded p ≡ true → m.guard.flag ≡ 1
  pub shut_other : (u : ℕ) → u ≢ t → guarded (s.place u) ≡ true → m.guard.flag ≡ 1
  pub free : is_takes p ≡ true → m.locked ≡ false
  pub free_other : (u : ℕ) → u ≢ t → is_takes (s.place u) ≡ true → m.locked ≡ false
  pub owned : h ≡ true → (m.locked ≡ true) × (m.owner ≡ t)
  pub owned_other : (u : ℕ) → u ≢ t → s.has u ≡ true → (m.locked ≡ true) × (m.owner ≡ u)
  pub in_use :
      m.locked ≡ true → ((m.owner ≡ t) × (h ≡ true)) ⊎ ((m.owner ≢ t) × (s.has m.owner ≡ true))
  pub entitled : unlocks p ≡ true → h ≡ true

-- A value that one task has and another that the others have.
at_task :
    {A : Type 0} (P : ℕ → A → Type 0) (t : ℕ) (x : A) (f : ℕ → A)
    → P t x
    → ((u : ℕ) → u ≢ t → P u (f u))
    → (u : ℕ) → P u (if u == t then x else f u)
at_task P t x f here there u = elim (Bool-cases (u == t)) [
  | inl e ↦ let same : u ≡ t = ground arith in rw (e, same) here
  | inr e ↦ rw e (there u (ground arith))
]

pub with_task-Sound :
    (s : System) (t : ℕ) (p : Place) (h : Bool) (m : Mutex)
    → Sound s
    → Fits s t p h m
    → Sound (with_task t p h m s)
with_task-Sound s t p h m v f = record {
  alone =
      at_task
        (λ u x.
          (w : ℕ) → guarded x ≡ true → guarded (if w == t then p else s.place w) ≡ true → u ≡ w)
        t p s.place
        (λ w a.
          at_task (λ w y. guarded y ≡ true → t ≡ w) t p s.place (λ b. refl)
            (λ w ne b. absurd (apart w ne a b)) w)
        (λ u ne w a.
          at_task (λ w y. guarded y ≡ true → u ≡ w) t p s.place (λ b. absurd (apart u ne b a))
            (λ w off b. v.alone u w a b) w);
  shut = at_task (λ u x. guarded x ≡ true → m.guard.flag ≡ 1) t p s.place f.shut f.shut_other;
  found_free =
      at_task (λ u x. is_takes x ≡ true → m.locked ≡ false) t p s.place f.free f.free_other;
  owned =
      at_task (λ u x. x ≡ true → (m.locked ≡ true) × (m.owner ≡ u)) t h s.has f.owned f.owned_other;
  in_use = λ e. used (f.in_use e);
  entitled = both;
}
  where
    apart : (u : ℕ) → u ≢ t → guarded p ≡ true → guarded (s.place u) ≢ true
    apart u ne a b = elim (f.entry a) [
      | inl mine ↦ ne (v.alone u t b mine)
      | inr open_guard ↦ let held = v.shut u b in omega arith
    ]

    used :
        ((m.owner ≡ t) × (h ≡ true)) ⊎ ((m.owner ≢ t) × (s.has m.owner ≡ true))
        → (if m.owner == t then h else s.has m.owner) ≡ true
    used (inl (e, own)) = let here : (m.owner == t) ≡ true = ground arith in rw here own
    used (inr (ne, own)) = let away : (m.owner == t) ≡ false = ground arith in rw away own

    both :
        (u : ℕ)
        → unlocks (if u == t then p else s.place u) ≡ true
        → (if u == t then h else s.has u) ≡ true
    both u e = elim (Bool-cases (u == t)) [
      | inl here ↦ rw here (f.entitled (rw here at e))
      | inr away ↦ rw away (v.entitled u (rw away at e))
    ]
