-- ===== src/Scheduler/Ring.antt =====
-- kernel/scheduler.cpp: what it is for the `next` links to form a ring, and how a write to one
-- link changes it.
use knail.Prelude.{ℕ, ◌≡◌, ◌≢◌, refl, sym, ◌∙◌, subst, List, [], ◌∷◌, ◌++◌, arith, All}
use knail.Scheduler.{Sched, Task, put}

-- Following `next` from `a`, one meets `xs` and then `b`.
abbrev pub Trail : (ℕ → Task) → ℕ → List ℕ → ℕ → Type 0
Trail mem a [] b = a ≡ b
Trail mem a (x ∷ xs) b = (a ≡ x) × Trail mem (mem x).next xs b

abbrev pub Absent : ℕ → List ℕ → Type 0
Absent p xs = All (λ q. q ≢ p) xs

abbrev pub Distinct : List ℕ → Type 0
Distinct [] = Unit
Distinct (x ∷ xs) = Absent x xs × Distinct xs

-- The ring is `run_queue` and then `rest`.
pub record IsRing (s : Sched) (rest : List ℕ) : Type 0 where
  pub links : Trail s.mem (s.mem s.run_queue).next rest s.run_queue
  pub live : s.run_queue ≢ 0
  pub others : Absent s.run_queue rest
  pub others_live : Absent 0 rest
  pub distinct : Distinct rest

pub put_same : (p : ℕ) (t : Task) (mem : ℕ → Task) → put p t mem p ≡ t
unfolding put
put_same p t mem = ground arith

pub put_other : (p q : ℕ) (t : Task) (mem : ℕ → Task) → q ≢ p → put p t mem q ≡ mem q
unfolding put
put_other p q t mem ne = ground arith

-- A write to a task that is not on a path leaves the path.
pub Trail-put :
    (p : ℕ) (t : Task) (mem : ℕ → Task) (xs : List ℕ) (a b : ℕ)
    → Absent p xs
    → Trail mem a xs b
    → Trail (put p t mem) a xs b
Trail-put p t mem [] a b off h = h
Trail-put p t mem (x ∷ xs) a b off h =
    (h.0, rw (put_other p x t mem off.0) (Trail-put p t mem xs (mem x).next b off.1 h.1))

pub Absent-append : (p : ℕ) (xs ys : List ℕ) → Absent p (xs ++ ys) → Absent p xs × Absent p ys
Absent-append p [] ys h = (tt, h)
Absent-append p (x ∷ xs) ys h = let rest = Absent-append p xs ys h.1 in ((h.0, rest.0), rest.1)

pub Absent-join : (p : ℕ) (xs ys : List ℕ) → Absent p xs → Absent p ys → Absent p (xs ++ ys)
Absent-join p [] ys h k = k
Absent-join p (x ∷ xs) ys h k = (h.0, Absent-join p xs ys h.1 k)

pub Trail-split :
    (mem : ℕ → Task) (xs : List ℕ) (a v : ℕ) (ys : List ℕ) (b : ℕ)
    → Trail mem a (xs ++ (v ∷ ys)) b
    → Trail mem a xs v × Trail mem (mem v).next ys b
Trail-split mem [] a v ys b h = h
Trail-split mem (x ∷ xs) a v ys b h =
    let rest = Trail-split mem xs (mem x).next v ys b h.1 in ((h.0, rest.0), rest.1)

pub Trail-join :
    (mem : ℕ → Task) (xs : List ℕ) (a b : ℕ) (ys : List ℕ) (c : ℕ)
    → Trail mem a xs b
    → Trail mem b ys c
    → Trail mem a (xs ++ ys) c
Trail-join mem [] a b ys c h k = subst (λ i. Trail mem i ys c) (sym h) k
Trail-join mem (x ∷ xs) a b ys c h k = (h.0, Trail-join mem xs (mem x).next b ys c h.1 k)

pub Distinct-left : (xs ys : List ℕ) → Distinct (xs ++ ys) → Distinct xs
Distinct-left [] ys h = tt
Distinct-left (x ∷ xs) ys h = ((Absent-append x xs ys h.0).0, Distinct-left xs ys h.1)

-- Taking one task out of a list of distinct ones.
pub Distinct-remove :
    (xs : List ℕ) (v : ℕ) (ys : List ℕ)
    → Distinct (xs ++ (v ∷ ys))
    → Distinct (xs ++ ys) × Absent v (xs ++ ys)
Distinct-remove [] v ys h = (h.1, h.0)
Distinct-remove (x ∷ xs) v ys h =
    let rest = Distinct-remove xs v ys h.1 in
    let apart = Absent-append x xs (v ∷ ys) h.0 in
    ((Absent-join x xs ys apart.0 apart.1.1, rest.0), (λ e. apart.1.0 (sym e), rest.1))

-- The last of a list, `d` for the empty one.
abbrev pub last_or : ℕ → List ℕ → ℕ
last_or d [] = d
last_or d (x ∷ xs) = last_or x xs

pub last_or-Absent : (d p : ℕ) (xs : List ℕ) → d ≢ p → Absent p xs → last_or d xs ≢ p
last_or-Absent d p [] ne off = ne
last_or-Absent d p (x ∷ xs) ne off = last_or-Absent x p xs off.0 off.1

-- The link of the last task of a path leads to the path's end.
pub last_or-next :
    (mem : ℕ → Task) (xs : List ℕ) (d b : ℕ)
    → Trail mem (mem d).next xs b
    → (mem (last_or d xs)).next ≡ b
last_or-next mem [] d b h = h
last_or-next mem (x ∷ xs) d b h = last_or-next mem xs x b h.1

-- A write to the link of the last task of a path leads the path elsewhere.
pub Trail-relink :
    (mem : ℕ → Task) (xs : List ℕ) (d v w : ℕ) (t : Task)
    → t.next ≡ w
    → Absent d xs
    → Distinct xs
    → Trail mem (mem d).next xs v
    → Trail (put (last_or d xs) t mem) (put (last_or d xs) t mem d).next xs w
Trail-relink mem [] d v w t e off ds h = rw (put_same d t mem) e
Trail-relink mem (x ∷ xs) d v w t e off ds h = (
  rw (put_other (last_or x xs) d t mem (λ q. last_or-Absent x d xs off.0 off.1 (sym q))) h.0,
  Trail-relink mem xs x v w t e ds.0 ds.1 h.1,
)

pub last_or_apart :
    (xs : List ℕ) (d v : ℕ) (ys : List ℕ)
    → Distinct (xs ++ (v ∷ ys))
    → Absent d ys
    → Absent (last_or d xs) ys
last_or_apart [] d v ys ds off = off
last_or_apart (x ∷ xs) d v ys ds off =
    last_or_apart xs x v ys ds.1 (Absent-append x xs (v ∷ ys) ds.0).1.1

pub last_or-snoc : (d l : ℕ) (xs : List ℕ) → last_or d (xs ++ (l ∷ [])) ≡ l
last_or-snoc d l [] = refl
last_or-snoc d l (x ∷ xs) = last_or-snoc x l xs

-- A path that avoids a task, to an end that is not the task, does not start there.
pub Trail-start :
    (mem : ℕ → Task) (ys : List ℕ) (a b v : ℕ) → Trail mem a ys b → Absent v ys → b ≢ v → a ≢ v
Trail-start mem [] a b v h off ne = λ e. ne (sym h ∙ e)
Trail-start mem (y ∷ ys) a b v h off ne = λ e. off.0 (sym h.0 ∙ e)
