-- ===== src/FdTable/Clone.antt =====
-- proc/fdtable.cpp: `alloc`, `free` and `clone`. The heap and the open files that these calls reach
-- are the state of the interface `Files`.
use knail.Types.{KResult, ok, err, KResult-cases}
use knail.Prelude.{
  ℕ, zero, suc, ◌+◌, ◌<◌, ◌≤◌, ◌≡◌, refl, ap, sym, ◌∙◌, Bool, Option, none, some, arith, get_or,
  set, if◌then◌else◌, Option-cases, inl, inr, is_some, subst, Bool-cases, get_or-replicate,
  length-replicate, get_or-set_self, get_or-set_ne,
}
use native.Mathlib.Decide.{ℕ_discrete}
use knail.FdTable.{FdTable, max_fds, slot, fill, fresh}
use knail.FdTable.Invariant.{IsValid, fill-IsValid}

-- What the table calls of the heap and of the VFS.
pub record Files : Type 1 where
  pub State : Type 0
  -- `heap::kmalloc(sizeof(FDTable))`, whether it succeeds
  pub kmalloc_table : State → Bool × State
  -- `heap::kfree(table)`
  pub kfree_table : State → State
  -- `vfs::dup` and `vfs::close` of a descriptor that is not null
  pub dup : ℕ → State → KResult ℕ × State
  pub close : ℕ → State → State

module _ (files : Files) where
  open files use {State, kmalloc_table, kfree_table, dup, close}

  unfoldable pub alloc : State → Option FdTable × State
  alloc s = let (given, s') = kmalloc_table s in (if given then some fresh else none, s')

  -- The loop of `free`, by the rounds left and the index.
  unfoldable pub free_from : ℕ → ℕ → FdTable → State → State
  free_from zero i t s = s
  free_from (suc n) i t s =
      free_from n (i + 1) t (elim (slot t i) [ none ↦ s | some f ↦ close f s ])

  unfoldable pub free : Option FdTable → State → State
  free none s = s
  free (some t) s = kfree_table (free_from max_fds 0 t s)

  -- The loop of `clone`, with the copy so far.
  unfoldable pub clone_from : ℕ → ℕ → FdTable → FdTable → State → Option FdTable × State
  clone_from zero i src dst s = (some dst, s)
  clone_from (suc n) i src dst s = elim (slot src i) [
    | none ↦ clone_from n (i + 1) src dst s
    | some f ↦
        let (reply, s') = dup f s in
        elim reply [
          | ok copy ↦ clone_from n (i + 1) src (fill dst i copy) s'
          | err e ↦ (none, free (some dst) s')
        ]
  ]

  unfoldable pub clone : Option FdTable → State → Option FdTable × State
  clone none s = (none, s)
  clone (some src) s =
      let (given, s') = alloc s in
      elim given [ none ↦ (none, s') | some dst ↦ clone_from max_fds 0 src dst s' ]

  -- What a finished copy has in common with its source.
  pub record Copy (src dst : FdTable) : Type 0 where
    pub valid : IsValid dst
    pub shape : (j : ℕ) → j < max_fds → is_some (slot dst j) ≡ is_some (slot src j)

  -- The copy before round `i`.
  record Partial (src dst : FdTable) (i : ℕ) : Type 0 where
    valid : IsValid dst
    done : (j : ℕ) → j < i → is_some (slot dst j) ≡ is_some (slot src j)
    todo : (j : ℕ) → i ≤ j → slot dst j ≡ none

  skip :
      (src dst : FdTable) (i : ℕ) → slot src i ≡ none → Partial src dst i → Partial src dst (i + 1)
  skip src dst i closed p = record {
    valid = p.valid;
    done = λ j lt. (elim (ℕ_discrete j i) [
      | yes e ↦
          ap (λ (k : ℕ). is_some (slot dst k)) e
          ∙ ap is_some (p.todo i (omega arith) ∙ sym closed)
          ∙ ap (λ (k : ℕ). is_some (slot src k)) (sym e)
      | no ne ↦ p.done j (omega arith)
    ]);
    todo = λ j le. p.todo j (omega arith);
  }

  copied :
      (src dst : FdTable) (i f copy : ℕ)
      → i < max_fds
      → slot src i ≡ some f
      → Partial src dst i
      → Partial src (fill dst i copy) (i + 1)
  copied src dst i f copy lt taken p = record {
    valid = fill-IsValid i copy p.valid lt (p.todo i (omega arith));
    done = λ j jlt. (elim (ℕ_discrete j i) [
      | yes e ↦
          ap (λ (k : ℕ). is_some (get_or (set dst.fds i (some copy)) k none)) e
          ∙ ap is_some (get_or-set_self dst.fds i (some copy) none (omega (arith, p.valid.sized)))
          ∙ ap is_some (sym taken)
          ∙ ap (λ (k : ℕ). is_some (slot src k)) (sym e)
      | no ne ↦
          ap is_some (get_or-set_ne dst.fds i j (some copy) none (omega arith))
          ∙ p.done j (omega arith)
    ]);
    todo =
        λ j le. get_or-set_ne dst.fds i j (some copy) none (omega arith) ∙ p.todo j (omega arith);
  }

  clone_from-Copy :
      (n i : ℕ) (src dst : FdTable) (s : State) {dst' : FdTable} {s' : State}
      → i + n ≡ max_fds
      → Partial src dst i
      → clone_from n i src dst s ≡ (some dst', s')
      → Copy src dst'
  unfolding clone_from
  clone_from-Copy zero i src dst s {dst'} e p h =
      let same : some dst ≡ some dst' = ap (λ (r : Option FdTable × State). r.0) h in
      let same' : dst ≡ dst' = cc in
      subst (Copy src) same' (record { valid = p.valid; shape = λ j lt. p.done j (omega arith) })
  clone_from-Copy (suc n) i src dst s e p h = elim (Option-cases (slot src i)) [
    | inl closed ↦
        clone_from-Copy n (i + 1) src dst s (omega arith) (skip src dst i closed p)
          (rw (closed, clone_from) at h)
    | inr (f, taken) ↦ elim (KResult-cases (dup f s).0) [
      | inl (copy, given) ↦
          clone_from-Copy n (i + 1) src (fill dst i copy) (dup f s).1 (omega arith)
            (copied src dst i f copy (omega arith) taken p) (rw (taken, given, clone_from) at h)
      | inr (why, refused) ↦
          let failed = rw (taken, refused, clone_from) at h in
          let absurdity = ap (λ (r : Option FdTable × State). r.0) failed in cc
    ]
  ]

  -- A clone that succeeds, whatever the heap and the VFS answer, is a valid table with the same
  -- descriptors open as its source.
  pub clone-Copy :
      (src dst : FdTable) (s s' : State) → clone (some src) s ≡ (some dst, s') → Copy src dst
  unfolding clone alloc
  clone-Copy src dst s s' h = elim (Bool-cases (kmalloc_table s).0) [
    | inl given ↦
        clone_from-Copy max_fds 0 src fresh (kmalloc_table s).1 (omega arith)
          (record {
            valid = record { sized = length-replicate {A = Option ℕ} max_fds none; counted = refl };
            done = λ j lt. absurd (omega arith);
            todo = λ j le. get_or-replicate max_fds j none;
          })
          (rw (given, clone, alloc) at h)
    | inr refused ↦
        let absurdity =
          ap (λ (r : Option FdTable × State). r.0) (rw (refused, clone, alloc) at h) in
        cc
  ]
