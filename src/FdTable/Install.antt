-- ===== src/FdTable/Install.antt =====
-- proc/fdtable.cpp: which descriptor `install` gives out, and what the table holds afterwards.
use native.Mathlib.Decide.{ℕ_discrete}
use knail.Types.{KResult, ok, err, KError}
use knail.Prelude.{
  ℕ, zero, suc, ◌+◌, ◌-◌, ◌<◌, ◌≤◌, ◌≡◌, ap, sym, ◌∙◌, true, Option, none, some, arith, ◌==◌,
  length, get_or, set, if◌then◌else◌, Option-cases, inl, inr, is_some, get_or-set_self,
  get_or-set_ne, set-set, set-get_or_self,
}
use knail.FdTable.{FdTable, max_fds, slot, fill, install_from, install, lookup, remove}
use knail.FdTable.Invariant.{IsValid, open_slots-le}

-- The descriptors from 3 on and below `n` are open.
abbrev pub OpenBelow : FdTable → ℕ → Type 0
OpenBelow t n = (j : ℕ) → 3 ≤ j → j < n → is_some (slot t j) ≡ true

-- What `install` of a file may do.
pub data Installed (t : FdTable) (file : ℕ) : KResult ℕ × Option FdTable → Type 0 where
  full : OpenBelow t max_fds → Installed t file (err KError.out_of_file_descriptors, some t)
  placed :
      (i : ℕ)
      → 3 ≤ i
      → i < max_fds
      → slot t i ≡ none
      → OpenBelow t i
      → Installed t file (ok i, some (fill t i file))

extend : (t : FdTable) (i f : ℕ) → OpenBelow t i → slot t i ≡ some f → OpenBelow t (i + 1)
extend t i f below e j lo hi = elim (ℕ_discrete j i) [
  | yes same ↦ ap (λ (k : ℕ). is_some (slot t k)) same ∙ ap is_some e
  | no ne ↦ below j lo (omega arith)
]

install_from-Installed :
    (n i : ℕ) (t : FdTable) (file : ℕ)
    → 3 ≤ i
    → i + n ≡ max_fds
    → OpenBelow t i
    → Installed t file ((install_from n i t file).0, some (install_from n i t file).1)
unfolding install_from
install_from-Installed zero i t file lo e below = full (λ j a b. below j a (omega arith))
install_from-Installed (suc n) i t file lo e below = elim (Option-cases (slot t i)) [
  | inl closed ↦ rw (closed, install_from) (placed i lo (omega arith) closed below)
  | inr (f, taken) ↦
      rw (taken, install_from)
        (install_from-Installed n (i + 1) t file (omega arith) (omega arith)
          (extend t i f below taken))
]

-- `install` gives out the lowest closed descriptor from 3 on and puts the file there; where there
-- is none it fails with `OutOfFileDescriptors` and leaves the table.
pub install-Installed : (t : FdTable) (file : ℕ) → Installed t file (install (some t) (some file))
unfolding install
install-Installed t file =
    install_from-Installed (max_fds - 3) 3 t file (omega arith) (omega arith)
      (λ j a b. absurd (omega arith))

lookup-fill :
    (t : FdTable) (i file j : ℕ)
    → length t.fds ≡ max_fds
    → i < max_fds
    → lookup (some (fill t i file)) j ≡ (if i == j then ok file else lookup (some t) j)
unfolding lookup
lookup-fill t i file j sized lt = elim (ℕ_discrete i j) [
  | yes e ↦
      let written : get_or (set t.fds i (some file)) j none ≡ some file =
        ap (λ (k : ℕ). get_or (set t.fds i (some file)) k none) (sym e)
        ∙ get_or-set_self t.fds i (some file) none (omega arith) in
      ground arith
  | no ne ↦
      let kept : get_or (set t.fds i (some file)) j none ≡ get_or t.fds j none =
        get_or-set_ne t.fds i j (some file) none ne in
      rw (kept, lookup) (ground arith)
]

-- After a successful `install` into a valid table the new descriptor leads to the file, and every
-- other descriptor to what it led to before.
pub lookup-install :
    (t : FdTable) (file i j : ℕ) {t' : FdTable}
    → IsValid t
    → install (some t) (some file) ≡ (ok i, some t')
    → lookup (some t') j ≡ (if i == j then ok file else lookup (some t) j)
lookup-install t file i j {t'} v e = go (install-Installed t file) e
  where
    go :
        {r : KResult ℕ × Option FdTable}
        → Installed t file r
        → r ≡ (ok i, some t')
        → lookup (some t') j ≡ (if i == j then ok file else lookup (some t) j)
    go (full all) r = cc r
    go (placed k lo hi closed below) r =
        let same : k ≡ i = cc r in
        let after : fill t k file ≡ t' = cc r in
        rw (← after, ← same) (lookup-fill t k file j v.sized hi)

-- After a successful `install` into a valid table, `remove` of the new descriptor returns the
-- file, and the table is the one before.
remove-install :
    (t : FdTable) (file i : ℕ) {t' : FdTable}
    → IsValid t
    → install (some t) (some file) ≡ (ok i, some t')
    → remove (some t') i ≡ (ok file, some t)
unfolding remove
remove-install t file i {t'} v e = go (install-Installed t file) e
  where
    go :
        {r : KResult ℕ × Option FdTable}
        → Installed t file r
        → r ≡ (ok i, some t')
        → remove (some t') i ≡ (ok file, some t)
    go (full all) r = cc r
    go (placed k lo hi closed below) r =
        let same : k ≡ i = cc r in
        let after : fill t k file ≡ t' = cc r in
        let written : get_or (set t.fds k (some file)) k none ≡ some file =
          get_or-set_self t.fds k (some file) none (omega (arith, v.sized)) in
        let restored : set (set t.fds k (some file)) k none ≡ t.fds =
          set-set t.fds k (some file) none
          ∙ ap (set t.fds k) (sym closed)
          ∙ set-get_or_self t.fds k none in
        let small = open_slots-le t.fds in rw (← after, ← same) (ground (arith, v.counted, v.sized))
