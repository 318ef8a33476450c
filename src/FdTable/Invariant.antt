-- ===== src/FdTable/Invariant.antt =====
-- proc/fdtable.cpp: `count` is the number of open slots, and every operation keeps that.
use knail.Types.{KResult}
use knail.Prelude.{
  ℕ, zero, suc, ◌+◌, ◌-◌, ◌^◌, ◌<◌, ◌≤◌, ◌≡◌, ◌∙◌, Option, none, some, List, [], ◌∷◌, arith, leb,
  length, get_or, set, if◌then◌else◌, Bool-cases, Option-cases, inl, inr, length-set, is_some,
}
use knail.FdTable.{FdTable, max_fds, slot, fill, clear, install_from, install, install_at, remove}

-- The number of slots that are open.
abbrev pub open_slots : List (Option ℕ) → ℕ
open_slots [] = 0
open_slots (s ∷ fds) = (if is_some s then 1 else 0) + open_slots fds

pub record IsValid (t : FdTable) : Type 0 where
  pub sized : length t.fds ≡ max_fds
  pub counted : t.count ≡ open_slots t.fds

pub open_slots-le : (fds : List (Option ℕ)) → open_slots fds ≤ length fds
open_slots-le [] = omega arith
open_slots-le (none ∷ fds) = omega (arith, open_slots-le fds)
open_slots-le (some f ∷ fds) = omega (arith, open_slots-le fds)

open_slots-fill :
    (fds : List (Option ℕ)) (i f : ℕ)
    → i < length fds
    → get_or fds i none ≡ none
    → open_slots (set fds i (some f)) ≡ open_slots fds + 1
open_slots-fill [] i f lt e = absurd (omega arith)
open_slots-fill (s ∷ fds) zero f lt e = ground arith
open_slots-fill (s ∷ fds) (suc i) f lt e = omega (arith, open_slots-fill fds i f (omega arith) e)

open_slots-clear :
    (fds : List (Option ℕ)) (i f : ℕ)
    → get_or fds i none ≡ some f
    → open_slots fds ≡ open_slots (set fds i none) + 1
open_slots-clear [] i f e = cc
open_slots-clear (s ∷ fds) zero f e = ground arith
open_slots-clear (s ∷ fds) (suc i) f e = omega (arith, open_slots-clear fds i f e)

pub fill-IsValid :
    {t : FdTable} (i f : ℕ) → IsValid t → i < max_fds → slot t i ≡ none → IsValid (fill t i f)
fill-IsValid {t} i f v lt e = record {
  sized = length-set t.fds i (some f) ∙ v.sized;
  counted = omega (
    arith,
    open_slots-fill t.fds i f (omega (arith, v.sized)) e,
    open_slots-le t.fds,
    v.sized,
    v.counted,
  );
}

pub clear-IsValid : {t : FdTable} (i f : ℕ) → IsValid t → slot t i ≡ some f → IsValid (clear t i)
clear-IsValid {t} i f v e = record {
  sized = length-set t.fds i none ∙ v.sized;
  counted = omega (arith, open_slots-clear t.fds i f e, open_slots-le t.fds, v.sized, v.counted);
}

-- A null table, or a valid one.
abbrev pub Holds : Option FdTable → Type 0
Holds none = Unit {0}
Holds (some t) = IsValid t

install_from-IsValid :
    (n i file : ℕ) {t : FdTable} → IsValid t → i + n ≡ max_fds → IsValid (install_from n i t file).1
unfolding install_from
install_from-IsValid zero i file v e = v
install_from-IsValid (suc n) i file {t} v e = elim (Option-cases (slot t i)) [
  | inl closed ↦ rw (closed, install_from) (fill-IsValid i file v (omega arith) closed)
  | inr (f, taken) ↦ rw (taken, install_from) (install_from-IsValid n (i + 1) file v (omega arith))
]

-- A call on the table.
pub data Call : Type 0 where
  installs : Option ℕ → Call
  installs_at : Option ℕ → ℕ → Call
  removes : ℕ → Call

abbrev pub call : Option FdTable → Call → KResult ℕ × Option FdTable
call t (installs file) = install t file
call t (installs_at file fd) = install_at t file fd
call t (removes fd) = remove t fd

-- On a valid table or none, every call, whatever its arguments and whether or not it succeeds,
-- leaves 64 slots and a `count` that is the number of those that are open.
pub call-IsValid : (t : Option FdTable) (c : Call) → Holds t → Holds (call t c).1
unfolding install install_at remove
call-IsValid none (installs file) v = tt
call-IsValid (some t) (installs none) v = v
call-IsValid (some t) (installs (some f)) v = install_from-IsValid (max_fds - 3) 3 f v (omega arith)
call-IsValid none (installs_at file fd) v = tt
call-IsValid (some t) (installs_at none fd) v = v
call-IsValid (some t) (installs_at (some f) fd) v = elim (Bool-cases (leb (2 ^ 31) fd)) [
  | inl negative ↦ rw negative v
  | inr small ↦ elim (Bool-cases (leb max_fds fd)) [
    | inl big ↦ rw (small, big) v
    | inr inside ↦ elim (Option-cases (slot t fd)) [
      | inl closed ↦
          rw (small, inside, closed, install_at) (fill-IsValid fd f v (ground arith) closed)
      | inr (g, taken) ↦ rw (small, inside, taken, install_at) v
    ]
  ]
]
call-IsValid none (removes fd) v = tt
call-IsValid (some t) (removes fd) v = elim (Bool-cases (leb max_fds fd)) [
  | inl big ↦ rw big v
  | inr inside ↦ elim (Option-cases (slot t fd)) [
    | inl closed ↦ rw (inside, closed, remove) v
    | inr (g, taken) ↦ rw (inside, taken, remove) (clear-IsValid fd g v taken)
  ]
]
