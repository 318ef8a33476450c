-- ===== src/FdTable.antt =====
-- proc/fdtable.cpp and proc/include/fdtable.hpp: the per-task table of open files. A pointer is an
-- option, `none` for null; a `FileDescriptor*` that is not null is a number. An `i32` descriptor is
-- taken as its bit pattern, so it is negative from 2 ^ 31 on.
pub mod Invariant
pub mod Install
pub mod Clone
mod Tests
use knail.Types.{KResult, ok, err, KError}
use knail.Prelude.{
  ℕ, zero, suc, ◌+◌, ◌-◌, ◌%◌, ◌^◌, Option, none, some, List, get_or, set, replicate, leb, ltb,
  if◌then◌else◌,
}

abbrev pub max_fds : ℕ
max_fds = 64

pub record FdTable : Type 0 where
  pub fds : List (Option ℕ)
  pub count : ℕ

abbrev pub slot : FdTable → ℕ → Option ℕ
slot t i = get_or t.fds i none

-- The table that `alloc` zeroes, where the allocation succeeds.
abbrev pub fresh : FdTable
fresh = record { fds = replicate max_fds none; count = 0 }

-- `table->fds[i] = file; table->count++`
abbrev pub fill : FdTable → ℕ → ℕ → FdTable
fill t i file = record t { fds = set t.fds i (some file); count = (t.count + 1) % 2 ^ 32 }

-- `table->fds[i] = nullptr; table->count--`
abbrev pub clear : FdTable → ℕ → FdTable
clear t i = record t { fds = set t.fds i none; count = (t.count + 2 ^ 32 - 1) % 2 ^ 32 }

-- The loop of `install`, by the rounds left and the index.
unfoldable pub install_from : ℕ → ℕ → FdTable → ℕ → KResult ℕ × FdTable
install_from zero i t file = (err KError.out_of_file_descriptors, t)
install_from (suc n) i t file =
    let rest = install_from n (i + 1) t file in
    elim (slot t i) [ none ↦ (ok i, fill t i file) | some other ↦ rest ]

-- A call that changes the table returns it beside the reply; a null table stays null.
unfoldable pub install : Option FdTable → Option ℕ → KResult ℕ × Option FdTable
install none file = (err KError.invalid_argument, none)
install (some t) none = (err KError.invalid_argument, some t)
install (some t) (some file) =
    let (reply, t') = install_from (max_fds - 3) 3 t file in (reply, some t')

unfoldable pub install_at : Option FdTable → Option ℕ → ℕ → KResult ℕ × Option FdTable
install_at none file fd = (err KError.invalid_argument, none)
install_at (some t) none fd = (err KError.invalid_argument, some t)
install_at (some t) (some file) fd =
    if leb (2 ^ 31) fd
    then (err KError.invalid_argument, some t)
    else if leb max_fds fd
    then (err KError.invalid_argument, some t)
    else elim (slot t fd) [
      | some other ↦ (err KError.already_exists, some t)
      | none ↦ (ok fd, some (fill t fd file))
    ]

unfoldable pub lookup : Option FdTable → ℕ → KResult ℕ
lookup none fd = err KError.invalid_argument
lookup (some t) fd =
    if leb max_fds fd
    then err KError.bad_file_descriptor
    else elim (slot t fd) [ none ↦ err KError.bad_file_descriptor | some f ↦ ok f ]

unfoldable pub remove : Option FdTable → ℕ → KResult ℕ × Option FdTable
remove none fd = (err KError.invalid_argument, none)
remove (some t) fd =
    if leb max_fds fd then (err KError.bad_file_descriptor, some t) else elim (slot t fd) [
      | none ↦ (err KError.bad_file_descriptor, some t)
      | some f ↦ (ok f, some (clear t fd))
    ]
