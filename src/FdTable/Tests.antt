-- ===== src/FdTable/Tests.antt =====
-- Runs of the descriptor table.
use knail.Types.{ok, err, KError}
use knail.Prelude.{ℕ, ◌+◌, ◌≡◌, refl, true, some}
use knail.FdTable.{FdTable, fresh, fill, install_from, install, install_at, lookup}
use knail.FdTable.Invariant.{IsValid, Holds, call, installs_at, call-IsValid}
use knail.FdTable.Install.{Installed, lookup-install, install-Installed}
use knail.FdTable.Clone.{Files, Copy, clone, alloc, clone_from, clone-Copy}

-- Descriptors 1 and 3 are open.
abbrev two_open : FdTable
two_open = fill (fill fresh 3 70) 1 71

two_open-IsValid : IsValid two_open
two_open-IsValid = record { sized = refl; counted = refl }

two_open-install : install (some two_open) (some 9) ≡ (ok 4, some (fill two_open 4 9))
unfolding install install_from
two_open-install = refl

two_open_taken : install_at (some two_open) (some 9) 3 ≡ (err KError.already_exists, some two_open)
unfolding install_at
two_open_taken = refl

install-Installed_example : Installed two_open 9 (install (some two_open) (some 9))
install-Installed_example = install-Installed two_open 9

lookup-install_example : lookup (some (fill two_open 4 9)) 3 ≡ lookup (some two_open) 3
lookup-install_example = lookup-install two_open 9 4 3 two_open-IsValid two_open-install

call-IsValid_example : Holds (call (some two_open) (installs_at (some 9) 63)).1
call-IsValid_example = call-IsValid (some two_open) (installs_at (some 9) 63) two_open-IsValid

-- Files that count the duplicates made so far.
abbrev counting : Files
counting = record {
  State = ℕ;
  kmalloc_table = λ s. (true, s);
  kfree_table = λ s. s;
  dup = λ f s. (ok (100 + s), s + 1);
  close = λ f s. s;
}

two_open-clone : clone counting (some two_open) 0 ≡ (some (fill (fill fresh 1 100) 3 101), 2)
unfolding clone alloc clone_from
two_open-clone = refl

clone-Copy_example : Copy counting two_open (fill (fill fresh 1 100) 3 101)
clone-Copy_example = clone-Copy counting two_open (fill (fill fresh 1 100) 3 101) 0 2 two_open-clone
