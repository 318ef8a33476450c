-- ===== src/Syscall/Tests.antt =====
-- A task whose table of descriptors is full of one file.
use knail.Types.{KResult, err, KError}
use knail.FdTable.{FdTable, lookup, install, install_from}
use knail.Pipe.{fresh}
use knail.Vfs.{blank, kmalloc, kmalloc_from, type_file}
use knail.Vfs.Tree.{FileOps, no_ops}
use knail.Syscall.{System, SyscallArgs, e_nospace}
use knail.Syscall.Duplicate.{Returned, handle_dup-Returned}
use knail.Syscall.Calls.{handle_dup}
use knail.Prelude.{ℕ, ◌≡◌, refl, false, some, List, [], ◌∷◌, replicate, arith}

abbrev tables : ℕ → FileOps
tables p = no_ops

abbrev no_spawn : ℕ → List ℕ → System → KResult ℕ × System
no_spawn entry name sys = (err KError.out_of_memory, sys)

abbrev full : FdTable
full = record { fds = replicate 64 (some 5); count = 64 }

abbrev busy : System
busy = record {
  fdt = some full;
  fs = record {
    nodes = λ p. record (blank [] type_file) { refcount = 64 };
    bytes = λ p. [];
    pipes = λ p. fresh;
    files = λ p. record { node = 2; offset = 0; flags = 0x100; dir_index = 0 };
    mounts = [];
    root = 1;
    cwd = 0;
    supply = 9 ∷ [];
    freed = [];
  };
  user_string = λ p. [];
  user_bytes = λ p n. [];
  stored = [];
  serial = [];
  ports = [];
  tid = 1;
  ticks = 0;
  yield_pending = false;
}

abbrev third : SyscallArgs
third = record { arg0 = 3; arg1 = 0; arg2 = 0 }

handle_dup-Returned_example :
    (sys : System) × (handle_dup tables 8 3 third busy ≡ some (e_nospace, sys))
    × (sys.fdt ≡ some full)
    × Returned busy.fs sys.fs 9
unfolding kmalloc kmalloc_from install install_from lookup
handle_dup-Returned_example =
    handle_dup-Returned tables 8 3 5 full KError.out_of_file_descriptors third busy refl refl
      (omega arith) (omega arith) refl (omega arith) (omega arith)
