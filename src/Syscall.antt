-- ===== src/Syscall.antt =====
-- kernel/syscall.cpp: the state that the handlers share, their helpers, and the table of the
-- routes. A reply is an `i64` as its word of 64 bits. What the registers point to in the memory of
-- the program is `user_string` and `user_bytes`, 0 the null pointer, and `stored` what the handlers
-- wrote there, the last write first. A handler that does not return, and a walk through the file
-- system that is longer than `rounds`, have no result.
pub mod Calls
pub mod Dispatch
pub mod Duplicate
mod Tests
use knail.Types.{KResult, ok, err}
use knail.FdTable.{FdTable, lookup, remove, install, install_at}
use knail.Vfs.{Fs}
use knail.Prelude.{ℕ, ◌+◌, ◌-◌, ◌^◌, Bool, Option, none, some, List, ltb, leb, ◌==◌, if◌then◌else◌}

-- `fdt` is the table of the current task, none without one. `serial` and `ports` are what went to
-- the serial line and to the ports, the last one first.
pub record System : Type 0 where
  pub fdt : Option FdTable
  pub fs : Fs
  pub user_string : ℕ → List ℕ
  pub user_bytes : ℕ → ℕ → List ℕ
  pub stored : List (ℕ × List ℕ)
  pub serial : List ℕ
  pub ports : List (ℕ × ℕ)
  pub tid : ℕ
  pub ticks : ℕ
  pub yield_pending : Bool

pub record SyscallArgs : Type 0 where
  pub arg0 : ℕ
  pub arg1 : ℕ
  pub arg2 : ℕ

abbrev pub Handler : Type 0
Handler = SyscallArgs → System → Option (ℕ × System)

-- The error codes as words.
abbrev pub e_noent : ℕ
e_noent = 2 ^ 64 - 2

abbrev pub e_badf : ℕ
e_badf = 2 ^ 64 - 9

abbrev pub e_fault : ℕ
e_fault = 2 ^ 64 - 14

abbrev pub e_notdir : ℕ
e_notdir = 2 ^ 64 - 20

abbrev pub e_inval : ℕ
e_inval = 2 ^ 64 - 22

abbrev pub e_nospace : ℕ
e_nospace = 2 ^ 64 - 28

abbrev pub e_nosys : ℕ
e_nosys = 2 ^ 64 - 38

-- `res.is_ok() ? res.value() : why`
unfoldable pub value_or : ℕ → KResult ℕ → ℕ
value_or why (ok value) = value
value_or why (err _) = why

-- `res.is_ok() ? E_OK : why`
unfoldable pub done_or {ℓ} : {A : Type ℓ} → ℕ → KResult A → ℕ
done_or why (ok value) = 0
done_or why (err _) = why

-- `fdt_lookup`, which fails with `EBADF`, and what a handler does with the file.
unfoldable pub with_file : KResult ℕ → (ℕ → Option (ℕ × System)) → System → Option (ℕ × System)
with_file (err why) go sys = some (e_badf, sys)
with_file (ok f) go sys = go f

-- `current_fdt`, without which a handler fails with `EBADF`.
unfoldable pub with_table :
    Option FdTable → (FdTable → Option (ℕ × System)) → System → Option (ℕ × System)
with_table none go sys = some (e_badf, sys)
with_table (some t) go sys = go t

unfoldable pub fdt_lookup : ℕ → System → (ℕ → Option (ℕ × System)) → Option (ℕ × System)
fdt_lookup fd sys go = with_table sys.fdt (λ t. with_file (lookup (some t) fd) go sys) sys

-- The reply of `fdt_install` and the table behind it.
unfoldable pub fdt_install : Option FdTable → ℕ → ℕ × Option FdTable
fdt_install fdt f = let (reply, fdt1) = install fdt (some f) in (value_or e_nospace reply, fdt1)

unfoldable pub fdt_install_at : Option FdTable → ℕ → ℕ → ℕ × Option FdTable
fdt_install_at fdt f fd =
    let (reply, fdt1) = install_at fdt (some f) fd in (value_or e_badf reply, fdt1)

-- `fd < 0`
abbrev pub is_negative : ℕ → Bool
is_negative v = leb (2 ^ 63) v
