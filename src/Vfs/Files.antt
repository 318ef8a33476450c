-- ===== src/Vfs/Files.antt =====
-- fs/vfs.cpp: the calls on descriptors, `open`, `close`, `read`, `write`, `seek`, `dup` and `readdir`,
-- and `stat`. Numbers of 64 bits wrap; an `i64` is its word, negative from 2^63 on.
use Prim.Native.Nat.{bit_and, bit_or}
use knail.Types.{KResult, ok, err, KError}
use knail.Prelude.{
  ℕ, ◌+◌, ◌-◌, ◌%◌, ◌^◌, Bool, not, ◌&&◌, Option, none, some, ◌>>=◌, List, [], ltb, leb, ◌==◌,
  if◌then◌else◌,
}
use knail.Vfs.{
  FileDescriptor, Fs, kmalloc, kfree, kfree_some, set_node, set_file, type_file, type_dir,
}
use knail.Vfs.Ramfs.{Dirent}
use knail.Vfs.Paths.{resolve_internal}
use knail.Vfs.Tree.{FileOps, ops_of, create_internal}

-- `flags & bit`, of a single bit.
unfoldable pub has : ℕ → ℕ → Bool
has flags bit = not (bit_and flags bit == 0)

abbrev pub vfs_read : ℕ
vfs_read = 0x100

abbrev pub vfs_write : ℕ
vfs_write = 0x200

abbrev pub vfs_append : ℕ
vfs_append = 0x400

abbrev pub o_create : ℕ
o_create = 0x40

abbrev pub o_trunc : ℕ
o_trunc = 0x200

abbrev pub o_append : ℕ
o_append = 0x400

-- `fd->offset += value`, for a positive value.
unfoldable pub moved : FileDescriptor → ℕ → FileDescriptor
moved d value = record d {
  offset = if ltb 0 value && ltb value (2 ^ 63) then (d.offset + value) % 2 ^ 64 else d.offset;
}

-- The descriptor at `fd` behind a reply.
unfoldable pub advance : ℕ → KResult ℕ → Fs → Fs
advance fd (ok value) fs = set_file fd (moved (fs.files fd) value) fs
advance fd (err why) fs = fs

-- `iflags`
unfoldable pub access_flags : ℕ → ℕ
access_flags flags =
    let accmode = bit_and flags 3 in
    let access =
      if accmode == 2
      then bit_or vfs_read vfs_write
      else if accmode == 1
      then vfs_write
      else vfs_read in
    bit_or (bit_or flags access) (if has flags o_append then vfs_append else 0)

-- The branch for `O_TRUNC`.
unfoldable pub truncated : ℕ → ℕ → Fs → Fs
truncated flags node fs =
    let n = fs.nodes node in
    if has flags o_trunc && (n.type == type_file)
    then set_node node (record n { data_ptr = 0; size = 0; data_capacity = 0 })
        (kfree_some n.data_ptr fs)
    else fs

-- `open` behind the allocation of the descriptor.
unfoldable pub fill_fd : ℕ → ℕ → ℕ × Fs → KResult ℕ × Fs
fill_fd flags node (fd, fs) =
    let n = fs.nodes node in
    let iflags = access_flags flags in
    let d : FileDescriptor = record {
      node = node;
      offset = if has iflags vfs_append then n.size else 0;
      flags = iflags;
      dir_index = 0;
    } in
    if fd == 0 then (err KError.out_of_memory, fs) else (
      ok fd,
      set_node node (record n { refcount = (n.refcount + 1) % 2 ^ 32 }) (set_file fd d fs),
    )

unfoldable pub open_node : ℕ → ℕ → Fs → KResult ℕ × Fs
open_node flags node fs = fill_fd flags node (kmalloc (truncated flags node fs))

module _ (tables : ℕ → FileOps) where
  -- `open` behind the resolution of the path.
  unfoldable pub open_made : ℕ → ℕ × Fs → KResult ℕ × Fs
  open_made flags (node, fs) =
      if node == 0 then (err KError.io_error, fs) else open_node flags node fs

  unfoldable pub open_at : ℕ → List ℕ → ℕ → Fs → ℕ → Option (KResult ℕ × Fs)
  open_at rounds path flags fs node =
      let made = create_internal tables rounds path type_file fs in
      if node == 0
      then (if has flags o_create
          then made >>= (λ r. some (open_made flags r))
          else some (err KError.not_found, fs))
      else some (open_node flags node fs)

  unfoldable pub open_path : ℕ → List ℕ → ℕ → Fs → Option (KResult ℕ × Fs)
  open_path rounds path flags fs = resolve_internal rounds path fs >>= open_at rounds path flags fs

  unfoldable pub close_with : Option (ℕ → Fs → Fs) → ℕ → Fs → Fs
  close_with none node fs = fs
  close_with (some close) node fs = close node fs

  unfoldable pub close : ℕ → Fs → Fs
  close fd fs =
      let node = (fs.files fd).node in
      let refcount = ((fs.nodes node).refcount + 2 ^ 32 - 1) % 2 ^ 32 in
      let fs1 = set_node node (record (fs.nodes node) { refcount = refcount }) fs in
      if fd == 0
      then fs
      else kfree fd
          (if refcount == 0 then close_with (ops_of tables node fs1).close node fs1 else fs1)

  -- The call of the table's `read`, and the move of the offset.
  unfoldable pub read_with :
      Option (ℕ → ℕ → ℕ → Fs → KResult ℕ × List ℕ × Fs) → ℕ → ℕ → Fs → KResult ℕ × List ℕ × Fs
  read_with none fd len fs = (err KError.io_error, [], fs)
  read_with (some call) fd len fs =
      let (reply, bytes, fs1) = call (fs.files fd).node (fs.files fd).offset len fs in
      (reply, bytes, advance fd reply fs1)

  -- `buf` is not null.
  unfoldable pub read : ℕ → ℕ → Fs → KResult ℕ × List ℕ × Fs
  read fd len fs =
      let d = fs.files fd in
      if fd == 0
      then (err KError.invalid_argument, [], fs)
      else if not (has d.flags vfs_read)
      then (err KError.permission_denied, [], fs)
      else if (fs.nodes d.node).type == type_dir
      then (err KError.is_directory, [], fs)
      else read_with (ops_of tables d.node fs).read fd len fs

  unfoldable pub write_with :
      Option (ℕ → ℕ → List ℕ → Fs → KResult ℕ × Fs) → ℕ → List ℕ → Fs → KResult ℕ × Fs
  write_with none fd src fs = (err KError.io_error, fs)
  write_with (some call) fd src fs =
      let d = fs.files fd in
      let offset = if has d.flags vfs_append then (fs.nodes d.node).size else d.offset in
      let (reply, fs1) = call d.node offset src (set_file fd (record d { offset = offset }) fs) in
      (reply, advance fd reply fs1)

  unfoldable pub write : ℕ → List ℕ → Fs → KResult ℕ × Fs
  write fd src fs =
      let d = fs.files fd in
      if fd == 0
      then (err KError.invalid_argument, fs)
      else if not (has d.flags vfs_write)
      then (err KError.permission_denied, fs)
      else if (fs.nodes d.node).type == type_dir
      then (err KError.is_directory, fs)
      else write_with (ops_of tables d.node fs).write fd src fs

  unfoldable pub readdir_with : Option (ℕ → ℕ → Fs → KResult Dirent) → ℕ → Fs → KResult Dirent × Fs
  readdir_with none fd fs = (err KError.io_error, fs)
  readdir_with (some call) fd fs = entry (call (fs.files fd).node (fs.files fd).dir_index fs)
    where
      entry : KResult Dirent → KResult Dirent × Fs
      entry (err why) = (err why, fs)
      entry (ok found) =
          let d = fs.files fd in
          (ok found, set_file fd (record d { dir_index = (d.dir_index + 1) % 2 ^ 64 }) fs)

  -- `out` is not null.
  unfoldable pub readdir : ℕ → Fs → KResult Dirent × Fs
  readdir fd fs =
      let d = fs.files fd in
      if fd == 0
      then (err KError.invalid_argument, fs)
      else if not ((fs.nodes d.node).type == type_dir)
      then (err KError.not_a_directory, fs)
      else readdir_with (ops_of tables d.node fs).readdir fd fs

-- The base of `seek`, none for another `whence`.
unfoldable pub seek_base : ℕ → FileDescriptor → Fs → Option ℕ
seek_base whence d fs =
    if whence == 0
    then some 0
    else if whence == 1
    then some d.offset
    else if whence == 2
    then some (fs.nodes d.node).size
    else none

unfoldable pub seek_from : ℕ → ℕ → Option ℕ → Fs → KResult ℕ × Fs
seek_from fd offset none fs = (err KError.invalid_argument, fs)
seek_from fd offset (some base) fs =
    let newoff = (base + offset) % 2 ^ 64 in
    if leb (2 ^ 63) newoff
    then (err KError.invalid_argument, fs)
    else (ok newoff, set_file fd (record (fs.files fd) { offset = newoff }) fs)

unfoldable pub seek : ℕ → ℕ → ℕ → Fs → KResult ℕ × Fs
seek fd offset whence fs =
    let d = fs.files fd in
    if fd == 0
    then (err KError.bad_file_descriptor, fs)
    else if (fs.nodes d.node).type == type_dir
    then (err KError.is_directory, fs)
    else seek_from fd offset (seek_base whence d fs) fs

-- `dup` behind the allocation.
unfoldable pub dup_to : ℕ → ℕ × Fs → KResult ℕ × Fs
dup_to fd (copy, fs) =
    let d = fs.files fd in
    let n = fs.nodes d.node in
    if copy == 0 then (err KError.out_of_memory, fs) else (
      ok copy,
      set_node d.node (record n { refcount = (n.refcount + 1) % 2 ^ 32 }) (set_file copy d fs),
    )

unfoldable pub dup : ℕ → Fs → KResult ℕ × Fs
dup fd fs = if fd == 0 then (err KError.invalid_argument, fs) else dup_to fd (kmalloc fs)
