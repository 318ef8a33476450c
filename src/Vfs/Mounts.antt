-- ===== src/Vfs/Mounts.antt =====
-- fs/vfs.cpp: `init`, `mount` and `stat`. A null root, which `init` and `mount` would write
-- through, and a walk longer than `rounds` have no result. Messages are left out.
use knail.Types.{KResult, ok, err, KError}
use knail.Prelude.{
  ℕ, zero, suc, ◌+◌, ◌/◌, ◌%◌, ◌^◌, not, Option, none, some, ◌>>=◌, List, [], ◌∷◌, ◌==◌,
  if◌then◌else◌,
}
use knail.Vfs.{VNode, Fs, kmalloc, kfree, set_node, alloc_vnode, kstrcpy, type_file, type_dir}
use knail.Vfs.Paths.{slash, resolve_internal}
use knail.Vfs.Tree.{FileOps, create_internal, ramfs}

-- The initial value of `tty_node`.
abbrev pub tty_node : ℕ → VNode
tty_node tty_ops = record {
  name = b't' ∷ b't' ∷ b'y' ∷ [];
  type = type_file;
  size = 0;
  parent = 0;
  children = 0;
  next_sibling = 0;
  ops = tty_ops;
  data_ptr = 0;
  data_capacity = 0;
  refcount = 0;
}

-- The last part of `init`, for the terminal at the address `tty` and the directory `dev`.
unfoldable pub add_tty : ℕ → ℕ → Fs → Fs
add_tty tty dev fs =
    let fs1 =
      set_node tty (record (fs.nodes tty) { parent = dev; next_sibling = (fs.nodes dev).children })
        fs in
    set_node dev (record (fs1.nodes dev) { children = tty }) fs1

module _ (tables : ℕ → FileOps) where
  unfoldable pub make_dirs : ℕ → List (List ℕ) → Fs → Option Fs
  make_dirs rounds [] fs = some fs
  make_dirs rounds (path ∷ paths) fs =
      create_internal tables rounds path type_dir fs >>= (λ r. make_dirs rounds paths r.1)

  unfoldable pub init_dirs : ℕ → ℕ → Fs → Option Fs
  init_dirs rounds tty fs = do
    fs1 ←
        make_dirs rounds
          ((slash ∷ b'd' ∷ b'e' ∷ b'v' ∷ [])
            ∷ (slash ∷ b't' ∷ b'm' ∷ b'p' ∷ [])
            ∷ (slash ∷ b'b' ∷ b'i' ∷ b'n' ∷ [])
            ∷ [])
          fs
    dev ← resolve_internal rounds (slash ∷ b'd' ∷ b'e' ∷ b'v' ∷ []) fs1
    if dev == 0 then none else some (add_tty tty dev fs1)

  unfoldable pub init_root : ℕ → ℕ → ℕ × Fs → Option Fs
  init_root rounds tty (root, fs) =
      let fs1 = set_node root (record (fs.nodes root) { ops = ramfs }) fs in
      if root == 0 then none else init_dirs rounds tty (record fs1 { root = root })

  unfoldable pub init : ℕ → ℕ → Fs → Option Fs
  init rounds tty fs = init_root rounds tty (alloc_vnode (slash ∷ []) type_dir fs)

-- The last loop of `mount`.
unfoldable pub adopt : ℕ → ℕ → ℕ → Fs → Option Fs
adopt zero point child fs = none
adopt (suc rounds) point child fs =
    let fs1 = set_node child (record (fs.nodes child) { parent = point }) fs in
    let rest = adopt rounds point (fs1.nodes child).next_sibling fs1 in
    if child == 0 then some fs else rest

-- The fields that the mount point takes over.
unfoldable pub take_over : ℕ → ℕ → Fs → Fs
take_over point fs_root fs =
    let from = fs.nodes fs_root in
    let fs1 =
      set_node point
        (record (fs.nodes point) {
          children = from.children;
          ops = from.ops;
          data_ptr = from.data_ptr;
          data_capacity = from.data_capacity;
          size = from.size;
          type = from.type;
        })
        fs in
    set_node fs_root (record (fs1.nodes fs_root) { data_ptr = 0 }) fs1

-- `mount` behind the allocation of the `Mount`.
unfoldable pub mount_made : ℕ → List ℕ → ℕ → ℕ → ℕ × Fs → Option (KResult (Unit {0}) × Fs)
mount_made rounds path fs_root point (m, fs) =
    let fs1 = record fs { mounts = (kstrcpy path 128, fs_root) ∷ fs.mounts } in
    let fs2 = take_over point fs_root fs1 in
    if m == 0
    then some (err KError.out_of_memory, fs)
    else adopt rounds point (fs2.nodes point).children fs2
      >>= (λ fs3. some (ok tt, kfree fs_root fs3))

unfoldable pub mount_at : ℕ → List ℕ → ℕ → Fs → ℕ → Option (KResult (Unit {0}) × Fs)
mount_at rounds path fs_root fs point =
    if point == 0
    then some (err KError.not_found, fs)
    else if not ((fs.nodes point).type == type_dir)
    then some (err KError.not_a_directory, fs)
    else mount_made rounds path fs_root point (kmalloc fs)

unfoldable pub mount : ℕ → List ℕ → ℕ → Fs → Option (KResult (Unit {0}) × Fs)
mount rounds path fs_root fs = resolve_internal rounds path fs >>= mount_at rounds path fs_root fs

-- The fields of `StatBuf` that `stat` sets; the others are 0.
pub record StatBuf : Type 0 where
  pub st_mode : ℕ
  pub st_size : ℕ
  pub st_blksize : ℕ
  pub st_blocks : ℕ

-- The modes: 0x4000 for a directory or 0x8000 for a file, and 0x1FF.
unfoldable pub stat_node : Fs → ℕ → KResult StatBuf
stat_node fs p =
    let n = fs.nodes p in
    if p == 0
    then err KError.not_found
    else ok (record {
      st_mode = if n.type == type_dir then 0x41FF else 0x81FF;
      st_size = n.size;
      st_blksize = 512;
      st_blocks = (n.size + 511) % 2 ^ 64 / 512;
    })

-- `out` is not null.
unfoldable pub stat : ℕ → List ℕ → Fs → Option (KResult StatBuf)
stat rounds path fs = resolve_internal rounds path fs >>= (λ p. some (stat_node fs p))
