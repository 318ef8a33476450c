-- ===== src/Vfs.antt =====
-- fs/vfs.cpp and fs/include/vfs.hpp: the nodes of the file system, the state that the calls share,
-- and the helpers for strings. A C string is the list of its bytes before the NUL. A pointer is an
-- address, 0 the null pointer; `nodes`, `bytes`, `pipes` and `files` are what stands at an address.
pub mod Bytes
pub mod Created
pub mod Descriptors
pub mod Files
pub mod Kept
pub mod Mounts
pub mod Paths
pub mod Pipes
pub mod Ramfs
pub mod Segments
pub mod Tree
pub mod Tty
pub mod Walks
pub mod Write
mod Tests
use knail.Pipe.{PipeBuffer}
use knail.Prelude.{
  ℕ, zero, suc, ◌+◌, Bool, true, false, ◌&&◌, List, [], ◌∷◌, ltb, ◌==◌, if◌then◌else◌,
}

-- `VFS_TYPE_FILE` and `VFS_TYPE_DIR`
abbrev pub type_file : ℕ
type_file = 1

abbrev pub type_dir : ℕ
type_dir = 2

-- `data_ptr` is `data`; `ops` is the address of the operations table. `priv` belongs to FAT32.
pub record VNode : Type 0 where
  pub name : List ℕ
  pub type : ℕ
  pub size : ℕ
  pub parent : ℕ
  pub children : ℕ
  pub next_sibling : ℕ
  pub ops : ℕ
  pub data_ptr : ℕ
  pub data_capacity : ℕ
  pub refcount : ℕ

-- `node` is the address of the node.
pub record FileDescriptor : Type 0 where
  pub node : ℕ
  pub offset : ℕ
  pub flags : ℕ
  pub dir_index : ℕ

-- `mounts` is the list from `mount_list` on, by path and root. `root` is `vfs_root` and `cwd` the
-- `cwd` of the current task, 0 with no task. `supply` are the
-- addresses that the next calls of `heap::kmalloc` return, 0 for a failure, and `freed` those that
-- went to `heap::kfree`, the last one first.
pub record Fs : Type 0 where
  pub nodes : ℕ → VNode
  pub bytes : ℕ → List ℕ
  pub pipes : ℕ → PipeBuffer
  pub files : ℕ → FileDescriptor
  pub mounts : List (List ℕ × ℕ)
  pub root : ℕ
  pub cwd : ℕ
  pub supply : List ℕ
  pub freed : List ℕ

unfoldable pub kmalloc_from : List ℕ → Fs → ℕ × Fs
kmalloc_from [] fs = (0, fs)
kmalloc_from (p ∷ ps) fs = (p, record fs { supply = ps })

unfoldable pub kmalloc : Fs → ℕ × Fs
kmalloc fs = kmalloc_from fs.supply fs

unfoldable pub kfree : ℕ → Fs → Fs
kfree p fs = record fs { freed = p ∷ fs.freed }

-- `if (p) heap::kfree(p)`
unfoldable pub kfree_some : ℕ → Fs → Fs
kfree_some p fs = record fs { freed = if p == 0 then fs.freed else p ∷ fs.freed }

-- The store with another value at `p`.
unfoldable pub put {ℓ} : {A : Type ℓ} → ℕ → A → (ℕ → A) → ℕ → A
put p v mem q = if p == q then v else mem q

unfoldable pub set_node : ℕ → VNode → Fs → Fs
set_node p n fs = record fs { nodes = put p n fs.nodes }

unfoldable pub set_bytes : ℕ → List ℕ → Fs → Fs
set_bytes p b fs = record fs { bytes = put p b fs.bytes }

unfoldable pub set_file : ℕ → FileDescriptor → Fs → Fs
set_file p d fs = record fs { files = put p d fs.files }

-- The loop of `kstrcpy`: what stands in the target, the NUL behind it.
unfoldable pub kstrcpy_from : ℕ → List ℕ → ℕ → List ℕ
kstrcpy_from i [] max = []
kstrcpy_from i (c ∷ cs) max =
    let rest = kstrcpy_from (i + 1) cs max in if ltb (i + 1) max then c ∷ rest else []

unfoldable pub kstrcpy : List ℕ → ℕ → List ℕ
kstrcpy src max = kstrcpy_from 0 src max

unfoldable pub kstreq : List ℕ → List ℕ → Bool
kstreq [] [] = true
kstreq [] (b ∷ bs) = false
kstreq (a ∷ more) [] = false
kstreq (a ∷ more) (b ∷ bs) = (a == b) && kstreq more bs

-- The node that `alloc_vnode` fills.
abbrev pub blank : List ℕ → ℕ → VNode
blank name type = record {
  name = kstrcpy name 128;
  type = type;
  size = 0;
  parent = 0;
  children = 0;
  next_sibling = 0;
  ops = 0;
  data_ptr = 0;
  data_capacity = 0;
  refcount = 0;
}

unfoldable pub alloc_vnode : List ℕ → ℕ → Fs → ℕ × Fs
alloc_vnode name type fs =
    let (p, fs1) = kmalloc fs in if p == 0 then (0, fs1) else (p, set_node p (blank name type) fs1)

-- The three writes, one behind the other.
unfoldable pub add_child : ℕ → ℕ → Fs → Fs
add_child parent child fs =
    let fs1 = set_node child (record (fs.nodes child) { parent = parent }) fs in
    let fs2 =
      set_node child (record (fs1.nodes child) { next_sibling = (fs1.nodes parent).children })
        fs1 in
    set_node parent (record (fs2.nodes parent) { children = child }) fs2
