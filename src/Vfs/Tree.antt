-- ===== src/Vfs/Tree.antt =====
-- fs/vfs.cpp: the operations tables, and the calls that change the tree of nodes: `create`,
-- `mkdir`, `unlink` and `build_path`. A walk that is longer than `rounds` has no result.
use knail.Types.{KResult, ok, err, KError}
use knail.Prelude.{
  ℕ, zero, suc, ◌-◌, not, ◌||◌, Option, none, some, ◌>>=◌, List, [], ◌∷◌, ◌++◌, ltb, ◌==◌,
  if◌then◌else◌, take, length,
}
use knail.Vfs.{Fs, kfree, kfree_some, set_node, alloc_vnode, add_child, type_dir}
use knail.Vfs.Ramfs.{Dirent}
use knail.Vfs.Paths.{slash, find_child, resolve_internal, resolve_parent}

-- `FileOps`: the calls of a file system, none for a null entry.
pub record FileOps : Type 0 where
  pub read : Option (ℕ → ℕ → ℕ → Fs → KResult ℕ × List ℕ × Fs)
  pub write : Option (ℕ → ℕ → List ℕ → Fs → KResult ℕ × Fs)
  pub close : Option (ℕ → Fs → Fs)
  pub create : Option (ℕ → List ℕ → ℕ → Fs → ℕ × Fs)
  pub unlink : Option (ℕ → List ℕ → Fs → KResult (Unit {0}) × Fs)
  pub readdir : Option (ℕ → ℕ → Fs → KResult Dirent)

abbrev pub no_ops : FileOps
no_ops = record {
  read = none;
  write = none;
  close = none;
  create = none;
  unlink = none;
  readdir = none;
}

-- The address of `ramfs_ops`.
abbrev pub ramfs : ℕ
ramfs = 1

-- The tables at their addresses.
module _ (tables : ℕ → FileOps) where
  -- The table of a node, without entries for a null pointer.
  unfoldable pub ops_of : ℕ → Fs → FileOps
  ops_of p fs = if (fs.nodes p).ops == 0 then no_ops else tables (fs.nodes p).ops

  -- The branch of `create_internal` for a directory of the ramfs.
  unfoldable pub make_ramfs : ℕ × Fs → ℕ × Fs
  make_ramfs (p, fs) =
      if p == 0 then (0, fs) else (p, set_node p (record (fs.nodes p) { ops = ramfs }) fs)

  unfoldable pub make_with : Option (ℕ → List ℕ → ℕ → Fs → ℕ × Fs) → ℕ → List ℕ → ℕ → Fs → ℕ × Fs
  make_with none parent leaf type fs = make_ramfs (alloc_vnode leaf type fs)
  make_with (some create) parent leaf type fs = create parent leaf type fs

  unfoldable pub make : ℕ → List ℕ → ℕ → Fs → ℕ × Fs
  make parent leaf type fs = make_with (ops_of parent fs).create parent leaf type fs

  unfoldable pub attach : ℕ → ℕ × Fs → ℕ × Fs
  attach parent (p, fs) = if p == 0 then (0, fs) else (p, add_child parent p fs)

  -- `create_internal` behind the parent, and behind the search for a child of that name.
  unfoldable pub create_unless : ℕ → List ℕ → ℕ → Fs → ℕ → ℕ × Fs
  create_unless parent leaf type fs found =
      if found == 0 then attach parent (make parent leaf type fs) else (0, fs)

  unfoldable pub create_in : ℕ → List ℕ → ℕ → Fs → ℕ → Option (ℕ × Fs)
  create_in rounds leaf type fs parent =
      if (parent == 0) || not ((fs.nodes parent).type == type_dir)
      then some (0, fs)
      else find_child rounds (fs.nodes parent).children leaf fs
        >>= (λ found. some (create_unless parent leaf type fs found))

  unfoldable pub create_internal : ℕ → List ℕ → ℕ → Fs → Option (ℕ × Fs)
  create_internal rounds path type fs =
      let (leaf, parent) = resolve_parent rounds path 128 fs in
      parent >>= create_in rounds leaf type fs

  -- What a call answers for the node that `create_internal` returns.
  unfoldable pub created : KError → ℕ × Fs → KResult ℕ × Fs
  created why (p, fs) = (if p == 0 then err why else ok p, fs)

  unfoldable pub create : ℕ → List ℕ → ℕ → Fs → Option (KResult ℕ × Fs)
  create rounds path type fs =
      create_internal rounds path type fs >>= (λ r. some (created KError.io_error r))

  -- `mkdir` behind the resolution of the path; the reply of success carries the node here.
  unfoldable pub mkdir_at : ℕ → List ℕ → Fs → ℕ → Option (KResult ℕ × Fs)
  mkdir_at rounds path fs node =
      let made = create_internal rounds path type_dir fs in
      if node == 0
      then made >>= (λ r. some (created KError.not_found r))
      else some (err KError.already_exists, fs)

  unfoldable pub mkdir : ℕ → List ℕ → Fs → Option (KResult ℕ × Fs)
  mkdir rounds path fs = resolve_internal rounds path fs >>= mkdir_at rounds path fs

  -- The loop of `unlink` for the child before `node`.
  unfoldable pub find_before : ℕ → ℕ → ℕ → Fs → Option ℕ
  find_before zero prev node fs = none
  find_before (suc rounds) prev node fs =
      let next = (fs.nodes prev).next_sibling in
      let rest = find_before rounds next node fs in
      if (prev == 0) || (next == node) then some prev else rest

  unfoldable pub skip_over : ℕ → ℕ → Fs → Fs
  skip_over node prev fs =
      if prev == 0
      then fs
      else set_node prev (record (fs.nodes prev) { next_sibling = (fs.nodes node).next_sibling }) fs

  -- `node` out of the children of `parent`.
  unfoldable pub detach : ℕ → ℕ → ℕ → Fs → Option Fs
  detach rounds parent node fs =
      if (fs.nodes parent).children == node
      then some (
          set_node parent (record (fs.nodes parent) { children = (fs.nodes node).next_sibling }) fs)
      else find_before rounds (fs.nodes parent).children node fs
        >>= (λ prev. some (skip_over node prev fs))

  -- The driver's own `unlink`, where there is one.
  unfoldable pub unlink_with :
      Option (ℕ → List ℕ → Fs → KResult (Unit {0}) × Fs) → ℕ → ℕ → Fs → KResult (Unit {0}) × Fs
  unlink_with none parent node fs = (ok tt, fs)
  unlink_with (some unlink) parent node fs = unlink parent (fs.nodes node).name fs

  unfoldable pub driver_unlink : ℕ → ℕ → Fs → KResult (Unit {0}) × Fs
  driver_unlink parent node fs = unlink_with (ops_of parent fs).unlink parent node fs

  -- `unlink` behind the driver's reply.
  unfoldable pub remove_node :
      ℕ → ℕ → ℕ → KResult (Unit {0}) × Fs → Option (KResult (Unit {0}) × Fs)
  remove_node rounds parent node (err why, fs) = some (err why, fs)
  remove_node rounds parent node (ok done, fs) =
      detach rounds parent node fs
      >>= (λ fs1. some (ok tt, kfree node (kfree_some (fs1.nodes node).data_ptr fs1)))

  unfoldable pub unlink_node : ℕ → Fs → ℕ → Option (KResult (Unit {0}) × Fs)
  unlink_node rounds fs node =
      let found = fs.nodes node in
      if node == 0
      then some (err KError.not_found, fs)
      else if found.type == type_dir
      then some (err KError.is_directory, fs)
      else if ltb 0 found.refcount
      then some (err KError.busy, fs)
      else if found.parent == 0
      then some (err KError.invalid_argument, fs)
      else remove_node rounds found.parent node (driver_unlink found.parent node fs)

  unfoldable pub unlink : ℕ → List ℕ → Fs → Option (KResult (Unit {0}) × Fs)
  unlink rounds path fs = resolve_internal rounds path fs >>= unlink_node rounds fs

-- The names from a node up to the root, at most `depth` of them.
unfoldable pub parts_up : ℕ → ℕ → Fs → List (List ℕ)
parts_up zero node fs = []
parts_up (suc depth) node fs =
    let above = parts_up depth (fs.nodes node).parent fs in
    if (node == 0) || (node == fs.root) then [] else (fs.nodes node).name ∷ above

-- The printing loop of `build_path`, on the parts from the topmost down: a buffer of `max`, at
-- least 2, of which the text takes all but the last byte.
unfoldable pub print_parts : List (List ℕ) → ℕ → List ℕ → List ℕ
print_parts [] max text = text
print_parts (part ∷ more) max text =
    if ltb (length text) (max - 2)
    then (let slashed = text ++ (slash ∷ []) in
        print_parts more max (slashed ++ take (max - 1 - length slashed) part))
    else text

unfoldable pub reversed : List (List ℕ) → List (List ℕ) → List (List ℕ)
reversed [] done = done
reversed (part ∷ more) done = reversed more (part ∷ done)

unfoldable pub build_path : ℕ → ℕ → Fs → List ℕ
build_path node max fs =
    if (node == 0) || (node == fs.root)
    then slash ∷ []
    else print_parts (reversed (parts_up 32 node fs) []) max []
