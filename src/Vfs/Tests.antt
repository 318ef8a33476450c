-- ===== src/Vfs/Tests.antt =====
-- A file system with a directory that holds one file of five bytes, open at the descriptor 5.
use knail.Types.{ok, err, KError}
use knail.Pipe.{fresh}
use knail.Prelude.{
  ℕ, ◌≡◌, ◌⊎◌, ◌<◌, ◌-◌, refl, ◌∙◌, ◌≤◌, some, List, [], ◌∷◌, ◌++◌, ◌==◌, if◌then◌else◌, arith,
  get_or, get_or-append, get_or-replicate, replicate, false, ltb, Bool-cases, inl, inr,
}
use knail.Vfs.{
  VNode, Fs, blank, kmalloc, kmalloc_from, kstreq, kstrcpy, kstrcpy_from, set_file, type_file,
  type_dir,
}
use knail.Vfs.Ramfs.{fill_in, grow, ramfs_write}
use knail.Vfs.Bytes.{IsFileAt}
use knail.Vfs.Write.{Written, ramfs_write-Written}
use knail.Vfs.Paths.{find_child, slash, dot, resolve_internal}
use knail.Vfs.Segments.{resolve_internal-follow}
use knail.Vfs.Walks.{Siblings, last, next, follow}
use knail.Vfs.Kept.{IsFresh}
use knail.Vfs.Created.{Created, create_in-Created}
use knail.Vfs.Tree.{ops_of, FileOps, no_ops, create_in}
use knail.Vfs.Files.{has, write_with, read, write, seek}
use knail.Vfs.Descriptors.{ramfs_ops, IsOpen, read-seek-write}

abbrev tables : ℕ → FileOps
tables p = if p == 1 then ramfs_ops 8 else no_ops

abbrev hello : List ℕ
hello = b'h' ∷ b'e' ∷ b'l' ∷ b'l' ∷ b'o' ∷ []

abbrev root_node : VNode
root_node = record (blank (slash ∷ []) type_dir) { children = 2; ops = 1 }

abbrev file_node : VNode
file_node = record (blank (b'f' ∷ []) type_file) {
  parent = 1;
  ops = 1;
  data_ptr = 100;
  data_capacity = 64;
  size = 5;
  refcount = 1;
}

-- The root at 1, and the file `f` at 2.
abbrev nodes : ℕ → VNode
nodes p = if p == 1 then root_node else if p == 2 then file_node else blank [] type_file

abbrev small_fs : Fs
small_fs = record {
  nodes = nodes;
  bytes = λ p. hello ++ replicate 59 0;
  pipes = λ p. fresh;
  files = λ p. record { node = 2; offset = 2; flags = 0x302; dir_index = 0 };
  mounts = [];
  root = 1;
  cwd = 0;
  supply = 3 ∷ 4 ∷ [];
  freed = [];
}

cleared : (i : ℕ) → 5 ≤ i → get_or (hello ++ replicate 59 0) i 0 ≡ 0
cleared i past =
    get_or-append hello (replicate 59 0) i 0
    ∙ (let behind : ltb i 5 ≡ false = ground arith in rw behind (get_or-replicate 59 (i - 5) 0))

small_fs-IsFile : IsFileAt small_fs 2
small_fs-IsFile = record {
  sized = refl;
  size_in = omega arith;
  clear = cleared;
  null = λ e. absurd (omega arith);
}

ramfs_write-Written_example :
    ((ramfs_write 2 3 hello small_fs).0 ≡ ok 5)
      × Written small_fs (ramfs_write 2 3 hello small_fs).1 2 3 hello
    ⊎ (ramfs_write 2 3 hello small_fs ≡ (err KError.out_of_memory, (kmalloc small_fs).1))
      × ((kmalloc small_fs).0 ≡ 0)
      × ((small_fs.nodes 2).data_capacity < 8)
ramfs_write-Written_example = ramfs_write-Written small_fs 2 3 hello small_fs-IsFile (omega arith)

abbrev roundabout : List ℕ
roundabout = slash ∷ dot ∷ slash ∷ slash ∷ b'f' ∷ []

small_fs-finite : (p : ℕ) → Siblings small_fs 8 (small_fs.nodes p).children
small_fs-finite p = elim (Bool-cases (p == 1)) [
  | inl root ↦ rw root (next 7 2 (last 6))
  | inr other ↦ elim (Bool-cases (p == 2)) [
    | inl file ↦ rw (other, file) (last 7)
    | inr none_there ↦ rw (other, none_there) (last 7)
  ]
]

resolve_internal-follow_example :
    (q : ℕ) × (resolve_internal 8 roundabout small_fs ≡ some q)
    × (follow 8 ((dot ∷ []) ∷ (b'f' ∷ []) ∷ []) 1 small_fs ≡ some q)
resolve_internal-follow_example =
    resolve_internal-follow 8 roundabout small_fs (λ e. absurd cc) (omega arith, (omega arith, tt))
      small_fs-finite

small_fs-IsFresh : IsFresh 3 small_fs
small_fs-IsFresh = record {
  live = omega arith;
  root = omega arith;
  cwd = omega arith;
  children = λ q. ground arith;
  next_sibling = λ q. ground arith;
  parent = λ q. ground arith;
}

create_in-Created_example :
    (fs : Fs) × (create_in tables 8 (b'g' ∷ []) type_file small_fs 1 ≡ some (3, fs))
    × Created 8 small_fs fs 1 3 (b'g' ∷ [])
unfolding kmalloc kmalloc_from ops_of ramfs_ops find_child kstreq kstrcpy kstrcpy_from
create_in-Created_example =
    create_in-Created tables 8 1 type_file (b'g' ∷ []) small_fs refl (omega arith) refl refl refl
      small_fs-IsFresh (omega arith)

small_fs-IsOpen : IsOpen tables 8 5 small_fs
unfolding has ops_of
small_fs-IsOpen = record {
  live = omega arith;
  readable = refl;
  writable = refl;
  placed = refl;
  plain = refl;
  native = refl;
  file = small_fs-IsFile;
}

read-seek-write_example :
    let fs = (seek 5 2 0 (write tables 5 hello small_fs).1).1 in
    ((read tables 5 5 fs).0 ≡ ok 5) × ((read tables 5 5 fs).1 ≡ hello)
unfolding write write_with has ops_of ramfs_ops ramfs_write fill_in grow set_file
read-seek-write_example =
    read-seek-write tables 8 5 hello small_fs small_fs-IsOpen (omega arith) refl
