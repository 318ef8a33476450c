-- ===== src/Vfs/Ramfs.antt =====
-- fs/vfs.cpp: `ramfs_read`, `ramfs_write` and `ramfs_readdir`.
use knail.Types.{KResult, ok, err, KError}
use knail.Prelude.{
  ℕ, zero, suc, ◌+◌, ◌-◌, ◌*◌, ◌%◌, ◌^◌, Bool, true, false, ◌||◌, List, [], ◌∷◌, ◌++◌, ltb, leb,
  ◌==◌, if◌then◌else◌, get_or, set, replicate, length,
}
use knail.Vfs.{VNode, Fs, kmalloc, kfree_some, set_node, set_bytes, kstrcpy}

-- A loop that copies `n` bytes out of a buffer from position `i` on.
unfoldable pub copy_out : ℕ → ℕ → List ℕ → List ℕ
copy_out zero i buf = []
copy_out (suc n) i buf = get_or buf i 0 ∷ copy_out n (i + 1) buf

-- The reply and what stands in the caller's buffer.
unfoldable pub ramfs_read : ℕ → ℕ → ℕ → Fs → KResult ℕ × List ℕ
ramfs_read p offset len fs =
    let node = fs.nodes p in
    if (node.data_ptr == 0) || leb node.size offset
    then (ok 0, [])
    else let avail = node.size - offset in
      let n = if ltb avail len then avail else len in
      (ok n, copy_out n offset (fs.bytes node.data_ptr))

-- The copying loop of `ramfs_write`.
unfoldable pub copy_in : List ℕ → ℕ → List ℕ → List ℕ
copy_in [] i buf = buf
copy_in (b ∷ bs) i buf = copy_in bs (i + 1) (set buf i b)

-- The new buffer: the `size` old bytes, and zeros up to `newcap`; the loops write nothing else,
-- so a size beyond the capacity is kept out by the validity of a node.
unfoldable pub grown : VNode → List ℕ → ℕ → List ℕ
grown node old newcap = copy_out node.size 0 old ++ replicate (newcap - node.size) 0

-- `newcap`, of 64 bits.
unfoldable pub new_capacity : ℕ → ℕ
new_capacity end = let doubled = (end * 2) % 2 ^ 64 in if ltb doubled 64 then 64 else doubled

-- The branch that makes room, behind the allocation: the new buffer takes the place of the old.
unfoldable pub regrown : ℕ → ℕ → ℕ → Fs → Fs
regrown p newcap newbuf fs =
    let node = fs.nodes p in
    let fs1 = set_bytes newbuf (grown node (fs.bytes node.data_ptr) newcap) fs in
    set_node p (record node { data_ptr = newbuf; data_capacity = newcap })
      (kfree_some node.data_ptr fs1)

-- Whether the allocation was made.
unfoldable pub grow_in : ℕ → ℕ → ℕ × Fs → Bool × Fs
grow_in p newcap (newbuf, fs) =
    if newbuf == 0 then (false, fs) else (true, regrown p newcap newbuf fs)

unfoldable pub grow : ℕ → ℕ → Fs → Bool × Fs
grow p end fs =
    if ltb (fs.nodes p).data_capacity end
    then grow_in p (new_capacity end) (kmalloc fs)
    else (true, fs)

-- The copy and the new size, behind the branch that makes room.
unfoldable pub fill_in : ℕ → ℕ → List ℕ → Bool × Fs → KResult ℕ × Fs
fill_in p offset src (false, fs) = (err KError.out_of_memory, fs)
fill_in p offset src (true, fs) =
    let node = fs.nodes p in
    let end = (offset + length src) % 2 ^ 64 in
    let fs1 = set_bytes node.data_ptr (copy_in src offset (fs.bytes node.data_ptr)) fs in
    let size = if ltb node.size end then end else node.size in
    (ok (length src), set_node p (record node { size = size }) fs1)

-- `src` is the caller's buffer and its length.
unfoldable pub ramfs_write : ℕ → ℕ → List ℕ → Fs → KResult ℕ × Fs
ramfs_write p offset src fs = fill_in p offset src (grow p ((offset + length src) % 2 ^ 64) fs)

-- `Dirent`
pub record Dirent : Type 0 where
  pub name : List ℕ
  pub type : ℕ

-- The loop of `ramfs_readdir`, by the rounds left, the child and its index. It runs out of rounds
-- on a longer list of children.
unfoldable pub readdir_from : ℕ → ℕ → ℕ → ℕ → Fs → KResult Dirent
readdir_from zero child i index fs = err KError.timeout
readdir_from (suc rounds) child i index fs =
    let rest = readdir_from rounds (fs.nodes child).next_sibling (i + 1) index fs in
    if child == 0
    then err KError.end_of_file
    else if i == index
    then ok (record { name = kstrcpy (fs.nodes child).name 128; type = (fs.nodes child).type })
    else rest

unfoldable pub ramfs_readdir : ℕ → ℕ → ℕ → Fs → KResult Dirent
ramfs_readdir rounds p index fs = readdir_from rounds (fs.nodes p).children 0 index fs
