-- ===== src/Heap.antt =====
-- kernel/heap.cpp: the first-fit allocator of the kernel heap. The doubly linked list of headers is
-- the list of its blocks, in the order of `next`; `prev` is the block before. A header is found by
-- its address: of a pointer that is no block's user data the source reads whatever word stands
-- there as a magic number, and the model takes it for a wrong one.
pub mod Requests
pub mod Chain
pub mod Live
pub mod Alloc
pub mod Free
pub mod RoundTrip
pub mod Limits
pub mod Realloc
mod Tests
use knail.Prelude.{
  ℕ, zero, suc, ◌+◌, ◌-◌, ◌*◌, ◌/◌, ◌%◌, ◌^◌, Bool, true, false, not, ◌&&◌, Option, none, some,
  List, [], ◌∷◌, ◌++◌, ltb, leb, ◌==◌, if◌then◌else◌,
}

abbrev pub heap_start : ℕ
heap_start = 0xFFFF900000000000

abbrev pub heap_max : ℕ
heap_max = 0xFFFF900040000000

abbrev pub heap_magic : ℕ
heap_magic = 0xBEEFCAFE

-- `sizeof(BlockHeader)`: two words, a flag and a `uint32_t` padded to a word each, and a pointer
-- more.
abbrev pub header_size : ℕ
header_size = 40

abbrev pub min_split : ℕ
min_split = 32

abbrev pub page_size : ℕ
page_size = 4096

pub record BlockHeader : Type 0 where
  pub addr : ℕ
  pub size : ℕ
  pub is_free : Bool
  pub magic : ℕ

-- `lock` is `heap_lock.flag`, and `mem` the bytes of the heap's memory by address.
pub record Heap : Type 0 where
  pub blocks : List BlockHeader
  pub heap_end : ℕ
  pub alloc_count : ℕ
  pub free_count : ℕ
  pub lock : Bool
  pub mem : ℕ → ℕ

-- What the heap calls of the physical and the virtual memory manager. The reply of `map_page` is
-- not looked at.
pub record Frames : Type 1 where
  pub State : Type 0
  pub alloc_frame : State → State × ℕ
  pub map_page : ℕ → ℕ → State → State

-- `(size + 15) & ~(size_t)15`
unfoldable pub align16 : ℕ → ℕ
align16 size = (size + 15) % 2 ^ 64 / 16 * 16

-- The number of pages that `expand` asks for.
unfoldable pub pages_for : ℕ → ℕ
pages_for needed =
    let bytes = (needed + header_size) % 2 ^ 64 in
    let pages = (bytes + (page_size - 1)) % 2 ^ 64 / page_size in if ltb pages 1 then 1 else pages

abbrev pub new_block : ℕ → ℕ → BlockHeader
new_block addr size = record { addr = addr; size = size; is_free = true; magic = heap_magic }

-- The block that `expand` puts behind the last one.
abbrev pub grown : ℕ → Heap → Heap
grown pages h = record h {
  blocks = h.blocks ++ (new_block h.heap_end (pages * page_size - header_size) ∷ []);
  heap_end = (h.heap_end + pages * page_size) % 2 ^ 64;
}

-- What the first-fit walk ends with.
pub data Found : Type 0 where
  corrupt : Found
  fit : ℕ → Found
  no_fit : Found

unfoldable pub first_fit : ℕ → List BlockHeader → Found
first_fit size [] = no_fit
first_fit size (b ∷ bs) =
    if not (b.magic == heap_magic)
    then corrupt
    else if b.is_free && leb size b.size
    then fit b.addr
    else first_fit size bs

-- Take `size` bytes of block `b`, splitting off the rest if that is large enough.
abbrev pub carve : ℕ → BlockHeader → List BlockHeader
carve size b =
    if leb ((size + header_size + min_split) % 2 ^ 64) b.size
    then record b { size = size; is_free = false }
      ∷ new_block (b.addr + header_size + size) (b.size - size - header_size)
      ∷ []
    else record b { is_free = false } ∷ []

unfoldable pub use_block : ℕ → ℕ → List BlockHeader → List BlockHeader
use_block addr size [] = []
use_block addr size (b ∷ bs) =
    if b.addr == addr then carve size b ++ bs else b ∷ use_block addr size bs

-- `coalesce(blk)`, `blk` given by its address.
abbrev pub merge : BlockHeader → List BlockHeader → List BlockHeader
merge b [] = b ∷ []
merge b (n ∷ bs) =
    if b.is_free && (n.is_free && n.magic == heap_magic)
    then record b { size = b.size + (header_size + n.size) } ∷ bs
    else b ∷ n ∷ bs

unfoldable pub coalesce : ℕ → List BlockHeader → List BlockHeader
coalesce addr [] = []
coalesce addr (b ∷ bs) = if b.addr == addr then merge b bs else b ∷ coalesce addr bs

unfoldable pub find : ℕ → List BlockHeader → Option BlockHeader
find addr [] = none
find addr (b ∷ bs) = if b.addr == addr then some b else find addr bs

-- `blk->prev`: the address of the block before the one at `addr`.
unfoldable pub prev_of : ℕ → List BlockHeader → Option ℕ
prev_of addr [] = none
prev_of addr (b ∷ []) = none
prev_of addr (b ∷ n ∷ bs) = if n.addr == addr then some b.addr else prev_of addr (n ∷ bs)

-- `blk->free = true`
unfoldable pub mark_free : ℕ → List BlockHeader → List BlockHeader
mark_free addr [] = []
mark_free addr (b ∷ bs) =
    if b.addr == addr then record b { is_free = true } ∷ bs else b ∷ mark_free addr bs

abbrev pub coalesce_prev : Option ℕ → List BlockHeader → List BlockHeader
coalesce_prev none bs = bs
coalesce_prev (some a) bs = coalesce a bs

-- The statements of `kfree` from the test of the magic number on, for the header at `addr`. The code
-- reads whatever stands there; what a pointer does that leads to no block of the list is not
-- modelled, and the heap then stays as it is here.
unfoldable pub kfree_at : ℕ → Heap → Heap
kfree_at addr h = elim (find addr h.blocks) [
  | none ↦ h
  | some b ↦
      if not (b.magic == heap_magic)
      then h
      else if b.is_free
      then h
      else let bs = coalesce addr (mark_free addr h.blocks) in
        record h {
          blocks = coalesce_prev (prev_of addr bs) bs;
          free_count = (h.free_count + 1) % 2 ^ 64;
        }
]

-- The address of the header before a pointer.
abbrev pub header_of : ℕ → ℕ
header_of ptr = (ptr + 2 ^ 64 - header_size) % 2 ^ 64

-- `kfree` behind its lock.
unfoldable pub kfree_body : ℕ → Heap → Heap
kfree_body ptr h = if ptr == 0 then h else kfree_at (header_of ptr) h

-- A call that takes `heap_lock` first. `none` means that it never returns: `Spinlock::acquire`
-- spins on a flag that its own task holds.
abbrev pub scope_lock {ℓ} : {A : Type ℓ} → (Heap → Option (A × Heap)) → Heap → Option (A × Heap)
scope_lock body h = if h.lock then none else elim (body (record h { lock = true })) [
  | none ↦ none
  | some (a, h') ↦ some (a, record h' { lock = false })
]

unfoldable pub kfree : ℕ → Heap → Option (Unit {0} × Heap)
kfree ptr = scope_lock (λ h. some (tt, kfree_body ptr h))
