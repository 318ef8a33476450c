-- ===== src/Heap/Requests.antt =====
-- kernel/heap.cpp: `expand`, `init`, `kmalloc`, `kcalloc` and `krealloc`, over the memory managers
-- that they call.
use knail.Prelude.{
  ℕ, zero, suc, ◌+◌, ◌-◌, ◌*◌, ◌%◌, ◌^◌, Bool, true, false, not, ◌&&◌, ◌||◌, Option, none, some,
  List, [], ◌∷◌, ltb, leb, ◌==◌, if◌then◌else◌,
}
use knail.Heap.{
  Heap, BlockHeader, Frames, heap_start, heap_max, heap_magic, header_size, page_size, align16,
  pages_for, grown, corrupt, fit, no_fit, first_fit, use_block, mark_free, find, scope_lock,
}

-- The first free block of `krealloc`'s walk, which looks at no magic number.
unfoldable pub first_free : ℕ → List BlockHeader → Option ℕ
first_free size [] = none
first_free size (b ∷ bs) = if b.is_free && leb size b.size then some b.addr else first_free size bs

-- `for (i = 0; i < n; i++) dst[i] = src[i]`, and the zeroing loop of `kcalloc`.
unfoldable pub copy_bytes : ℕ → ℕ → ℕ → (ℕ → ℕ) → ℕ → ℕ
copy_bytes zero src dst mem = mem
copy_bytes (suc n) src dst mem =
    copy_bytes n (src + 1) (dst + 1) (λ a. if a == dst then mem src else mem a)

unfoldable pub zero_bytes : ℕ → ℕ → (ℕ → ℕ) → ℕ → ℕ
zero_bytes zero p mem = mem
zero_bytes (suc n) p mem = zero_bytes n (p + 1) (λ a. if a == p then 0 else mem a)

-- Hand out the block at `addr`: the last part of `kmalloc`.
abbrev pub finish : ℕ → ℕ → Heap → Heap × ℕ
finish addr size h = (
  record h { blocks = use_block addr size h.blocks; alloc_count = (h.alloc_count + 1) % 2 ^ 64 },
  addr + header_size,
)

module _ (frames : Frames) where
  open frames use {State, alloc_frame, map_page}

  -- The loop of `expand`, by the pages left and the next virtual address: whether every page got a
  -- frame.
  unfoldable pub map_pages : ℕ → ℕ → State → Bool × State
  map_pages zero virt s = (true, s)
  map_pages (suc n) virt s =
      let (s', phys) = alloc_frame s in
      let rest = map_pages n (virt + page_size) (map_page virt phys s') in
      if phys == 0 then (false, s') else rest

  -- `none` is the null pointer. The new block is the last one, at the old end of the heap.
  unfoldable pub expand : ℕ → Heap → State → Option Heap × State
  expand needed h s =
      let pages = pages_for needed in
      if ltb heap_max ((h.heap_end + pages * page_size) % 2 ^ 64)
      then (none, s)
      else let (mapped, s') = map_pages pages h.heap_end s in
        (if mapped then some (grown pages h) else none, s')

  -- `heap::init`
  unfoldable pub init : Heap → State → Heap × State
  init h s =
      let cleared : Heap = record h {
        blocks = [];
        heap_end = heap_start;
        alloc_count = 0;
        free_count = 0;
      } in
      let (h', s') = expand 0 cleared s in (elim h' [ none ↦ cleared | some g ↦ g ], s')

  -- `kmalloc` behind its lock: the heap, the memory managers, and the pointer (0 for null).
  unfoldable pub kmalloc_body : ℕ → Heap → State → Heap × State × ℕ
  kmalloc_body request h s =
      if request == 0
      then (h, s, 0)
      else let size = align16 request in
        elim (first_fit size h.blocks) [
          | corrupt ↦ (h, s, 0)
          | fit addr ↦ let (h', ptr) = finish addr size h in (h', s, ptr)
          | no_fit ↦
              let (h', s') = expand size h s in
              elim h' [
                | none ↦ (h, s', 0)
                | some g ↦ let (g', ptr) = finish h.heap_end size g in (g', s', ptr)
              ]
        ]

  -- `none`: the call never returns.
  unfoldable pub kmalloc : ℕ → Heap → State → Option ((State × ℕ) × Heap)
  kmalloc request h s =
      scope_lock (λ h. let (h', s', ptr) = kmalloc_body request h s in some ((s', ptr), h')) h

  unfoldable pub kcalloc : ℕ → ℕ → Heap → State → Option ((State × ℕ) × Heap)
  kcalloc count size h s =
      let total = count * size % 2 ^ 64 in
      scope_lock
        (λ h. elim (kmalloc total h s) [
          | none ↦ none
          | some ((s', ptr), h') ↦
              some (
                (s', ptr),
                if ptr == 0 then h' else record h' { mem = zero_bytes total ptr h'.mem },
              )
        ])
        h

-- `krealloc` behind its lock: it never expands the heap. As in `kfree`, a pointer that leads to no
-- block of the list is not modelled; here it is answered with null.
unfoldable pub krealloc_body : ℕ → ℕ → Heap → Heap × ℕ
krealloc_body ptr new_size h =
    if ptr == 0 || new_size == 0
    then (h, 0)
    else let addr = (ptr + 2 ^ 64 - header_size) % 2 ^ 64 in
      elim (find addr h.blocks) [
        | none ↦ (h, 0)
        | some blk ↦
            if not (blk.magic == heap_magic)
            then (h, 0)
            else if leb new_size blk.size
            then (h, ptr)
            else let aligned = align16 new_size in
              elim (first_free aligned h.blocks) [
                | none ↦ (h, 0)
                | some b ↦
                    let newptr = b + header_size in
                    let n = if ltb blk.size aligned then blk.size else aligned in
                    (
                      record h {
                        blocks = mark_free addr (use_block b aligned h.blocks);
                        mem = copy_bytes n ptr newptr h.mem;
                      },
                      newptr,
                    )
              ]
      ]

unfoldable pub krealloc : ℕ → ℕ → Heap → Option (ℕ × Heap)
krealloc ptr new_size = scope_lock (λ h. let (h', p) = krealloc_body ptr new_size h in some (p, h'))
