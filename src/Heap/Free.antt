-- ===== src/Heap/Free.antt =====
-- kernel/heap.cpp: `kfree` gives back exactly the allocation that it is called with.
use knail.Prelude.{
  ℕ, ◌+◌, ◌%◌, ◌^◌, ◌≤◌, ◌≡◌, refl, ◌∙◌, inl, inr, true, false, Option, none, some, List, arith,
  ◌==◌, Bool-cases, Option-cases,
}
use knail.Heap.{
  Heap, BlockHeader, heap_start, heap_max, heap_magic, header_size, coalesce, coalesce_prev,
  mark_free, prev_of, find, kfree_body, kfree_at, header_of,
}
use knail.Heap.Chain.{IsPointer, Chain, IsValid, mark_free-Chain, coalesce-Chain}
use knail.Heap.Live.{live, Inserted, live-Owned, live-coalesce, find-le}

coalesce_prev-Chain :
    (p : Option ℕ) (bs : List BlockHeader) (a e : ℕ) → Chain a bs e → Chain a (coalesce_prev p bs) e
coalesce_prev-Chain none bs a e c = c
coalesce_prev-Chain (some k) bs a e c = coalesce-Chain k bs a e c

live-coalesce_prev : (p : Option ℕ) (bs : List BlockHeader) → live (coalesce_prev p bs) ≡ live bs
live-coalesce_prev none bs = refl
live-coalesce_prev (some k) bs = live-coalesce k bs

-- The heap after `kfree` of a block in use at `addr`.
abbrev pub released : ℕ → Heap → Heap
released addr h =
    let bs = coalesce addr (mark_free addr h.blocks) in
    record h {
      blocks = coalesce_prev (prev_of addr bs) bs;
      free_count = (h.free_count + 1) % 2 ^ 64;
    }

-- What a call of `kfree` does.
pub data Freed (h : Heap) (ptr : ℕ) : Heap → Type 0 where
  ignored : Freed h ptr h
  freed : Freed h ptr (released (header_of ptr) h)

pub kfree_body-Freed : (ptr : ℕ) (h : Heap) → Freed h ptr (kfree_body ptr h)
unfolding kfree_body kfree_at
kfree_body-Freed ptr h = elim (Bool-cases (ptr == 0)) [
  | inl null ↦ rw null ignored
  | inr some_ptr ↦ elim (Option-cases (find (header_of ptr) h.blocks)) [
    | inl missing ↦ rw (some_ptr, missing, kfree_body, kfree_at) ignored
    | inr (b, found) ↦ elim (Bool-cases (b.magic == heap_magic)) [
      | inl sound ↦ elim (Bool-cases b.is_free) [
        | inl unused ↦ rw (some_ptr, found, sound, unused, kfree_body, kfree_at) ignored
        | inr used ↦ rw (some_ptr, found, sound, used, kfree_body, kfree_at) freed
      ]
      | inr broken ↦ rw (some_ptr, found, broken, kfree_body, kfree_at) ignored
    ]
  ]
]

-- Freeing the null pointer, or a block of a valid heap, in use or free already, keeps the blocks a
-- tiling of the mapped heap.
pub kfree_body-IsValid :
    (ptr : ℕ) (h : Heap) → IsPointer ptr h → IsValid h → IsValid (kfree_body ptr h)
kfree_body-IsValid ptr h pointer v = go (kfree_body-Freed ptr h)
  where
    go : {h' : Heap} → Freed h ptr h' → IsValid h'
    go ignored = v
    go freed =
        let addr : ℕ = header_of ptr in
        let bs = coalesce addr (mark_free addr h.blocks) in
        record {
          tiled = coalesce_prev-Chain (prev_of addr bs) bs heap_start h.heap_end (
              coalesce-Chain addr (mark_free addr h.blocks) heap_start h.heap_end
                (mark_free-Chain addr h.blocks heap_start h.heap_end v.tiled));
          below_max = v.below_max;
        }

live-released :
    (addr : ℕ) (h : Heap) → live (released addr h).blocks ≡ live (mark_free addr h.blocks)
live-released addr h =
    live-coalesce_prev (prev_of addr (coalesce addr (mark_free addr h.blocks)))
      (coalesce addr (mark_free addr h.blocks))
    ∙ live-coalesce addr (mark_free addr h.blocks)

header_of_ptr : (addr : ℕ) → addr ≤ heap_max → header_of (addr + header_size) ≡ addr
header_of_ptr addr le = omega arith

kfree_at-released :
    (addr : ℕ) (h : Heap) {b : BlockHeader}
    → find addr h.blocks ≡ some b
    → b.magic ≡ heap_magic
    → b.is_free ≡ false
    → kfree_at addr h ≡ released addr h
unfolding kfree_at
kfree_at-released addr h {b} found sound used =
    let tested : (b.magic == heap_magic) ≡ true = ground arith in rw (found, tested, used, kfree_at)

kfree_body-kfree_at :
    (addr : ℕ) (h : Heap) → addr ≤ heap_max → kfree_body (addr + header_size) h ≡ kfree_at addr h
unfolding kfree_body
kfree_body-kfree_at addr h le =
    let not_null : (addr + header_size == 0) ≡ false = ground arith in
    rw (not_null, header_of_ptr addr le)

-- On a valid heap, `kfree` of a live allocation takes it off the live ones, leaves all others as
-- they are, and counts one free.
pub kfree_body-live :
    (addr size : ℕ) (h : Heap) (l : List (ℕ × ℕ))
    → IsValid h
    → Inserted (addr, size) l (live h.blocks)
    → (live (kfree_body (addr + header_size) h).blocks ≡ l)
      × ((kfree_body (addr + header_size) h).free_count ≡ (h.free_count + 1) % 2 ^ 64)
kfree_body-live addr size h l v i =
    let o = live-Owned addr size h.blocks l heap_start h.heap_end v.tiled i in
    let low = find-le addr h.blocks heap_start h.heap_end v.tiled o.found in
    let step : kfree_body (addr + header_size) h ≡ released addr h =
      kfree_body-kfree_at addr h (omega (arith, low, v.below_max))
      ∙ kfree_at-released addr h o.found o.sound o.used in
    rw step (live-released addr h ∙ o.left, refl)

-- On a valid heap, `kfree` of a block that is already free changes nothing.
kfree_body_twice :
    (addr : ℕ) (h : Heap) {b : BlockHeader}
    → IsValid h
    → find addr h.blocks ≡ some b
    → b.is_free ≡ true
    → kfree_body (addr + header_size) h ≡ h
unfolding kfree_at
kfree_body_twice addr h {b} v found unused =
    let low = find-le addr h.blocks heap_start h.heap_end v.tiled found in
    kfree_body-kfree_at addr h (omega (arith, low, v.below_max))
    ∙ rw (found, unused, kfree_at) (ground arith)
