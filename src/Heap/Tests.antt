-- ===== src/Heap/Tests.antt =====
-- Runs of the heap on a machine that always has a frame.
use knail.Prelude.{ℕ, ◌+◌, ◌-◌, ◌^◌, ◌<◌, ◌≡◌, refl, false, none, inr, [], ◌∷◌, arith}
use knail.Heap.{
  Heap, Frames, heap_start, header_size, align16, first_fit, use_block, find, kfree_body, kfree_at,
  mark_free, coalesce, prev_of, new_block,
}
use knail.Heap.Requests.{kmalloc_body, krealloc_body, kcalloc}
use knail.Heap.Chain.{IsPointer, IsValid}
use knail.Heap.Live.{live, Inserted, here}
use knail.Heap.Alloc.{Allocated, kmalloc_body-Allocated}
use knail.Heap.Free.{kfree_body-live, kfree_body-IsValid}
use knail.Heap.RoundTrip.{kfree-kmalloc}
use knail.Heap.Limits.{kcalloc-deadlock, kmalloc_body-wraps}
use knail.Heap.Realloc.{krealloc_body-IsValid}

-- Frames are handed out in order; no page table is kept.
abbrev endless : Frames
endless = record { State = ℕ; alloc_frame = λ s. (s + 1, s + 1); map_page = λ v p s. s }

-- One page: 64 bytes in use, the rest free.
abbrev one_page : Heap
one_page = record {
  blocks =
      record (new_block heap_start 64) { is_free = false } ∷ new_block (heap_start + 104) 3952 ∷ [];
  heap_end = heap_start + 4096;
  alloc_count = 1;
  free_count = 0;
  lock = false;
  mem = λ a. 0;
}

one_page-IsValid : IsValid one_page
one_page-IsValid = record { tiled = (refl, refl, (refl, refl, refl)); below_max = omega arith }

one_page_kmalloc : (kmalloc_body endless 20 one_page 0).2 ≡ heap_start + 144
unfolding kmalloc_body first_fit align16 use_block
one_page_kmalloc = refl

one_page_kfree : (kfree_body (heap_start + 40) one_page).blocks ≡ new_block heap_start 4056 ∷ []
unfolding kfree_body kfree_at find mark_free coalesce prev_of
one_page_kfree = refl

kmalloc_body-Allocated_example :
    Allocated 20 one_page
      (kmalloc_body endless 20 one_page 0).0
      (kmalloc_body endless 20 one_page 0).2
kmalloc_body-Allocated_example =
    kmalloc_body-Allocated endless 20 one_page 0 (omega arith) one_page-IsValid

kfree-kmalloc_example :
    live
      (kfree_body
        (kmalloc_body endless 5000 one_page 0).2
        (kmalloc_body endless 5000 one_page 0).0).blocks
    ≡ (heap_start, 64) ∷ []
kfree-kmalloc_example = kfree-kmalloc endless 5000 one_page 0 (omega arith) one_page-IsValid

kfree_body-live_example :
    (live (kfree_body (heap_start + header_size) one_page).blocks ≡ [])
    × ((kfree_body (heap_start + header_size) one_page).free_count ≡ 1)
kfree_body-live_example = kfree_body-live heap_start 64 one_page [] one_page-IsValid here

first_block : IsPointer (heap_start + 40) one_page
unfolding find
first_block = inr (record (new_block heap_start 64) { is_free = false }, refl)

kfree_body-IsValid_example : IsValid (kfree_body (heap_start + 40) one_page)
kfree_body-IsValid_example =
    kfree_body-IsValid (heap_start + 40) one_page first_block one_page-IsValid

kcalloc-deadlock_example : kcalloc endless 4 8 one_page 0 ≡ none
kcalloc-deadlock_example = kcalloc-deadlock endless 4 8 one_page 0

kmalloc_body-wraps_example :
    (given : ℕ) × ((kmalloc_body endless (2 ^ 64 - 8) one_page 0).2
      ≡ heap_start + 104 + header_size)
    × Inserted
        (heap_start + 104, given)
        (live one_page.blocks)
        (live (kmalloc_body endless (2 ^ 64 - 8) one_page 0).0.blocks)
    × (given < 2 ^ 64 - 8)
unfolding first_fit
kmalloc_body-wraps_example =
    kmalloc_body-wraps endless (2 ^ 64 - 8) (heap_start + 104) one_page 0 (omega arith)
      (omega arith) one_page-IsValid refl

krealloc_body-IsValid_example : IsValid (krealloc_body (heap_start + 40) 100 one_page).0
krealloc_body-IsValid_example =
    krealloc_body-IsValid (heap_start + 40) 100 one_page (omega arith) first_block one_page-IsValid
