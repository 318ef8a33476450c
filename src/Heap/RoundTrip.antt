-- ===== src/Heap/RoundTrip.antt =====
-- kernel/heap.cpp: `kfree` after `kmalloc`.
use knail.Prelude.{ℕ, ◌<◌, ◌^◌, ◌≡◌, refl}
use knail.Heap.{Heap, Frames, kfree_body}
use knail.Heap.Requests.{kmalloc_body}
use knail.Heap.Chain.{IsValid}
use knail.Heap.Live.{live}
use knail.Heap.Alloc.{Allocated, refused, given, kmalloc_body-Allocated}
use knail.Heap.Free.{kfree_body-live}

freed_again :
    (request : ℕ) (h : Heap) {h' : Heap} {ptr : ℕ}
    → Allocated request h h' ptr
    → live (kfree_body ptr h').blocks ≡ live h.blocks
unfolding kfree_body
freed_again request h refused = refl
freed_again request h (given {h' = h'} addr size enough ins low v) =
    (kfree_body-live addr size h' (live h.blocks) v ins).0

-- On a valid heap, and for fewer than 2 ^ 46 bytes, freeing what `kmalloc` returned leaves the
-- live allocations as they were before it, also where it returned null or grew the heap.
pub kfree-kmalloc :
    (frames : Frames) (request : ℕ) (h : Heap) (s : frames.State)
    → request < 2 ^ 46
    → IsValid h
    → live
        (kfree_body (kmalloc_body frames request h s).2 (kmalloc_body frames request h s).0).blocks
      ≡ live h.blocks
kfree-kmalloc frames request h s small v =
    freed_again request h (kmalloc_body-Allocated frames request h s small v)
