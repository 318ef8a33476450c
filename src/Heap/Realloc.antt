-- ===== src/Heap/Realloc.antt =====
-- kernel/heap.cpp: what `krealloc` keeps.
use knail.Prelude.{
  ℕ, ◌+◌, ◌-◌, ◌%◌, ◌^◌, ◌<◌, inl, inr, arith, ◌==◌, ◌||◌, leb, Bool-cases, Option-cases,
}
use knail.Heap.{Heap, heap_start, heap_magic, header_size, align16, use_block, find}
use knail.Heap.Requests.{krealloc_body, first_free}
use knail.Heap.Chain.{IsPointer, IsValid, use_block-Chain, mark_free-Chain}

align16-lt : (n : ℕ) → n < 2 ^ 62 → align16 n < 2 ^ 63
unfolding align16
align16-lt n small = omega arith

-- On a valid heap, `krealloc` of the null pointer or of a block, in use or free, to fewer than 2 ^ 62
-- bytes keeps the blocks a tiling of the mapped heap, on every branch.
pub krealloc_body-IsValid :
    (ptr new_size : ℕ) (h : Heap)
    → new_size < 2 ^ 62
    → IsPointer ptr h
    → IsValid h
    → IsValid (krealloc_body ptr new_size h).0
unfolding krealloc_body
krealloc_body-IsValid ptr new_size h small pointer v =
    elim (Bool-cases (ptr == 0 || new_size == 0)) [
      | inl null ↦ rw null v
      | inr asked ↦ elim (Option-cases (find ((ptr + 2 ^ 64 - header_size) % 2 ^ 64) h.blocks)) [
        | inl missing ↦ rw (asked, missing, krealloc_body) v
        | inr (blk, found) ↦ elim (Bool-cases (blk.magic == heap_magic)) [
          | inr broken ↦ rw (asked, found, broken, krealloc_body) v
          | inl sound ↦ elim (Bool-cases (leb new_size blk.size)) [
            | inl enough ↦ rw (asked, found, sound, enough, krealloc_body) v
            | inr larger ↦ elim (Option-cases (first_free (align16 new_size) h.blocks)) [
              | inl full ↦ rw (asked, found, sound, larger, full, krealloc_body) v
              | inr (b, free_block) ↦
                  rw (asked, found, sound, larger, free_block, krealloc_body)
                    (record {
                      tiled =
                          mark_free-Chain ((ptr + 2 ^ 64 - header_size) % 2 ^ 64)
                            (use_block b (align16 new_size) h.blocks) heap_start h.heap_end
                            (use_block-Chain b (align16 new_size) h.blocks heap_start h.heap_end
                              (align16-lt new_size small) v.tiled);
                      below_max = v.below_max;
                    })
            ]
          ]
        ]
      ]
    ]
