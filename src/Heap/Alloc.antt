-- ===== src/Heap/Alloc.antt =====
-- kernel/heap.cpp: what `kmalloc` returns, and what it does to the allocations that are live.
use knail.Prelude.{
  ℕ, ◌+◌, ◌-◌, ◌*◌, ◌%◌, ◌^◌, ◌<◌, ◌≤◌, ◌≡◌, refl, sym, subst, ◌∙◌, ◌⊎◌, inl, inr, Bool, true,
  false, none, some, List, [], ◌∷◌, ◌++◌, arith, ltb, ◌==◌, if◌then◌else◌, Bool-cases, append-nil,
}
use knail.Heap.{
  Heap, BlockHeader, Frames, heap_start, heap_max, header_size, page_size, align16, pages_for,
  grown, Found, corrupt, fit, no_fit, first_fit, use_block, new_block,
}
use knail.Heap.Requests.{finish, map_pages, expand, kmalloc_body}
use knail.Heap.Chain.{Chain, IsValid, Chain-append, use_block-Chain}
use knail.Heap.Live.{
  live, Inserted, Fits, first, later, first_fit-Fits, Fits-le, use_block-Inserted, live-append,
}

align16-bounds : (n : ℕ) → n < 2 ^ 46 → (n ≤ align16 n) × (align16 n < n + 16)
unfolding align16
align16-bounds n small = omega arith

-- The pages that `expand` maps hold the header and the bytes that are needed.
pages_for-bounds :
    (n : ℕ)
    → n < 2 ^ 63
    → (0 < pages_for n)
      × (n + header_size ≤ pages_for n * page_size)
      × (pages_for n * page_size ≤ n + header_size + page_size)
unfolding pages_for
pages_for-bounds n small = ground arith

Found-cases : (r : Found) → (r ≡ corrupt) ⊎ (((a : ℕ) × (r ≡ fit a)) ⊎ (r ≡ no_fit))
Found-cases corrupt = inl refl
Found-cases (fit a) = inr (inl (a, refl))
Found-cases no_fit = inr (inr refl)

-- What `kmalloc` of `request` bytes may do to a valid heap: return null with the blocks as they
-- were; or return the user data of a block of at least `request` bytes that is live now and was not
-- before, with every other live allocation as it was.
pub data Allocated (request : ℕ) (h : Heap) : Heap → ℕ → Type 0 where
  refused : Allocated request h h 0
  given :
      {h' : Heap} (addr size : ℕ)
      → request ≤ size
      → Inserted (addr, size) (live h.blocks) (live h'.blocks)
      → heap_start ≤ addr
      → IsValid h'
      → Allocated request h h' (addr + header_size)

Fits-append :
    (size : ℕ) (bs : List BlockHeader) (b : BlockHeader)
    → b.is_free ≡ true
    → size ≤ b.size
    → Fits size (bs ++ (b ∷ [])) b.addr
Fits-append size [] b unused le = first unused le
Fits-append size (x ∷ bs) b unused le = later (Fits-append size bs b unused le)

finish-Allocated :
    (request size addr : ℕ) (h0 h : Heap)
    → request ≤ size
    → size < 2 ^ 63
    → IsValid h
    → live h.blocks ≡ live h0.blocks
    → Fits size h.blocks addr
    → Allocated request h0 (finish addr size h).0 (finish addr size h).1
finish-Allocated request size addr h0 h le small v same f =
    let (given_size, enough, ins) = use_block-Inserted heap_start h.heap_end small v.tiled f in
    given addr given_size (omega arith)
      (subst (λ l. Inserted (addr, given_size) l (live (use_block addr size h.blocks))) same ins)
      (Fits-le heap_start h.heap_end v.tiled f)
      (record {
        tiled = use_block-Chain addr size h.blocks heap_start h.heap_end small v.tiled;
        below_max = v.below_max;
      })

-- A heap that `expand` has grown is valid, its live allocations are the same, and its last block
-- fits what was asked for.
grown-lem :
    (size : ℕ) (h : Heap)
    → size < 2 ^ 46 + 16
    → IsValid h
    → ltb heap_max ((h.heap_end + pages_for size * page_size) % 2 ^ 64) ≡ false
    → IsValid (grown (pages_for size) h)
      × (live (grown (pages_for size) h).blocks ≡ live h.blocks)
      × Fits size (grown (pages_for size) h).blocks h.heap_end
grown-lem size h small v room =
    let bounds = pages_for-bounds size (omega arith) in
    let n : ℕ = pages_for size * page_size in
    let b : BlockHeader = new_block h.heap_end (n - header_size) in
    let exact : (h.heap_end + n) % 2 ^ 64 ≡ h.heap_end + header_size + (n - header_size) =
      omega (arith, bounds, v.below_max) in
    (
      record {
        tiled =
            subst (Chain heap_start (h.blocks ++ (b ∷ []))) (sym exact)
              (Chain-append h.blocks heap_start h.heap_end b v.tiled refl refl);
        below_max = ground arith;
      },
      live-append h.blocks (b ∷ []) ∙ append-nil (live h.blocks),
      Fits-append size h.blocks b refl (omega (arith, bounds)),
    )

Option-bool :
    (full : Bool) (h : Heap)
    → (if full then some h else none) ≡ none ⊎ ((if full then some h else none) ≡ some h)
Option-bool true h = inr refl
Option-bool false h = inl refl

module _ (frames : Frames) where
  open frames use {State}

  -- `expand` fails, or it grows the heap where the limit allows it.
  expand-cases :
      (size : ℕ) (h : Heap) (s : State)
      → ((expand frames size h s).0 ≡ none)
        ⊎ (((expand frames size h s).0 ≡ some (grown (pages_for size) h))
            × (ltb heap_max ((h.heap_end + pages_for size * page_size) % 2 ^ 64) ≡ false))
  unfolding expand
  expand-cases size h s =
      elim (Bool-cases (ltb heap_max ((h.heap_end + pages_for size * page_size) % 2 ^ 64))) [
        | inl over ↦ rw over (inl refl)
        | inr room ↦ elim (Bool-cases (map_pages frames (pages_for size) h.heap_end s).0) [
          | inl mapped ↦ rw (room, mapped) (inr (refl, refl))
          | inr short ↦ rw (room, short) (inl refl)
        ]
      ]

  -- `kmalloc` of fewer than 2 ^ 46 bytes on a valid heap: whatever the memory managers answer, it
  -- does what `Allocated` says.
  pub kmalloc_body-Allocated :
      (request : ℕ) (h : Heap) (s : State)
      → request < 2 ^ 46
      → IsValid h
      → Allocated request h (kmalloc_body frames request h s).0 (kmalloc_body frames request h s).2
  unfolding kmalloc_body
  kmalloc_body-Allocated request h s small v = elim (Bool-cases (request == 0)) [
    | inl none_asked ↦ rw none_asked refused
    | inr some_asked ↦ elim (Found-cases (first_fit size h.blocks)) [
      | inl broken ↦ rw (some_asked, broken, kmalloc_body) refused
      | inr (inl (addr, found)) ↦
          rw (some_asked, found, kmalloc_body)
            (finish-Allocated request size addr h h bounds.0 (omega (arith, bounds)) v refl
              (first_fit-Fits size h.blocks found))
      | inr (inr full) ↦ elim (expand-cases size h s) [
        | inl stuck ↦ rw (some_asked, full, stuck, kmalloc_body) refused
        | inr (expanded, room) ↦
            let g = grown-lem size h (omega (arith, bounds)) v room in
            rw (some_asked, full, expanded, kmalloc_body)
              (finish-Allocated request size h.heap_end h (grown (pages_for size) h) bounds.0
                (omega (arith, bounds)) g.0 g.1 g.2)
      ]
    ]
  ]
    where
      size : ℕ
      size = align16 request

      bounds : (request ≤ align16 request) × (align16 request < request + 16)
      bounds = align16-bounds request small
