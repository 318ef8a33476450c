-- ===== src/Heap/Limits.antt =====
-- kernel/heap.cpp: where a request is not served as the interface says.
use knail.Prelude.{
  ℕ, ◌+◌, ◌^◌, ◌<◌, ◌≤◌, ◌≡◌, refl, ◌∙◌, ap, inl, inr, false, none, List, [], ◌∷◌, arith, ◌==◌,
  Bool-cases, All,
}
use knail.Heap.{
  Heap, BlockHeader, Frames, heap_start, header_size, align16, first_fit, fit, use_block,
}
use knail.Heap.Requests.{finish, kmalloc_body, kmalloc, kcalloc}
use knail.Heap.Chain.{IsValid, Chain, Chain-le, use_block-Chain}
use knail.Heap.Live.{live, Inserted, here, there, first_fit-Fits, use_block-Inserted}

-- `kcalloc` takes the heap's lock and calls `kmalloc`, which takes it again: no call ever returns.
pub kcalloc-deadlock :
    (frames : Frames) (count size : ℕ) (h : Heap) (s : frames.State)
    → kcalloc frames count size h s ≡ none
unfolding kcalloc kmalloc
kcalloc-deadlock frames count size h s = elim (Bool-cases h.lock) [
  | inl held ↦ rw held refl
  | inr open_lock ↦ rw open_lock refl
]

align16-wraps : (n : ℕ) → 2 ^ 64 ≤ n + 15 → n < 2 ^ 64 → align16 n ≡ 0
unfolding align16
align16-wraps n low high = omega arith

-- No allocation is larger than the address where the heap ends.
live-sizes :
    (bs : List BlockHeader) (a e : ℕ) → Chain a bs e → All (λ (x : ℕ × ℕ). x.1 ≤ e) (live bs)
live-sizes [] a e c = tt
live-sizes (b ∷ bs) a e c =
    let rest = live-sizes bs (a + header_size + b.size) e c.2 in
    elim (Bool-cases b.is_free) [
      | inl unused ↦ rw unused rest
      | inr used ↦ rw used (omega (arith, Chain-le bs (a + header_size + b.size) e c.2), rest)
    ]

All-Inserted :
    (P : ℕ × ℕ → Type 0) {x : ℕ × ℕ} {l m : List (ℕ × ℕ)} → Inserted x l m → All P m → P x
All-Inserted P here h = h.0
All-Inserted P (there i) h = All-Inserted P i h.1

-- A request of the 15 largest sizes wraps to 0 when it is rounded up: on a valid heap in which
-- the walk finds any free block, `kmalloc` answers with a pointer to a block that is smaller than
-- the request.
pub kmalloc_body-wraps :
    (frames : Frames) (request addr : ℕ) (h : Heap) (s : frames.State)
    → 2 ^ 64 ≤ request + 15
    → request < 2 ^ 64
    → IsValid h
    → first_fit 0 h.blocks ≡ fit addr
    → (given : ℕ) × ((kmalloc_body frames request h s).2 ≡ addr + header_size)
      × Inserted (addr, given) (live h.blocks) (live (kmalloc_body frames request h s).0.blocks)
      × (given < request)
unfolding kmalloc_body
kmalloc_body-wraps frames request addr h s low high v found =
    let asked : (request == 0) ≡ false = ground arith in
    let wrapped = align16-wraps request low high in
    let (given, enough, ins) =
      use_block-Inserted heap_start h.heap_end (omega arith) v.tiled
        (first_fit-Fits 0 h.blocks found) in
    let tiled = use_block-Chain addr 0 h.blocks heap_start h.heap_end (omega arith) v.tiled in
    let size =
      All-Inserted (λ (x : ℕ × ℕ). x.1 ≤ h.heap_end) ins
        (live-sizes (use_block addr 0 h.blocks) heap_start h.heap_end tiled) in
    let found' : first_fit (align16 request) h.blocks ≡ fit addr =
      ap (λ (k : ℕ). first_fit k h.blocks) wrapped ∙ found in
    let step : kmalloc_body frames request h s ≡ ((finish addr 0 h).0, s, (finish addr 0 h).1) =
      rw (asked, found', kmalloc_body)
        (ap (λ (k : ℕ). ((finish addr k h).0, s, (finish addr k h).1)) wrapped) in
    rw step (given, refl, ins, omega (arith, size, v.below_max))
