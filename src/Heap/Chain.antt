-- ===== src/Heap/Chain.antt =====
-- kernel/heap.cpp: the blocks tile the mapped part of the heap.
use knail.Prelude.{
  ℕ, ◌+◌, ◌-◌, ◌%◌, ◌^◌, ◌<◌, ◌≤◌, ◌≡◌, ◌⊎◌, refl, ap, sym, subst, ◌∙◌, some, inl, inr, ◌&&◌, List,
  [], ◌∷◌, ◌++◌, arith, leb, ◌==◌, Bool-cases,
}
use knail.Heap.{
  find, header_of, Heap, BlockHeader, heap_start, heap_max, heap_magic, header_size, min_split,
  carve, use_block, merge, coalesce, mark_free,
}

-- Each block starts where the one before it ends, from `a` up to `e`, and carries the magic number.
abbrev pub Chain : ℕ → List BlockHeader → ℕ → Type 0
Chain a [] e = a ≡ e
Chain a (b ∷ bs) e = (b.addr ≡ a) × (b.magic ≡ heap_magic) × Chain (a + header_size + b.size) bs e

pub record IsValid (h : Heap) : Type 0 where
  pub tiled : Chain heap_start h.blocks h.heap_end
  pub below_max : h.heap_end ≤ heap_max

pub Chain-le : (bs : List BlockHeader) (a e : ℕ) → Chain a bs e → a ≤ e
Chain-le [] a e c = omega arith
Chain-le (b ∷ bs) a e c = omega (arith, Chain-le bs (a + header_size + b.size) e c.2)

pub Chain-append :
    (bs : List BlockHeader) (a m : ℕ) (b : BlockHeader)
    → Chain a bs m
    → b.addr ≡ m
    → b.magic ≡ heap_magic
    → Chain a (bs ++ (b ∷ [])) (m + header_size + b.size)
Chain-append [] a m b c at magic = (at ∙ sym c, magic, omega arith)
Chain-append (x ∷ bs) a m b c at magic =
    (c.0, c.1, Chain-append bs (a + header_size + x.size) m b c.2 at magic)

-- The pieces of a block tile what the block took up.
Chain-carve :
    (size : ℕ) (b : BlockHeader) (bs : List BlockHeader) (a e : ℕ)
    → size < 2 ^ 63
    → Chain a (b ∷ bs) e
    → Chain a (carve size b ++ bs) e
Chain-carve size b bs a e small c =
    elim (Bool-cases (leb ((size + header_size + min_split) % 2 ^ 64) b.size)) [
      | inl split ↦
          let whole : a + header_size + size + header_size + (b.size - size - header_size)
              ≡ a + header_size + b.size =
            ground arith in
          rw split (
            c.0,
            c.1,
            (
              ap (λ (k : ℕ). k + header_size + size) c.0,
              refl,
              subst (λ k. Chain k bs e) (sym whole) c.2,
            ),
          )
      | inr keep ↦ rw keep c
    ]

pub use_block-Chain :
    (addr size : ℕ) (bs : List BlockHeader) (a e : ℕ)
    → size < 2 ^ 63
    → Chain a bs e
    → Chain a (use_block addr size bs) e
unfolding use_block
use_block-Chain addr size [] a e small c = c
use_block-Chain addr size (b ∷ bs) a e small c = elim (Bool-cases (b.addr == addr)) [
  | inl here ↦ rw here (Chain-carve size b bs a e small c)
  | inr further ↦
      rw further (c.0, c.1, use_block-Chain addr size bs (a + header_size + b.size) e small c.2)
]

pub mark_free-Chain :
    (addr : ℕ) (bs : List BlockHeader) (a e : ℕ) → Chain a bs e → Chain a (mark_free addr bs) e
unfolding mark_free
mark_free-Chain addr [] a e c = c
mark_free-Chain addr (b ∷ bs) a e c = elim (Bool-cases (b.addr == addr)) [
  | inl here ↦ rw here c
  | inr further ↦ rw further (c.0, c.1, mark_free-Chain addr bs (a + header_size + b.size) e c.2)
]

merge-Chain :
    (b : BlockHeader) (bs : List BlockHeader) (a e : ℕ)
    → Chain a (b ∷ bs) e
    → Chain a (merge b bs) e
merge-Chain b [] a e c = c
merge-Chain b (n ∷ bs) a e c =
    elim (Bool-cases (b.is_free && (n.is_free && n.magic == heap_magic))) [
      | inl both ↦
          let whole : a + header_size + b.size + header_size + n.size
              ≡ a + header_size + (b.size + (header_size + n.size)) =
            omega arith in
          rw both (c.0, c.1, subst (λ k. Chain k bs e) whole c.2.2)
      | inr apart ↦ rw apart c
    ]

pub coalesce-Chain :
    (addr : ℕ) (bs : List BlockHeader) (a e : ℕ) → Chain a bs e → Chain a (coalesce addr bs) e
unfolding coalesce
coalesce-Chain addr [] a e c = c
coalesce-Chain addr (b ∷ bs) a e c = elim (Bool-cases (b.addr == addr)) [
  | inl here ↦ rw here (merge-Chain b bs a e c)
  | inr further ↦ rw further (c.0, c.1, coalesce-Chain addr bs (a + header_size + b.size) e c.2)
]

-- `ptr` is null or leads to a block of the list, free or in use.
abbrev pub IsPointer : ℕ → Heap → Type 0
IsPointer ptr h = (ptr ≡ 0) ⊎ ((b : BlockHeader) × (find (header_of ptr) h.blocks ≡ some b))
