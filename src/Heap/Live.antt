-- ===== src/Heap/Live.antt =====
-- kernel/heap.cpp: the allocations that are live, as a list of addresses and sizes in address order.
use knail.Prelude.{
  ℕ, ◌+◌, ◌%◌, ◌^◌, ◌<◌, ◌≤◌, ◌≡◌, refl, ap, sym, subst, ◌⊎◌, inl, inr, true, false, ◌&&◌, some,
  List, [], ◌∷◌, ◌++◌, arith, leb, ◌==◌, if◌then◌else◌, Bool-cases,
}
use knail.Heap.{
  BlockHeader, heap_magic, header_size, min_split, use_block, merge, coalesce, mark_free, first_fit,
  fit, find,
}
use knail.Heap.Chain.{Chain, Chain-le}

abbrev pub keep : BlockHeader → List (ℕ × ℕ) → List (ℕ × ℕ)
keep b l = if b.is_free then l else (b.addr, b.size) ∷ l

-- The blocks in use.
abbrev pub live : List BlockHeader → List (ℕ × ℕ)
live [] = []
live (b ∷ bs) = keep b (live bs)

-- `m` is `l` with one allocation more.
pub data Inserted (x : ℕ × ℕ) : List (ℕ × ℕ) → List (ℕ × ℕ) → Type 0 where
  here : {l : List (ℕ × ℕ)} → Inserted x l (x ∷ l)
  there : {y : ℕ × ℕ} {l m : List (ℕ × ℕ)} → Inserted x l m → Inserted x (y ∷ l) (y ∷ m)

-- From address `a` on, each allocation with its header ends before the next one's header.
abbrev pub Apart : ℕ → List (ℕ × ℕ) → Type 0
Apart a [] = Unit {0}
Apart a ((addr, size) ∷ l) = (a ≤ addr) × Apart (addr + header_size + size) l

Apart-le : (l : List (ℕ × ℕ)) (a b : ℕ) → a ≤ b → Apart b l → Apart a l
Apart-le [] a b le h = tt
Apart-le (x ∷ l) a b le h = (omega arith, h.1)

-- Live allocations never overlap.
pub Chain-Apart : (bs : List BlockHeader) (a e : ℕ) → Chain a bs e → Apart a (live bs)
Chain-Apart [] a e c = tt
Chain-Apart (b ∷ bs) a e c =
    let rest = Chain-Apart bs (a + header_size + b.size) e c.2 in
    elim (Bool-cases b.is_free) [
      | inl unused ↦ rw unused (Apart-le (live bs) a (a + header_size + b.size) (omega arith) rest)
      | inr used ↦
          rw used
            (omega arith, subst (λ k. Apart (k + header_size + b.size) (live bs)) (sym c.0) rest)
    ]

pub live-append : (bs cs : List BlockHeader) → live (bs ++ cs) ≡ live bs ++ live cs
live-append [] cs = refl
live-append (b ∷ bs) cs = elim (Bool-cases b.is_free) [
  | inl unused ↦ rw (unused, live-append bs cs)
  | inr used ↦ rw (used, live-append bs cs)
]

-- Merging two free blocks loses no allocation.
live-merge : (b : BlockHeader) (bs : List BlockHeader) → live (merge b bs) ≡ live (b ∷ bs)
live-merge b [] = refl
live-merge b (n ∷ bs) = ground arith

pub live-coalesce : (addr : ℕ) (bs : List BlockHeader) → live (coalesce addr bs) ≡ live bs
unfolding coalesce
live-coalesce addr [] = refl
live-coalesce addr (b ∷ bs) = elim (Bool-cases (b.addr == addr)) [
  | inl at ↦ rw at (live-merge b bs)
  | inr off ↦ rw off (ap (keep b) (live-coalesce addr bs))
]

-- The block that the walk chooses is in the list, free and large enough.
pub data Fits (size : ℕ) : List BlockHeader → ℕ → Type 0 where
  first :
      {b : BlockHeader} {bs : List BlockHeader}
      → b.is_free ≡ true
      → size ≤ b.size
      → Fits size (b ∷ bs) b.addr
  later :
      {b : BlockHeader} {bs : List BlockHeader} {addr : ℕ}
      → Fits size bs addr
      → Fits size (b ∷ bs) addr

pub first_fit-Fits :
    (size : ℕ) (bs : List BlockHeader) {addr : ℕ} → first_fit size bs ≡ fit addr → Fits size bs addr
unfolding first_fit
first_fit-Fits size [] e = cc
first_fit-Fits size (b ∷ bs) {addr} e = elim (Bool-cases (b.magic == heap_magic)) [
  | inl sound ↦ elim (Bool-cases (b.is_free && leb size b.size)) [
    | inl fits ↦
        let at : b.addr ≡ addr = ground (arith, rw (sound, fits, first_fit) at e) in
        subst (Fits size (b ∷ bs)) at (first (ground arith) (ground arith))
    | inr tight ↦ later (first_fit-Fits size bs (rw (sound, tight, first_fit) at e))
  ]
  | inr broken ↦ let no_way = rw (broken, first_fit) at e in cc
]

-- In a tiled list an address names one block.
pub Fits-le :
    {size addr : ℕ} {bs : List BlockHeader} (a e : ℕ) → Chain a bs e → Fits size bs addr → a ≤ addr
Fits-le a e c (first f le) = omega (arith, c.0)
Fits-le a e c (later {b = b} f) = omega (arith, Fits-le (a + header_size + b.size) e c.2 f)

-- Taking a block adds one allocation at its address, of at least the size asked for.
pub use_block-Inserted :
    {size addr : ℕ} {bs : List BlockHeader} (a e : ℕ)
    → size < 2 ^ 63
    → Chain a bs e
    → Fits size bs addr
    → (given : ℕ) × (size ≤ given)
      × Inserted (addr, given) (live bs) (live (use_block addr size bs))
unfolding use_block
use_block-Inserted {size} a e small c (first {b = b} {bs = bs} unused le) =
    let itself : (b.addr == b.addr) ≡ true = ground arith in
    elim (Bool-cases (leb ((size + header_size + min_split) % 2 ^ 64) b.size)) [
      | inl split ↦ (size, omega arith, rw (itself, split, unused) here)
      | inr whole ↦ (b.size, le, rw (itself, whole, unused) here)
    ]
use_block-Inserted {size} {addr} a e small c (later {b = b} {bs = bs} f) =
    let (given, le, ins) = use_block-Inserted (a + header_size + b.size) e small c.2 f in
    let past : (b.addr == addr) ≡ false =
      ground (arith, c.0, Fits-le (a + header_size + b.size) e c.2 f) in
    (given, le, rw past (Inserted-keep b ins))
  where
    Inserted-keep :
        (b : BlockHeader) {x : ℕ × ℕ} {l m : List (ℕ × ℕ)}
        → Inserted x l m
        → Inserted x (keep b l) (keep b m)
    Inserted-keep b ins = elim (Bool-cases b.is_free) [
      | inl unused ↦ rw unused ins
      | inr used ↦ rw used (there ins)
    ]

Inserted-cons :
    {x y : ℕ × ℕ} {l m n : List (ℕ × ℕ)}
    → Inserted x l n
    → n ≡ y ∷ m
    → ((x ≡ y) × (l ≡ m)) ⊎ ((k : List (ℕ × ℕ)) × (l ≡ y ∷ k) × Inserted x k m)
Inserted-cons {x} {y} {l} {m} here e = inl (cc e, cc e)
Inserted-cons {x} {y} {l} {m} (there {y = z} {l = k} {m = o} i) e =
    inr (k, cc e, subst (Inserted x k) (cc e) i)

Apart-Inserted :
    {addr size : ℕ} {l m : List (ℕ × ℕ)} (a : ℕ) → Apart a m → Inserted (addr, size) l m → a ≤ addr
Apart-Inserted a h here = h.0
Apart-Inserted a h (there {y = y} i) =
    omega (arith, h.0, Apart-Inserted (y.0 + header_size + y.1) h.1 i)

-- A live allocation is a block in use, and freeing that block takes it off the list.
pub record Owned (addr size : ℕ) (bs : List BlockHeader) (l : List (ℕ × ℕ)) : Type 0 where
  pub block : BlockHeader
  pub found : find addr bs ≡ some block
  pub used : block.is_free ≡ false
  pub sound : block.magic ≡ heap_magic
  pub left : live (mark_free addr bs) ≡ l

Inserted-nil : {x : ℕ × ℕ} {l m : List (ℕ × ℕ)} → Inserted x l m → m ≡ [] → ⊥
Inserted-nil here e = cc e
Inserted-nil (there i) e = cc e

-- The block is further down the list.
Owned-later :
    (addr size : ℕ) (b : BlockHeader) (bs : List BlockHeader) (l : List (ℕ × ℕ))
    → (b.addr == addr) ≡ false
    → Owned addr size bs l
    → Owned addr size (b ∷ bs) (keep b l)
unfolding find mark_free
Owned-later addr size b bs l past o = record {
  block = o.block;
  found = rw past o.found;
  used = o.used;
  sound = o.sound;
  left = rw past (ap (keep b) o.left);
}

pub live-Owned :
    (addr size : ℕ) (bs : List BlockHeader) (l : List (ℕ × ℕ)) (a e : ℕ)
    → Chain a bs e
    → Inserted (addr, size) l (live bs)
    → Owned addr size bs l
unfolding find mark_free
live-Owned addr size [] l a e c i = absurd (Inserted-nil i refl)
live-Owned addr size (b ∷ bs) l a e c i = elim (Bool-cases b.is_free) [
  | inl unused ↦
      let j : Inserted (addr, size) l (live bs) = rw unused at i in
      let same : keep b l ≡ l = rw unused refl in
      subst (Owned addr size (b ∷ bs)) same (
        Owned-later addr size b bs l (past j)
          (live-Owned addr size bs l (a + header_size + b.size) e c.2 j))
  | inr used ↦ elim (Inserted-cons {y = (b.addr, b.size)} {m = live bs} i (rw used refl)) [
    | inl (at, rest) ↦
        let here : b.addr ≡ addr = ap (λ (x : ℕ × ℕ). x.0) (sym at) in
        let itself : (b.addr == addr) ≡ true = ground arith in
        record {
          block = b;
          found = rw itself refl;
          used = used;
          sound = c.1;
          left = rw itself (sym rest);
        }
    | inr (k, more, j) ↦
        let same : keep b k ≡ l = rw used (sym more) in
        subst (Owned addr size (b ∷ bs)) same (
          Owned-later addr size b bs k (past j)
            (live-Owned addr size bs k (a + header_size + b.size) e c.2 j))
  ]
]
  where
    past : {k : List (ℕ × ℕ)} → Inserted (addr, size) k (live bs) → (b.addr == addr) ≡ false
    past j = ground (
      arith,
      c.0,
      Apart-Inserted (a + header_size + b.size) (Chain-Apart bs (a + header_size + b.size) e c.2) j,
    )

pub find-le :
    (addr : ℕ) (bs : List BlockHeader) (a e : ℕ) {b : BlockHeader}
    → Chain a bs e
    → find addr bs ≡ some b
    → addr ≤ e
unfolding find
find-le addr [] a e c f = cc
find-le addr (x ∷ bs) a e c f = elim (Bool-cases (x.addr == addr)) [
  | inl at ↦ ground (arith, c.0, Chain-le bs (a + header_size + x.size) e c.2)
  | inr off ↦ find-le addr bs (a + header_size + x.size) e c.2 (rw (off, find) at f)
]
