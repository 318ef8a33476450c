-- ===== src/Elf/Segments.antt =====
-- proc/elf.cpp: the segments of an image that the loader gives, by the bytes of the file.
use knail.Prelude.{
  ℕ, zero, suc, ◌+◌, ◌^◌, ◌%◌, ◌≤◌, ◌≡◌, ◌≢◌, refl, subst, Bool, true, false, List, [], ◌∷◌, ◌++◌,
  append_assoc, append-nil, Option, none, some, arith, ltb, leb, ◌==◌, if◌then◌else◌, length,
  length-append, Bool-cases, inl, inr,
}
use knail.Elf.{
  Segment, Image, max_segments, little, segment_of, add_segment, visit, walk, phdr_at, image_of,
  finish_walk, parse, header_at, header_ok,
}

-- The program header at `at` is of type 1, `PT_LOAD`, and `seg` has what its fields say. The bytes
-- lie in the file, unless their end passes 2^64, and take no more than the memory.
pub record IsSegment (mem : ℕ → ℕ) (buf size at : ℕ) (seg : Segment) : Type 0 where
  pub loads : little 4 mem at ≡ 1
  pub flags : seg.flags ≡ little 4 mem (at + 4)
  pub data_at : seg.data_at ≡ (buf + little 8 mem (at + 8)) % 2 ^ 64
  pub vaddr : seg.vaddr ≡ little 8 mem (at + 16)
  pub filesz : seg.filesz ≡ little 8 mem (at + 32)
  pub memsz : seg.memsz ≡ little 8 mem (at + 40)
  pub in_file : (little 8 mem (at + 8) + seg.filesz) % 2 ^ 64 ≤ size
  pub roomy : seg.filesz ≤ seg.memsz

-- The segments of the `n` program headers from `at` on, each of 56 bytes, in their order: one for
-- each header to load, and none for any other.
pub data Described (mem : ℕ → ℕ) (buf size : ℕ) : ℕ → ℕ → List Segment → Type 0 where
  no_more : (at : ℕ) → Described mem buf size zero at []
  other :
      (n at : ℕ) (segs : List Segment)
      → little 4 mem at ≢ 1
      → Described mem buf size n (at + 56) segs
      → Described mem buf size (suc n) at segs
  load :
      (n at : ℕ) (seg : Segment) (segs : List Segment)
      → IsSegment mem buf size at seg
      → Described mem buf size n (at + 56) segs
      → Described mem buf size (suc n) at (seg ∷ segs)

-- The walk fails, or puts the segments of the headers behind those that it had.
data Outcome (mem : ℕ → ℕ) (buf size n at : ℕ) (segs : List Segment)
    : Option (List Segment) → Type 0 where
  fails : Outcome mem buf size n at segs none
  gives :
      (more : List Segment)
      → Described mem buf size n at more
      → length (segs ++ more) ≤ max_segments
      → Outcome mem buf size n at segs (some (segs ++ more))

module _ (mem : ℕ → ℕ) (buf size : ℕ) where
  segment_of-IsSegment :
      (at : ℕ)
      → (phdr_at mem at).type ≡ 1
      → ltb size (((phdr_at mem at).offset + (phdr_at mem at).filesz) % 2 ^ 64) ≡ false
      → ltb (phdr_at mem at).memsz (phdr_at mem at).filesz ≡ false
      → IsSegment mem buf size at (segment_of buf (phdr_at mem at))
  unfolding segment_of phdr_at
  segment_of-IsSegment at loads inside large = record {
    loads = loads;
    flags = refl;
    data_at = refl;
    vaddr = refl;
    filesz = refl;
    memsz = refl;
    in_file = ground arith;
    roomy = ground arith;
  }

  skip :
      {n at : ℕ} {segs : List Segment} {o : Option (List Segment)}
      → little 4 mem at ≢ 1
      → Outcome mem buf size n (at + 56) segs o
      → Outcome mem buf size (suc n) at segs o
  skip ne fails = fails
  skip {n} {at} ne (gives more d few) = gives more (other n at more ne d) few

  keep :
      {n at : ℕ} {segs : List Segment} {seg : Segment} {o : Option (List Segment)}
      → IsSegment mem buf size at seg
      → Outcome mem buf size n (at + 56) (segs ++ (seg ∷ [])) o
      → Outcome mem buf size (suc n) at segs o
  keep is fails = fails
  keep {n} {at} {segs} {seg} is (gives more d few) =
      let same : (segs ++ (seg ∷ [])) ++ more ≡ segs ++ (seg ∷ more) =
        append_assoc segs (seg ∷ []) more in
      rw same (gives (seg ∷ more) (load n at seg more is d) (rw same at few))

  -- What the visit of a header gives.
  data Visited (at : ℕ) (segs : List Segment) : Option (List Segment) → Type 0 where
    stops : Visited at segs none
    passes : little 4 mem at ≢ 1 → Visited at segs (some segs)
    adds :
        (seg : Segment)
        → IsSegment mem buf size at seg
        → length (segs ++ (seg ∷ [])) ≤ max_segments
        → Visited at segs (some (segs ++ (seg ∷ [])))

  add_segment-Visited :
      (at : ℕ) (segs : List Segment)
      → (phdr_at mem at).type ≡ 1
      → Visited at segs (add_segment buf size (phdr_at mem at) segs)
  unfolding add_segment
  add_segment-Visited at segs loads =
      let ph = phdr_at mem at in
      elim (Bool-cases (ltb size ((ph.offset + ph.filesz) % 2 ^ 64))) [
        | inl outside ↦ rw outside stops
        | inr inside ↦ elim (Bool-cases (ltb ph.memsz ph.filesz)) [
          | inl small ↦ rw (inside, small) stops
          | inr large ↦ elim (Bool-cases (leb max_segments (length segs))) [
            | inl full ↦ rw (inside, large, full) stops
            | inr room ↦
                rw (inside, large, room)
                  (adds (segment_of buf ph) (segment_of-IsSegment at loads inside large)
                    (ground (arith, length-append segs (segment_of buf ph ∷ []))))
          ]
        ]
      ]

  not_load : (at : ℕ) → (phdr_at mem at).type ≢ 1 → little 4 mem at ≢ 1
  unfolding phdr_at
  not_load at ne = ne

  visit-Visited :
      (at : ℕ) (segs : List Segment) → Visited at segs (visit buf size (phdr_at mem at) segs)
  unfolding visit
  visit-Visited at segs = elim (Bool-cases ((phdr_at mem at).type == 1)) [
    | inl loads ↦ rw loads (add_segment-Visited at segs (ground arith))
    | inr off ↦ rw off (passes (not_load at (ground arith)))
  ]

  walk-Outcome :
      (n at : ℕ) (segs : List Segment)
      → length segs ≤ max_segments
      → Outcome mem buf size n at segs (walk n mem buf size at segs)
  unfolding walk
  walk-Outcome zero at segs few =
      subst (λ (l : List Segment). Outcome mem buf size zero at segs (some l)) (append-nil segs)
        (gives [] (no_more at)
          (let kept : length (segs ++ []) ≤ max_segments = rw (append-nil segs) few in kept))
  walk-Outcome (suc n) at segs few =
      go (λ (ss : List Segment) (k : length ss ≤ max_segments). walk-Outcome n (at + 56) ss k)
        (visit buf size (phdr_at mem at) segs) (visit-Visited at segs)
    where
      go :
          ((ss : List Segment)
            → length ss ≤ max_segments
            → Outcome mem buf size n (at + 56) ss (walk n mem buf size (at + 56) ss))
          → (o : Option (List Segment)) → Visited at segs o
          → Outcome mem buf size
              (suc n)
              at
              segs
              (elim o [ none ↦ none | some more ↦ walk n mem buf size (at + 56) more ])
      go later none h = fails
      go later (some ss) (passes ne) = skip ne (later segs few)
      go later (some ss) (adds seg is room) = keep is (later (segs ++ (seg ∷ [])) room)

  opened :
      {n at : ℕ} {l : List Segment}
      → Outcome mem buf size n at [] (some l)
      → Described mem buf size n at l × (length l ≤ max_segments)
  opened (gives more d few) = (d, few)

-- The image of the file whose bytes are `mem`, in a buffer at `buf`.
pub record IsImage (mem : ℕ → ℕ) (buf size : ℕ) (img : Image) : Type 0 where
  pub segments : Described mem buf size (little 2 mem 56) (little 8 mem 32) img.segments
  pub some_segment : 1 ≤ length img.segments
  pub few : length img.segments ≤ 16
  pub entry : img.entry ≡ little 8 mem 24
  pub file_data : img.file_data ≡ buf
  pub file_size : img.file_size ≡ size

-- What `parse` accepts has from 1 to 16 segments, which are those of the file's program headers: in
-- their order, one for each header of type `PT_LOAD`, with its fields, no more bytes in the file
-- than in memory, and an end in the file, taken modulo 2^64, that is at most the file's size. The
-- entry is the header's, and the image has the buffer and the size of the file.
pub parse-IsValid :
    (mem : ℕ → ℕ) (buf size : ℕ) (img : Image)
    → parse mem buf size ≡ some img
    → IsImage mem buf size img
unfolding parse finish_walk image_of header_at
parse-IsValid mem buf size img e = checked (header_ok (header_at mem) size) e
  where
    walked :
        (o : Option (List Segment))
        → Outcome mem buf size (little 2 mem 56) (little 8 mem 32) [] o
        → finish_walk (little 8 mem 24) buf size o ≡ some img
        → IsImage mem buf size img
    walked none h e = absurd (ground arith)
    walked (some []) h e = absurd (ground arith)
    walked (some (seg ∷ segs)) h e =
        let (d, few) = opened mem buf size h in
        let img' : Image = record {
          entry = little 8 mem 24;
          segments = seg ∷ segs;
          file_data = buf;
          file_size = size;
        } in
        let same_image : img' ≡ img = ground arith in
        subst (IsImage mem buf size) same_image (record {
          segments = d;
          some_segment = omega arith;
          few = few;
          entry = refl;
          file_data = refl;
          file_size = refl;
        })

    checked :
        (b : Bool)
        → (if b
            then finish_walk
                (little 8 mem 24)
                buf
                size
                (walk (little 2 mem 56) mem buf size (little 8 mem 32) [])
            else none)
          ≡ some img
        → IsImage mem buf size img
    checked true e =
        walked (walk (little 2 mem 56) mem buf size (little 8 mem 32) [])
          (walk-Outcome mem buf size (little 2 mem 56) (little 8 mem 32) [] (omega arith)) e
    checked false e = absurd (ground arith)
