-- ===== src/Pmm/Alloc.antt =====
-- arch/x86_64/pmm.cpp: what `alloc_frame` hands out, and freeing it again.
use native.Mathlib.Decide.{ℕ_discrete}
use knail.Prelude.{
  ℕ, zero, suc, ◌+◌, ◌-◌, ◌*◌, ◌/◌, ◌%◌, ◌^◌, ◌<◌, ◌≤◌, ◌≡◌, refl, ap, ◌∙◌, true, false, not, ◌&&◌,
  ◌||◌, arith, ltb, ◌==◌, length, if◌then◌else◌, Bool-cases, inl, inr,
}
use knail.Pmm.{
  Pmm, page_size, max_frames, is_used, set_used, set_free, take_frame, alloc_from, alloc_frame,
  free_frame, stats, drop_frame,
}
use knail.Pmm.Bits.{is_used-set_used, is_used-set_free, set_used-Bytes, length-set_used}
use knail.Pmm.Invariant.{
  IsValid, take_frame-IsValid, count_used-le, Freed, free_frame-Freed, ignored, dropped,
}

-- The frames from 1 on and below `f` are used.
abbrev pub UsedBelow : Pmm → ℕ → Type 0
UsedBelow p f = (g : ℕ) → 0 < g → g < f → is_used p.bitmap g ≡ true

-- The outcome of the search, by the statements of its last round.
data Searched (p : Pmm) : Pmm × ℕ → Type 0 where
  full : UsedBelow p p.total_frames → Searched p (p, 0)
  frame :
      (f : ℕ)
      → 0 < f
      → f < p.total_frames
      → is_used p.bitmap f ≡ false
      → UsedBelow p f
      → Searched p (take_frame p f, f * page_size)

extend : (p : Pmm) (f : ℕ) → UsedBelow p f → is_used p.bitmap f ≡ true → UsedBelow p (f + 1)
extend p f below used g pos lt = elim (ℕ_discrete g f) [
  | yes e ↦ ap (is_used p.bitmap) e ∙ used
  | no ne ↦ below g pos (omega arith)
]

alloc_from-Searched :
    (n f : ℕ) (p : Pmm)
    → p.total_frames ≤ max_frames
    → 0 < f
    → f + n ≡ p.total_frames
    → UsedBelow p f
    → Searched p (alloc_from n f p)
unfolding alloc_from
alloc_from-Searched zero f p small pos e below = full (λ g gpos lt. below g gpos (omega arith))
alloc_from-Searched (suc n) f p small pos e below = elim (Bool-cases (is_used p.bitmap f)) [
  | inl used ↦
      rw used
        (alloc_from-Searched n (f + 1) p small (omega arith) (omega arith) (extend p f below used))
  | inr unused ↦
      let exact : f * page_size % 2 ^ 64 ≡ f * page_size = omega arith in
      rw (unused, exact) (frame f pos (omega arith) unused below)
]

alloc_frame_search :
    (p : Pmm) → 0 < p.total_frames → p.total_frames ≤ max_frames → Searched p (alloc_frame p)
unfolding alloc_frame
alloc_frame_search p some_frame small =
    alloc_from-Searched (p.total_frames - 1) 1 p small (omega arith) (omega arith)
      (λ g pos lt. absurd (omega arith))

-- The state with one more frame used, the frame `f`, and counted.
pub record Marked (p : Pmm) (f : ℕ) (p' : Pmm) : Type 0 where
  pub marks : (g : ℕ) → is_used p'.bitmap g ≡ ((f == g) || is_used p.bitmap g)
  pub total : p'.total_frames ≡ p.total_frames
  pub used : p'.used_frames ≡ p.used_frames + 1

-- What a call of `alloc_frame` may do: fail with the state as it was, because every managed frame
-- is used; or hand out the address of the lowest free one and mark that.
pub data Allocated (p : Pmm) : Pmm × ℕ → Type 0 where
  none_free : UsedBelow p p.total_frames → Allocated p (p, 0)
  lowest :
      (f : ℕ)
      → 0 < f
      → f < p.total_frames
      → is_used p.bitmap f ≡ false
      → UsedBelow p f
      → (p' : Pmm) → Marked p f p'
      → Allocated p (p', f * page_size)

take_frame-Marked : {p : Pmm} (f : ℕ) → IsValid p → f < p.total_frames → Marked p f (take_frame p f)
take_frame-Marked {p} f v lt = record {
  marks = λ g. is_used-set_used p.bitmap f g v.bytes (omega (arith, v.fits));
  total = refl;
  used = omega (arith, count_used-le p.bitmap p.total_frames, v.counted, v.small);
}

-- In a valid state with at least one frame, `alloc_frame` returns 0 and changes nothing exactly
-- where no managed frame is free; otherwise it returns the address of the lowest free frame, never
-- that of frame 0, which is used behind the call and counted, while every other frame is as it was.
pub alloc_frame-Allocated : (p : Pmm) → 0 < p.total_frames → IsValid p → Allocated p (alloc_frame p)
alloc_frame-Allocated p some_frame v = go (alloc_frame_search p some_frame v.small)
  where
    go : {r : Pmm × ℕ} → Searched p r → Allocated p r
    go (full all) = none_free all
    go (frame f pos lt unused below) =
        lowest f pos lt unused below (take_frame p f) (take_frame-Marked f v lt)

Searched-IsValid : {p : Pmm} {r : Pmm × ℕ} → IsValid p → Searched p r → IsValid r.0
Searched-IsValid v (full all) = v
Searched-IsValid v (frame f pos lt unused below) = take_frame-IsValid f v lt unused

pub alloc_frame-IsValid : {p : Pmm} → 0 < p.total_frames → IsValid p → IsValid (alloc_frame p).0
alloc_frame-IsValid {p} some_frame v = Searched-IsValid v (alloc_frame_search p some_frame v.small)

-- Two states with the same marks and the same counters.
pub record Alike (p q : Pmm) : Type 0 where
  pub marks : (g : ℕ) → is_used p.bitmap g ≡ is_used q.bitmap g
  pub total : p.total_frames ≡ q.total_frames
  pub used : p.used_frames ≡ q.used_frames

drop-take :
    {p : Pmm} (f : ℕ)
    → IsValid p
    → f < p.total_frames
    → is_used p.bitmap f ≡ false
    → Alike (drop_frame (take_frame p f) f) p
drop-take {p} f v lt unused =
    let room : f / 8 < length p.bitmap = omega (arith, v.fits) in
    let room' : f / 8 < length (set_used p.bitmap f) = omega (arith, length-set_used p.bitmap f) in
    record {
      marks = λ g. marks g room room' (
          is_used-set_free (set_used p.bitmap f) f g (set_used-Bytes p.bitmap f v.bytes room)
            room');
      total = refl;
      used = ground (arith, count_used-le p.bitmap p.total_frames, v.counted, v.small);
    }
  where
    marks :
        (g : ℕ)
        → f / 8 < length p.bitmap
        → f / 8 < length (set_used p.bitmap f)
        → is_used (set_free (set_used p.bitmap f) f) g
          ≡ (not (f == g) && is_used (set_used p.bitmap f) g)
        → is_used (set_free (set_used p.bitmap f) f) g ≡ is_used p.bitmap g
    marks g room room' e = elim (ℕ_discrete f g) [
      | yes same ↦
          ground (arith, is_used-set_used p.bitmap f g v.bytes room, ap (is_used p.bitmap) same)
      | no ne ↦ ground (arith, is_used-set_used p.bitmap f g v.bytes room)
    ]

-- In a valid state with at least one frame, freeing what was just allocated gives back the marks
-- of every frame and the counters; where the allocation failed, freeing its 0 changes nothing.
pub free_frame-alloc_frame :
    (p : Pmm)
    → 0 < p.total_frames
    → IsValid p
    → Alike (free_frame (alloc_frame p).0 (alloc_frame p).1) p
free_frame-alloc_frame p some_frame v = go (alloc_frame_search p some_frame v.small)
  where
    freed_taken :
        (f : ℕ) {q : Pmm}
        → 0 < f
        → f < p.total_frames
        → is_used p.bitmap f ≡ false
        → Freed (take_frame p f) (f * page_size) q
        → Alike q p
    freed_taken f pos lt unused (ignored why) =
        let exact : f * page_size / page_size ≡ f = omega arith in
        let room : f / 8 < length p.bitmap = omega (arith, v.fits) in
        let why' = rw exact at why in
        absurd (ground (arith, is_used-set_used p.bitmap f f v.bytes room))
    freed_taken f pos lt unused (dropped dpos dlt dused) =
        let exact : f * page_size / page_size ≡ f = omega arith in
        rw exact (drop-take f v lt unused)

    freed_none : {q : Pmm} → Freed p 0 q → Alike q p
    freed_none (ignored why) = record { marks = λ g. refl; total = refl; used = refl }
    freed_none (dropped dpos dlt dused) = absurd (omega arith)

    go : {r : Pmm × ℕ} → Searched p r → Alike (free_frame r.0 r.1) p
    go (full all) = freed_none (free_frame-Freed p 0)
    go (frame f pos lt unused below) =
        freed_taken f pos lt unused (free_frame-Freed (take_frame p f) (f * page_size))

-- The status of a frame after `free_frame` in a valid state: the frame of the address is free, if
-- it is a managed one other than 0, and every other frame is as it was.
is_used-free_frame :
    (p : Pmm) (phys g : ℕ)
    → IsValid p
    → is_used (free_frame p phys).bitmap g ≡ (
        if (phys / page_size == g) && (ltb 0 g && ltb g p.total_frames)
        then false
        else is_used p.bitmap g)
is_used-free_frame p phys g v = go (free_frame-Freed p phys)
  where
    Status : Pmm → Type 0
    Status q = is_used q.bitmap g ≡ (
        if (phys / page_size == g) && (ltb 0 g && ltb g p.total_frames)
        then false
        else is_used p.bitmap g)

    go : {q : Pmm} → Freed p phys q → Status q
    go (ignored why) = elim (ℕ_discrete (phys / page_size) g) [
      | yes e ↦ ground (arith, ap (is_used p.bitmap) e)
      | no ne ↦ ground arith
    ]
    go (dropped pos lt used) =
        ground
          (arith, is_used-set_free p.bitmap (phys / page_size) g v.bytes (omega (arith, v.fits)))

-- What `stats` reports of a valid state does not wrap: free and used frames make up the total, and
-- the bytes are those of so many pages.
stats_lem :
    (p : Pmm)
    → IsValid p
    → ((stats p).used_frames + (stats p).free_frames ≡ p.total_frames)
      × ((stats p).total_bytes ≡ p.total_frames * page_size)
      × ((stats p).usable_bytes + p.used_frames * page_size ≡ (stats p).total_bytes)
unfolding stats
stats_lem p v = omega (arith, count_used-le p.bitmap p.total_frames, v.counted, v.small)
