-- ===== src/Pmm/Invariant.antt =====
-- arch/x86_64/pmm.cpp: what the allocator keeps true, `used_frames` counting the marked frames.
use native.Mathlib.Decide.{ℕ_discrete}
use knail.Prelude.{
  ℕ, zero, suc, ◌+◌, ◌*◌, ◌/◌, ◌<◌, ◌≤◌, ◌≡◌, ◌⊎◌, ap, true, false, List, arith, ltb, leb, ◌==◌,
  length, if◌then◌else◌, Bool-cases, inl, inr,
}
use knail.Pmm.{
  Pmm, page_size, max_frames, set_used, set_free, is_used, take_frame, drop_frame, free_frame,
}
use knail.Pmm.Bits.{
  Bytes, is_used-set_used, is_used-set_free, set_used-Bytes, set_free-Bytes, length-set_used,
  length-set_free,
}

-- The number of used frames below `n`.
abbrev pub count_used : List ℕ → ℕ → ℕ
count_used bitmap zero = 0
count_used bitmap (suc n) = (if is_used bitmap n then 1 else 0) + count_used bitmap n

pub record IsValid (p : Pmm) : Type 0 where
  pub bytes : Bytes p.bitmap
  pub fits : p.total_frames ≤ 8 * length p.bitmap
  pub small : p.total_frames ≤ max_frames
  pub counted : p.used_frames ≡ count_used p.bitmap p.total_frames

pub count_used-le : (bitmap : List ℕ) (n : ℕ) → count_used bitmap n ≤ n
count_used-le bitmap zero = omega arith
count_used-le bitmap (suc n) = ground (arith, count_used-le bitmap n)

-- A change of status at one frame moves the count by one.
module _ (bitmap : List ℕ) (f : ℕ) (bytes : Bytes bitmap) (room : f / 8 < length bitmap) where
  count_used-set_used :
      (n : ℕ)
      → is_used bitmap f ≡ false
      → count_used (set_used bitmap f) n ≡ count_used bitmap n + (if ltb f n then 1 else 0)
  count_used-set_used zero h = ground arith
  count_used-set_used (suc n) h = elim (ℕ_discrete f n) [
    | yes e ↦ ground (
      arith,
      is_used-set_used bitmap f n bytes room,
      count_used-set_used n h,
      ap (is_used bitmap) e,
    )
    | no ne ↦ ground (arith, is_used-set_used bitmap f n bytes room, count_used-set_used n h)
  ]

  count_used-set_free :
      (n : ℕ)
      → is_used bitmap f ≡ true
      → count_used bitmap n ≡ count_used (set_free bitmap f) n + (if ltb f n then 1 else 0)
  count_used-set_free zero h = ground arith
  count_used-set_free (suc n) h = elim (ℕ_discrete f n) [
    | yes e ↦ ground (
      arith,
      is_used-set_free bitmap f n bytes room,
      count_used-set_free n h,
      ap (is_used bitmap) e,
    )
    | no ne ↦ ground (arith, is_used-set_free bitmap f n bytes room, count_used-set_free n h)
  ]

pub take_frame-IsValid :
    {p : Pmm} (f : ℕ)
    → IsValid p
    → f < p.total_frames
    → is_used p.bitmap f ≡ false
    → IsValid (take_frame p f)
take_frame-IsValid {p} f v lt free =
    let room : f / 8 < length p.bitmap = omega arith in
    record {
      bytes = set_used-Bytes p.bitmap f v.bytes room;
      fits = omega (arith, length-set_used p.bitmap f);
      small = v.small;
      counted = ground (
        arith,
        count_used-set_used p.bitmap f v.bytes room p.total_frames free,
        count_used-le p.bitmap p.total_frames,
      );
    }

drop_frame-IsValid :
    {p : Pmm} (f : ℕ)
    → IsValid p
    → f < p.total_frames
    → is_used p.bitmap f ≡ true
    → IsValid (drop_frame p f)
drop_frame-IsValid {p} f v lt used =
    let room : f / 8 < length p.bitmap = omega arith in
    record {
      bytes = set_free-Bytes p.bitmap f v.bytes room;
      fits = omega (arith, length-set_free p.bitmap f);
      small = v.small;
      counted = ground (
        arith,
        count_used-set_free p.bitmap f v.bytes room p.total_frames used,
        count_used-le p.bitmap p.total_frames,
      );
    }

-- `free_frame` either does nothing, or drops a used frame of the managed range.
pub data Freed (p : Pmm) (phys : ℕ) : Pmm → Type 0 where
  ignored :
      (phys / page_size ≡ 0)
        ⊎ ((p.total_frames ≤ phys / page_size) ⊎ (is_used p.bitmap (phys / page_size) ≡ false))
      → Freed p phys p
  dropped :
      0 < phys / page_size
      → phys / page_size < p.total_frames
      → is_used p.bitmap (phys / page_size) ≡ true
      → Freed p phys (drop_frame p (phys / page_size))

pub free_frame-Freed : (p : Pmm) (phys : ℕ) → Freed p phys (free_frame p phys)
unfolding free_frame
free_frame-Freed p phys = elim (Bool-cases (phys / page_size == 0)) [
  | inl z ↦ rw z (ignored (ground arith))
  | inr nz ↦ elim (Bool-cases (leb p.total_frames (phys / page_size))) [
    | inl big ↦ rw (nz, big) (ignored (ground arith))
    | inr small ↦ elim (Bool-cases (is_used p.bitmap (phys / page_size))) [
      | inl used ↦ rw (nz, small, used) (dropped (ground arith) (ground arith) used)
      | inr unused ↦ rw (nz, small, unused) (ignored (inr (inr unused)))
    ]
  ]
]

Freed-IsValid : {p : Pmm} (phys : ℕ) {q : Pmm} → IsValid p → Freed p phys q → IsValid q
Freed-IsValid phys v (ignored why) = v
Freed-IsValid phys v (dropped pos lt used) = drop_frame-IsValid (phys / page_size) v lt used

-- In a valid state, freeing any address whatever, a second time too, keeps the bitmap and the
-- counter in step.
free_frame-IsValid : {p : Pmm} (phys : ℕ) → IsValid p → IsValid (free_frame p phys)
free_frame-IsValid {p} phys v = Freed-IsValid phys v (free_frame-Freed p phys)
