-- ===== src/Pmm/Start.antt =====
-- arch/x86_64/pmm.cpp: what holds behind `init`, whatever the memory map says.
use knail.Prelude.{
  ℕ, zero, suc, ◌+◌, ◌-◌, ◌*◌, ◌/◌, ◌%◌, ◌^◌, ◌<◌, ◌≤◌, ◌≡◌, ap, ◌∙◌, true, ◌&&◌, ◌||◌, List,
  Option, none, some, arith, ltb, leb, ◌==◌, if◌then◌else◌, length, replicate, All, Bool-cases, inl,
  inr,
}
use knail.Pmm.{Pmm, page_size, max_frames, set_used, set_free, is_used}
use knail.Pmm.Bits.{
  Bytes, is_used-set_used, set_used-Bytes, set_free-Bytes, length-set_used, length-set_free,
}
use knail.Pmm.Invariant.{IsValid, count_used}
use knail.Pmm.Init.{
  bitmap_bytes, read_le, Walk, free_run, reserve_run, entry_step, entries, tag_step, tags, tally,
  managed, settle,
}

-- A bitmap of bytes, of the size of the array.
pub record Sized (bitmap : List ℕ) : Type 0 where
  pub bytes : Bytes bitmap
  pub sized : length bitmap ≡ bitmap_bytes

free_run-Sized :
    (n f : ℕ) (bitmap : List ℕ) → n ≤ max_frames - f → Sized bitmap → Sized (free_run n f bitmap)
unfolding free_run
free_run-Sized zero f bitmap le h = h
free_run-Sized (suc n) f bitmap le h =
    free_run-Sized n (f + 1) (set_free bitmap f) (omega arith) (record {
      bytes = set_free-Bytes bitmap f h.bytes (omega (arith, h));
      sized = length-set_free bitmap f ∙ h.sized;
    })

reserve_run-Sized :
    (n f : ℕ) (bitmap : List ℕ) → n ≤ max_frames - f → Sized bitmap → Sized (reserve_run n f bitmap)
unfolding reserve_run
reserve_run-Sized zero f bitmap le h = h
reserve_run-Sized (suc n) f bitmap le h =
    reserve_run-Sized n (f + 1) (set_used bitmap f) (omega arith) (record {
      bytes = set_used-Bytes bitmap f h.bytes (omega (arith, h));
      sized = length-set_used bitmap f ∙ h.sized;
    })

-- A frame is used behind the loop that reserves, if it was before, or if the loop meets it.
reserve_run-is_used :
    (n f g : ℕ) (bitmap : List ℕ)
    → n ≤ max_frames - f
    → Sized bitmap
    → is_used (reserve_run n f bitmap) g ≡ ((leb f g && ltb g (f + n)) || is_used bitmap g)
unfolding reserve_run
reserve_run-is_used zero f g bitmap le h = ground arith
reserve_run-is_used (suc n) f g bitmap le h = ground (
  arith,
  reserve_run-is_used n (f + 1) g (set_used bitmap f) (omega arith) (record {
    bytes = set_used-Bytes bitmap f h.bytes (omega (arith, h));
    sized = length-set_used bitmap f ∙ h.sized;
  }),
  is_used-set_used bitmap f g h.bytes (omega (arith, h)),
)

-- The ascending tally is the count.
tally_lem :
    (n f : ℕ) (bitmap : List ℕ) → tally n f bitmap (count_used bitmap f) ≡ count_used bitmap (f + n)
unfolding tally
tally_lem zero f bitmap = ap (count_used bitmap) (omega arith)
tally_lem (suc n) f bitmap =
    let next : (if is_used bitmap f then count_used bitmap f + 1 else count_used bitmap f)
        ≡ count_used bitmap (suc f) =
      ground arith in
    let index : suc f ≡ f + 1 = omega arith in
    ap (tally n (f + 1) bitmap) (next ∙ ap (count_used bitmap) index)
    ∙ tally_lem n (f + 1) bitmap
    ∙ ap (count_used bitmap) (omega arith)

entry_step-Sized :
    (base length type : ℕ) (w : Walk)
    → Sized w.bitmap
    → Sized (entry_step base length type w).bitmap
unfolding entry_step
entry_step-Sized base length type w h = elim (Bool-cases (type == 1)) [
  | inl usable ↦ rw usable (free_run-Sized _ _ w.bitmap (ground arith) h)
  | inr other ↦ rw other h
]

-- A walk runs out of rounds or keeps the bitmap's size.
pub data Walked : Option Walk → Type 0 where
  out_of_rounds : Walked none
  walked : (w : Walk) → Sized w.bitmap → Walked (some w)

entries-Walked :
    (fuel : ℕ) (mem : ℕ → ℕ) (entry_size ep ee : ℕ) (w : Walk)
    → Sized w.bitmap
    → Walked (entries fuel mem entry_size ep ee w)
unfolding entries
entries-Walked zero mem entry_size ep ee w h = out_of_rounds
entries-Walked (suc fuel) mem entry_size ep ee w h =
    let rest =
      entries-Walked fuel mem entry_size (ep + entry_size) ee
        (entry_step (read_le 8 mem ep) (read_le 8 mem (ep + 8)) (read_le 4 mem (ep + 16)) w)
        (entry_step-Sized (read_le 8 mem ep) (read_le 8 mem (ep + 8)) (read_le 4 mem (ep + 16)) w
          h) in
    elim (Bool-cases (leb (ep + 24) ee)) [
      | inl more ↦ rw more rest
      | inr done ↦ rw done (walked w h)
    ]

tag_step-Walked :
    (fuel : ℕ) (mem : ℕ → ℕ) (tptr : ℕ) (w : Walk)
    → Sized w.bitmap
    → Walked (tag_step fuel mem tptr w)
unfolding tag_step
tag_step-Walked fuel mem tptr w h = elim (Bool-cases (read_le 4 mem tptr == 6)) [
  | inl map_tag ↦ rw map_tag (
      entries-Walked fuel mem (read_le 4 mem (tptr + 8)) (tptr + 16)
        (tptr + read_le 4 mem (tptr + 4)) w h)
  | inr other ↦ rw other (walked w h)
]

pub tags-Walked :
    (fuel : ℕ) (mem : ℕ → ℕ) (tptr tend : ℕ) (w : Walk)
    → Sized w.bitmap
    → Walked (tags fuel mem tptr tend w)
unfolding tags
tags-Walked zero mem tptr tend w h = out_of_rounds
tags-Walked (suc fuel) mem tptr tend w h = elim (Bool-cases (ltb tptr tend)) [
  | inr done ↦ rw done (walked w h)
  | inl more ↦ elim (Bool-cases ((read_le 4 mem tptr == 0) || (read_le 4 mem (tptr + 4) == 0))) [
    | inl last ↦ rw (more, last) (walked w h)
    | inr tag ↦
        rw (more, tag)
          (go
            (λ (v : Walk) (k : Sized v.bitmap).
              tags-Walked fuel mem (tptr + (read_le 4 mem (tptr + 4) + 7) % 2 ^ 32 / 8 * 8) tend v
                k)
            (tag_step fuel mem tptr w) (tag_step-Walked fuel mem tptr w h))
  ]
]
  where
    go :
        ((v : Walk)
          → Sized v.bitmap
          → Walked (tags fuel mem (tptr + (read_le 4 mem (tptr + 4) + 7) % 2 ^ 32 / 8 * 8) tend v))
        → (o : Option Walk) → Walked o
        → Walked (elim o [
          | none ↦ none
          | some v ↦ tags fuel mem (tptr + (read_le 4 mem (tptr + 4) + 7) % 2 ^ 32 / 8 * 8) tend v
        ])
    go later none h = out_of_rounds
    go later (some v) (walked same_walk k) = later v k

pub All-replicate : {A : Type 0} (P : A → Type 0) (n : ℕ) (a : A) → P a → All P (replicate n a)
All-replicate P zero a p = tt
All-replicate P (suc n) a p = (p, All-replicate P n a p)

-- The frames below `n` are used, and the counter agrees with the bitmap.
pub record Reserved (n : ℕ) (p : Pmm) : Type 0 where
  pub valid : IsValid p
  pub kernel_used : (f : ℕ) → f < n → is_used p.bitmap f ≡ true

pub settle-Reserved :
    (kernel_end : ℕ) (w : Walk)
    → kernel_end ≤ max_frames * page_size
    → Sized w.bitmap
    → Reserved (kernel_end / page_size) (settle kernel_end w)
unfolding settle managed
settle-Reserved kernel_end w le h =
    let n : ℕ = (kernel_end + (page_size - 1)) % 2 ^ 64 / page_size in
    let sized = reserve_run-Sized n 0 w.bitmap (omega arith) h in
    record {
      valid = record {
        bytes = sized.bytes;
        fits = ground (arith, sized.sized);
        small = ground arith;
        counted =
            tally_lem (managed w.top_addr) 0 (reserve_run n 0 w.bitmap)
            ∙ ap (count_used (reserve_run n 0 w.bitmap)) (omega arith);
      };
      kernel_used = λ f lt. ground (arith, reserve_run-is_used n 0 f w.bitmap (omega arith) h);
    }
