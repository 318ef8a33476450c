-- ===== src/Pmm/Ends.antt =====
-- arch/x86_64/pmm.cpp: `init` comes to an end on a readable memory map.
use knail.Prelude.{
  ℕ, zero, suc, ◌+◌, ◌-◌, ◌*◌, ◌/◌, ◌%◌, ◌^◌, ◌<◌, ◌≤◌, ◌≡◌, ◌≢◌, refl, ap, sym, ◌∙◌, true, ◌||◌,
  List, some, arith, ltb, leb, ◌==◌, get_or, replicate, length-replicate, All-get_or, Bool-cases,
  inl, inr, every_below, every_below-at, leb→le, ltb→lt, subst,
}
use knail.Pmm.{Pmm, page_size, max_frames, is_used, byte_test}
use knail.Pmm.Invariant.{count_used}
use knail.Pmm.Init.{
  bitmap_bytes, read_le, Walk, entry_step, entries, tag_step, tags, settle, settle_some, init,
}
use knail.Pmm.Start.{Sized, Walked, walked, tags-Walked, All-replicate, Reserved, settle-Reserved}

-- The places of the tags: the first, and behind each that is no end tag and has a size, the next,
-- at a multiple of 8 bytes.
pub data TagAt (mem : ℕ → ℕ) (first tend : ℕ) : ℕ → Type 0 where
  at_first : TagAt mem first tend first
  behind :
      (at : ℕ)
      → TagAt mem first tend at
      → at < tend
      → read_le 4 mem at ≢ 0
      → TagAt mem first tend (at + (read_le 4 mem (at + 4) + 7) % 2 ^ 32 / 8 * 8)

-- What multiboot2 says of the tags from `first` on and below `tend`: no tag's size is within 8 of
-- 2^32, and in a memory map, a tag of type 6, the size of an entry is not 0.
pub record Readable (mem : ℕ → ℕ) (first tend : ℕ) : Type 0 where
  pub tag_fits :
      (at : ℕ) → TagAt mem first tend at → at < tend → read_le 4 mem (at + 4) + 8 ≤ 2 ^ 32
  pub entry_some :
      (at : ℕ)
      → TagAt mem first tend at
      → at < tend
      → read_le 4 mem at ≡ 6
      → 0 < read_le 4 mem (at + 8)

entries-ends :
    (fuel : ℕ) (mem : ℕ → ℕ) (entry_size ep ee : ℕ) (w : Walk)
    → 0 < entry_size
    → ee - ep < fuel
    → (v : Walk) × (entries fuel mem entry_size ep ee w ≡ some v)
unfolding entries
entries-ends zero mem entry_size ep ee w pos lt = absurd (omega arith)
entries-ends (suc fuel) mem entry_size ep ee w pos lt = elim (Bool-cases (leb (ep + 24) ee)) [
  | inl more ↦
      let (v, e) =
        entries-ends fuel mem entry_size (ep + entry_size) ee
          (entry_step (read_le 8 mem ep) (read_le 8 mem (ep + 8)) (read_le 4 mem (ep + 16)) w) pos
          (omega (arith, leb→le (ep + 24) ee more)) in
      (v, rw more e)
  | inr done ↦ (w, rw done refl)
]

tag_step-ends :
    (fuel : ℕ) (mem : ℕ → ℕ) (first tend tptr : ℕ) (w : Walk)
    → Readable mem first tend
    → TagAt mem first tend tptr
    → tptr < tend
    → 2 ^ 32 ≤ fuel
    → (v : Walk) × (tag_step fuel mem tptr w ≡ some v)
unfolding tag_step
tag_step-ends fuel mem first tend tptr w r tag lt enough =
    elim (Bool-cases (read_le 4 mem tptr == 6)) [
      | inl map_tag ↦
          let (v, e) =
            entries-ends fuel mem (read_le 4 mem (tptr + 8)) (tptr + 16)
              (tptr + read_le 4 mem (tptr + 4)) w (r.entry_some tptr tag lt (ground arith))
              (omega (arith, r.tag_fits tptr tag lt)) in
          (v, rw map_tag e)
      | inr other ↦ (w, rw other refl)
    ]

tags-ends :
    (fuel : ℕ) (mem : ℕ → ℕ) (first tend tptr : ℕ) (w : Walk)
    → Readable mem first tend
    → TagAt mem first tend tptr
    → tend - tptr + 2 ^ 32 < fuel
    → (v : Walk) × (tags fuel mem tptr tend w ≡ some v)
unfolding tags
tags-ends zero mem first tend tptr w r place lt = absurd (omega arith)
tags-ends (suc fuel) mem first tend tptr w r place lt = elim (Bool-cases (ltb tptr tend)) [
  | inr done ↦ (w, rw done refl)
  | inl more ↦ elim (Bool-cases ((read_le 4 mem tptr == 0) || (read_le 4 mem (tptr + 4) == 0))) [
    | inl last ↦ (w, rw (more, last) refl)
    | inr tag ↦
        let here : tptr < tend = ltb→lt tptr tend more in
        let sized : 0 < read_le 4 mem (tptr + 4) = ground (arith, tag) in
        let (v, e) = tag_step-ends fuel mem first tend tptr w r place here (omega arith) in
        let (u, d) =
          tags-ends fuel mem first tend (tptr + (read_le 4 mem (tptr + 4) + 7) % 2 ^ 32 / 8 * 8) v r
            (behind tptr place here (ground (arith, tag)))
            (omega (arith, r.tag_fits tptr place here)) in
        (u, rw (more, tag, e) d)
  ]
]

full : List ℕ
full = replicate bitmap_bytes 0xFF

full-Sized : Sized full
unfolding full
full-Sized = record {
  bytes = All-replicate (λ b. b < 256) bitmap_bytes 0xFF (omega arith);
  sized = length-replicate {A = ℕ} bitmap_bytes 0xFF;
}

all_bits : every_below 8 (byte_test 0xFF) ≡ true
unfolding every_below byte_test
all_bits = refl

is_used-full : (f : ℕ) → f < max_frames → is_used full f ≡ true
unfolding is_used full
is_used-full f lt =
    let byte : get_or full (f / 8) 0 ≡ 0xFF =
      All-get_or (λ b. b ≡ 0xFF) full (f / 8) 0
        (All-replicate (λ b. b ≡ 0xFF) bitmap_bytes 0xFF refl)
        (omega (arith, length-replicate {A = ℕ} bitmap_bytes 0xFF)) in
    rw byte (every_below-at (byte_test 0xFF) 8 (f % 8) (omega arith) all_bits)

Walked-Sized : {v : Walk} → Walked (some v) → Sized v.bitmap
Walked-Sized (walked w h) = h

-- On a map that is readable, with rounds enough, and for a kernel that ends below 4 GiB, `init` ends.
-- The bitmap and the counter agree behind it, and every frame up to the kernel's end is used, also
-- where `init` gives up on the map; before the call the two counters are 0.
pub init-Reserved :
    (fuel : ℕ) (mem : ℕ → ℕ) (mb2_info_phys kernel_end : ℕ) (p : Pmm)
    → Readable mem
        (mb2_info_phys % 2 ^ 32 + 8)
        (mb2_info_phys % 2 ^ 32 + read_le 4 mem (mb2_info_phys % 2 ^ 32))
    → 65536 + 2 ^ 32 < fuel
    → kernel_end ≤ 2 ^ 32 - page_size
    → p.total_frames ≡ 0
    → p.used_frames ≡ 0
    → (p' : Pmm) × (init fuel mem mb2_info_phys kernel_end p ≡ some p')
      × Reserved ((kernel_end + (page_size - 1)) / page_size) p'
unfolding init settle_some full
init-Reserved fuel mem mb2_info_phys kernel_end p r enough le t0 u0 =
    let addr : ℕ = mb2_info_phys % 2 ^ 32 in
    let size : ℕ = read_le 4 mem addr in
    let n : ℕ = (kernel_end + (page_size - 1)) / page_size in
    let aligned : ℕ = (kernel_end + (page_size - 1)) % 2 ^ 64 / page_size * page_size in
    elim (Bool-cases ((size == 0) || ltb 65536 size)) [
      | inl unusable ↦ (
        record p { bitmap = full },
        rw unusable refl,
        record {
          valid = record {
            bytes = full-Sized.bytes;
            fits = omega arith;
            small = omega arith;
            counted = u0 ∙ sym (ap (count_used full) t0);
          };
          kernel_used = λ f lt. is_used-full f (omega arith);
        },
      )
      | inr usable ↦
          let w0 : Walk = record { bitmap = full; top_addr = 0 } in
          let (v, e) =
            tags-ends fuel mem (addr + 8) (addr + size) (addr + 8) w0 r at_first
              (ground (arith, usable)) in
          let kept : Sized v.bitmap =
            Walked-Sized
              (subst Walked e (tags-Walked fuel mem (addr + 8) (addr + size) w0 full-Sized)) in
          let pages : aligned / page_size ≡ n = omega arith in
          (
            settle aligned v,
            rw (usable, e) refl,
            subst (λ i. Reserved i (settle aligned v)) pages
                (settle-Reserved aligned v (omega arith) kept),
          )
    ]
