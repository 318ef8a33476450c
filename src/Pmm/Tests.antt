-- ===== src/Pmm/Tests.antt =====
-- Runs of the frame allocator on small bitmaps.
use knail.Prelude.{
  ℕ, List, ◌++◌, get_or, ◌⊎◌, inl, inr, ◌/◌, ◌%◌, ◌<◌, ◌≤◌, ◌+◌, ◌*◌, ◌^◌, ◌≡◌, refl, [], ◌∷◌, some,
  arith,
}
use knail.Pmm.{Pmm, is_used, set_used, alloc_from, alloc_frame, free_frame, byte_test, byte_set}
use knail.Pmm.Init.{read_le, init}
use knail.Pmm.Start.{Reserved}
use knail.Pmm.Ends.{TagAt, at_first, behind, Readable, init-Reserved}
use knail.Pmm.Invariant.{IsValid}
use knail.Pmm.Alloc.{Allocated, Alike, alloc_frame-Allocated, free_frame-alloc_frame}

-- Ten frames, of which 0, 1, 2 and 4 are used.
abbrev few : Pmm
few = record { bitmap = 0x17 ∷ 0xfc ∷ []; total_frames = 10; used_frames = 4 }

few-IsValid : IsValid few
unfolding is_used byte_test
few-IsValid = record {
  bytes = omega arith;
  fits = omega arith;
  small = omega arith;
  counted = refl;
}

few_alloc :
    alloc_frame few
    ≡ (record { bitmap = 0x1f ∷ 0xfc ∷ []; total_frames = 10; used_frames = 5 }, 3 * 4096)
unfolding alloc_frame alloc_from is_used byte_test set_used byte_set
few_alloc = refl

alloc_frame-Allocated_example : Allocated few (alloc_frame few)
alloc_frame-Allocated_example = alloc_frame-Allocated few (omega arith) few-IsValid

free_frame-alloc_frame_example : Alike (free_frame (alloc_frame few).0 (alloc_frame few).1) few
free_frame-alloc_frame_example = free_frame-alloc_frame few (omega arith) few-IsValid

-- What a boot loader leaves: the size of 56 bytes, a memory map with one entry, of 16 MiB from 0 on,
-- and the end tag.
abbrev small_map : List ℕ
small_map =
    (56 ∷ 0 ∷ 0 ∷ 0 ∷ 0 ∷ 0 ∷ 0 ∷ 0 ∷ [])
    ++ (6 ∷ 0 ∷ 0 ∷ 0 ∷ 40 ∷ 0 ∷ 0 ∷ 0 ∷ 24 ∷ 0 ∷ 0 ∷ 0 ∷ 0 ∷ 0 ∷ 0 ∷ 0 ∷ [])
    ++ (0 ∷ 0 ∷ 0 ∷ 0 ∷ 0 ∷ 0 ∷ 0 ∷ 0 ∷ 0 ∷ 0 ∷ 0 ∷ 1 ∷ 0 ∷ 0 ∷ 0 ∷ 0 ∷ [])
    ++ (1 ∷ 0 ∷ 0 ∷ 0 ∷ 0 ∷ 0 ∷ 0 ∷ 0 ∷ [])
    ++ (0 ∷ 0 ∷ 0 ∷ 0 ∷ 8 ∷ 0 ∷ 0 ∷ 0 ∷ [])

abbrev small_mem : ℕ → ℕ
small_mem at = get_or small_map at 0

small_map-places : {at : ℕ} → TagAt small_mem 8 56 at → (at ≡ 8) ⊎ (at ≡ 48)
unfolding read_le
small_map-places at_first = inl refl
small_map-places (behind at place lt tag) = go (small_map-places place)
  where
    go :
        (at ≡ 8) ⊎ (at ≡ 48)
        → (at + (read_le 4 small_mem (at + 4) + 7) % 2 ^ 32 / 8 * 8 ≡ 8)
          ⊎ (at + (read_le 4 small_mem (at + 4) + 7) % 2 ^ 32 / 8 * 8 ≡ 48)
    go (inl e) = inr (rw e refl)
    go (inr e) = absurd (tag (rw e refl))

small_map-Readable : Readable small_mem 8 56
unfolding read_le
small_map-Readable = record {
  tag_fits = λ at place lt. fits (small_map-places place);
  entry_some = λ at place lt map_tag. some_size (small_map-places place) map_tag;
}
  where
    fits : {at : ℕ} → (at ≡ 8) ⊎ (at ≡ 48) → read_le 4 small_mem (at + 4) + 8 ≤ 2 ^ 32
    fits (inl e) = rw e (omega arith)
    fits (inr e) = rw e (omega arith)

    some_size :
        {at : ℕ}
        → (at ≡ 8) ⊎ (at ≡ 48)
        → read_le 4 small_mem at ≡ 6
        → 0 < read_le 4 small_mem (at + 8)
    some_size (inl e) map_tag = rw e (omega arith)
    some_size (inr e) map_tag = absurd (let wrong : 0 ≡ 6 = rw e at map_tag in omega arith)

init-Reserved_example :
    (p' : Pmm) × (init
        (2 ^ 33)
        small_mem
        0
        0x200000
        (record { bitmap = []; total_frames = 0; used_frames = 0 })
      ≡ some p')
    × Reserved 512 p'
unfolding read_le
init-Reserved_example =
    init-Reserved (2 ^ 33) small_mem 0 0x200000
      (record { bitmap = []; total_frames = 0; used_frames = 0 }) small_map-Readable (omega arith)
      (omega arith) refl refl
