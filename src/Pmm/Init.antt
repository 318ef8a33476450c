-- ===== src/Pmm/Init.antt =====
-- arch/x86_64/pmm.cpp: `init`, which reads the memory map that the boot loader left. `mem` gives
-- the bytes of physical memory. The walks over tags and entries take fuel, one unit a round, and
-- answer `none` without it. A mark past the bitmap, which needs a kernel that ends above 4 GiB, is
-- lost here.
use knail.Prelude.{
  ℕ, zero, suc, ◌+◌, ◌-◌, ◌*◌, ◌/◌, ◌%◌, ◌^◌, ◌||◌, List, Option, none, some, replicate, ltb, leb,
  ◌==◌, if◌then◌else◌,
}
use knail.Pmm.{Pmm, page_size, max_frames, set_used, set_free, is_used}

abbrev pub bitmap_bytes : ℕ
bitmap_bytes = max_frames / 8

abbrev pub identity_map_limit_frames : ℕ
identity_map_limit_frames = 2 ^ 30 / page_size

-- The little-endian number of `n` bytes at an address.
unfoldable pub read_le : ℕ → (ℕ → ℕ) → ℕ → ℕ
read_le zero mem at = 0
read_le (suc n) mem at = mem at + 256 * read_le n mem (at + 1)

-- The bitmap, and `top_addr`.
pub record Walk : Type 0 where
  pub bitmap : List ℕ
  pub top_addr : ℕ

-- The loops that free and that reserve `n` frames from `f` on.
unfoldable pub free_run : ℕ → ℕ → List ℕ → List ℕ
free_run zero f bitmap = bitmap
free_run (suc n) f bitmap = free_run n (f + 1) (set_free bitmap f)

unfoldable pub reserve_run : ℕ → ℕ → List ℕ → List ℕ
reserve_run zero f bitmap = bitmap
reserve_run (suc n) f bitmap = reserve_run n (f + 1) (set_used bitmap f)

-- One entry of the map.
unfoldable pub entry_step : ℕ → ℕ → ℕ → Walk → Walk
entry_step base length type w =
    let end = (base + length) % 2 ^ 64 in
    let fs = (base + (page_size - 1)) % 2 ^ 64 / page_size in
    let fe = (if ltb (end / page_size) max_frames then end / page_size else max_frames) in
    record {
      bitmap = if type == 1 then free_run (fe - fs) fs w.bitmap else w.bitmap;
      top_addr = if ltb w.top_addr end then end else w.top_addr;
    }

unfoldable pub entries : ℕ → (ℕ → ℕ) → ℕ → ℕ → ℕ → Walk → Option Walk
entries zero mem entry_size ep ee w = none
entries (suc fuel) mem entry_size ep ee w =
    let rest =
      entries fuel mem entry_size (ep + entry_size) ee
        (entry_step (read_le 8 mem ep) (read_le 8 mem (ep + 8)) (read_le 4 mem (ep + 16)) w) in
    if leb (ep + 24) ee then rest else some w

-- One tag.
unfoldable pub tag_step : ℕ → (ℕ → ℕ) → ℕ → Walk → Option Walk
tag_step fuel mem tptr w =
    if read_le 4 mem tptr == 6
    then entries fuel mem (read_le 4 mem (tptr + 8)) (tptr + 16) (tptr + read_le 4 mem (tptr + 4)) w
    else some w

unfoldable pub tags : ℕ → (ℕ → ℕ) → ℕ → ℕ → Walk → Option Walk
tags zero mem tptr tend w = none
tags (suc fuel) mem tptr tend w =
    let tag_size = read_le 4 mem (tptr + 4) in
    if ltb tptr tend
    then if (read_le 4 mem tptr == 0) || (tag_size == 0)
      then some w
      else elim (tag_step fuel mem tptr w) [
        | none ↦ none
        | some w' ↦ tags fuel mem (tptr + (tag_size + 7) % 2 ^ 32 / 8 * 8) tend w'
      ]
    else some w

-- The tally of used frames below `n`.
unfoldable pub tally : ℕ → ℕ → List ℕ → ℕ → ℕ
tally zero f bitmap used = used
tally (suc n) f bitmap used = tally n (f + 1) bitmap (if is_used bitmap f then used + 1 else used)

-- `total_frames`, with its two limits.
unfoldable pub managed : ℕ → ℕ
managed top_addr =
    let total = top_addr / page_size in
    let below_max = if ltb max_frames total then max_frames else total in
    if ltb identity_map_limit_frames below_max then identity_map_limit_frames else below_max

-- `init` behind the walk, for the aligned end of the kernel.
unfoldable pub settle : ℕ → Walk → Pmm
settle kernel_end w =
    let total = managed w.top_addr in
    let bitmap = reserve_run ((kernel_end + (page_size - 1)) % 2 ^ 64 / page_size) 0 w.bitmap in
    record { bitmap = bitmap; total_frames = total; used_frames = tally total 0 bitmap 0 }

unfoldable pub settle_some : ℕ → Option Walk → Option Pmm
settle_some kernel_end none = none
settle_some kernel_end (some w) = some (settle kernel_end w)

unfoldable pub init : ℕ → (ℕ → ℕ) → ℕ → ℕ → Pmm → Option Pmm
init fuel mem mb2_info_phys kernel_end p =
    let aligned = (kernel_end + (page_size - 1)) % 2 ^ 64 / page_size * page_size in
    let all_used = replicate bitmap_bytes 0xFF in
    let addr = mb2_info_phys % 2 ^ 32 in
    let size = read_le 4 mem addr in
    if (size == 0) || ltb 65536 size
    then some (record p { bitmap = all_used })
    else settle_some aligned
        (tags fuel mem (addr + 8) (addr + size) (record { bitmap = all_used; top_addr = 0 }))
