-- ===== src/Fat.antt =====
-- fs/fat32.cpp: the file allocation table of a mounted FAT32 volume, on a device that is an
-- interface. Numbers of 32 bits wrap; a mask of the low 28 bits is a remainder.
pub mod ChainReadBack
pub mod ChainSteps
pub mod Chains
pub mod Free
pub mod Names
pub mod ReadBack
pub mod RoundTrip
pub mod Table
mod Tests
use knail.Elf.{little}
use knail.Prelude.{
  ℕ, zero, suc, ◌+◌, ◌-◌, ◌*◌, ◌/◌, ◌%◌, ◌^◌, Bool, true, false, ◌&&◌, Option, none, some, List, [],
  ◌∷◌, ltb, leb, ◌==◌, if◌then◌else◌, get_or, set, replicate,
}

-- `block::BlockDevice`, as the driver uses it: a call for one sector, by its number.
pub record Device : Type 1 where
  pub State : Type 0
  pub read : ℕ → State → Option (List ℕ)
  pub write : ℕ → List ℕ → State → Bool × State

-- `Fat32Mount` without the device.
pub record Fat32Mount : Type 0 where
  pub fat_start : ℕ
  pub data_start : ℕ
  pub sectors_per_cluster : ℕ
  pub root_cluster : ℕ
  pub total_clusters : ℕ
  pub fat_size : ℕ
  pub num_fats : ℕ

-- `n` bytes of a number, written little-endian from `at` on.
unfoldable pub store : ℕ → ℕ → ℕ → List ℕ → List ℕ
store zero at v buf = buf
store (suc n) at v buf = set (store n (at + 1) (v / 256) buf) at (v % 256)

unfoldable pub load : ℕ → ℕ → List ℕ → ℕ
load n at buf = little n (λ i. get_or buf i 0) at

unfoldable pub cluster_to_lba : Fat32Mount → ℕ → ℕ
cluster_to_lba m cluster =
    (m.data_start + (cluster + 2 ^ 32 - 2) % 2 ^ 32 * m.sectors_per_cluster) % 2 ^ 32

unfoldable pub is_eoc : ℕ → Bool
is_eoc val = leb 0x0FFFFFF8 (val % 2 ^ 28)

-- The sector and the byte of an entry of the table.
unfoldable pub fat_sector : Fat32Mount → ℕ → ℕ
fat_sector m cluster = (m.fat_start + (cluster * 4) % 2 ^ 32 / 512) % 2 ^ 32

unfoldable pub fat_byte : ℕ → ℕ
fat_byte cluster = (cluster * 4) % 2 ^ 32 % 512

-- The sector of an entry in copy `f` of the table.
unfoldable pub copy_sector : ℕ → Fat32Mount → ℕ → ℕ
copy_sector f m cluster = (m.fat_start + f * m.fat_size + (cluster * 4) % 2 ^ 32 / 512) % 2 ^ 32

-- The entry in a sector of the table.
unfoldable pub entry_of : ℕ → Option (List ℕ) → ℕ
entry_of cluster none = 0x0FFFFFFF
entry_of cluster (some buf) = load 4 (fat_byte cluster) buf % 2 ^ 28

-- The sector with another entry, whose upper 4 bits stay.
unfoldable pub with_entry : ℕ → ℕ → List ℕ → List ℕ
with_entry cluster value buf =
    let at = fat_byte cluster in store 4 at (value % 2 ^ 28 + load 4 at buf / 2 ^ 28 * 2 ^ 28) buf

module _ (D : Device) where
  unfoldable pub read_fat : Fat32Mount → ℕ → D.State → ℕ
  read_fat m cluster s = entry_of cluster (D.read (fat_sector m cluster) s)

  -- The loop over the copies of the table, from `f` on: it ends with the first write that fails.
  unfoldable pub write_copies : ℕ → ℕ → Fat32Mount → ℕ → List ℕ → D.State → Bool × D.State
  write_copies zero f m cluster buf s = (true, s)
  write_copies (suc left) f m cluster buf s =
      let (done, s1) = D.write (copy_sector f m cluster) buf s in
      let rest = write_copies left (f + 1) m cluster buf s1 in if done then rest else (false, s1)

  unfoldable pub write_entry : Fat32Mount → ℕ → ℕ → Option (List ℕ) → D.State → Bool × D.State
  write_entry m cluster value none s = (false, s)
  write_entry m cluster value (some buf) s =
      write_copies m.num_fats 0 m cluster (with_entry cluster value buf) s

  unfoldable pub write_fat : Fat32Mount → ℕ → ℕ → D.State → Bool × D.State
  write_fat m cluster value s = write_entry m cluster value (D.read (fat_sector m cluster) s) s

  -- The loop of `alloc_cluster` from `c` on, by the clusters left.
  unfoldable pub alloc_from : ℕ → ℕ → Fat32Mount → D.State → ℕ × D.State
  alloc_from zero c m s = (0, s)
  alloc_from (suc left) c m s =
      let rest = alloc_from left (c + 1) m s in
      if read_fat m c s == 0 then (c, (write_fat m c 0x0FFFFFFF s).1) else rest

  -- The bound `total_clusters + 2` has 32 bits.
  unfoldable pub alloc_cluster : Fat32Mount → D.State → ℕ × D.State
  alloc_cluster m s = alloc_from ((m.total_clusters + 2) % 2 ^ 32 - 2) 2 m s

  unfoldable pub zero_from : ℕ → ℕ → ℕ → D.State → Bool × D.State
  zero_from zero lba sector s = (true, s)
  zero_from (suc left) lba sector s =
      let (done, s1) = D.write ((lba + sector) % 2 ^ 32) (replicate 512 0) s in
      let rest = zero_from left lba (sector + 1) s1 in if done then rest else (false, s1)

  unfoldable pub zero_cluster : Fat32Mount → ℕ → D.State → Bool × D.State
  zero_cluster m cluster s = zero_from m.sectors_per_cluster (cluster_to_lba m cluster) 0 s
