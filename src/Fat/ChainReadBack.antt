-- ===== src/Fat/ChainReadBack.antt =====
-- fs/fat32.cpp: what `chain_write` leaves in a sector of the chain, and what `chain_read` finds.
use knail.Prelude.{
  ℕ, suc, ◌+◌, ◌/◌, ◌%◌, ◌<◌, ◌≤◌, ◌≡◌, ◌≢◌, ◌∙◌, sym, ap, true, false, some, List, ◌∷◌, ◌==◌,
  length, get_or, arith, inl, inr, Bool-cases, Option-cases,
}
use native.Mathlib.Nat.{mod-lt}
use knail.Vfs.Ramfs.{copy_in}
use knail.Vfs.Bytes.{length-copy_in}
use knail.Fat.{Device, Fat32Mount}
use knail.Fat.Table.{IsDisk}
use knail.Fat.Chains.{
  Wrote, wrote, no_space, invalid, cluster_bytes, is_end, sector_of, follow, read_from, chain_read,
  write_loop, chain_write,
}
use knail.Fat.ChainSteps.{
  Apart, chain_loop-sector, chain_write-loop, copy_in-below, follow-write, write_loop-sector,
  write_loop-unread, write_loop-unwritten,
}

module _ (D : Device) (m : Fat32Mount) where
  -- What `chain_read` finds behind the write of the sector.
  chain_read-sector :
      (disk : IsDisk D) (first cluster offset b : ℕ) (bs buf : List ℕ) (s : D.State)
      → 0 < cluster_bytes m
      → is_end cluster ≡ false
      → follow D (offset / cluster_bytes m) m first s ≡ some cluster
      → Apart D m
          (offset / cluster_bytes m)
          first
          (sector_of m cluster (offset % cluster_bytes m))
          s
      → ((i : ℕ) → get_or (b ∷ bs) i 0 < 256)
      → offset % cluster_bytes m % 512 + length (b ∷ bs) ≤ 512
      → D.read (sector_of m cluster (offset % cluster_bytes m)) s ≡ some buf
      → (D.write
          (sector_of m cluster (offset % cluster_bytes m))
          (copy_in (b ∷ bs) (offset % cluster_bytes m % 512) buf)
          s).0
        ≡ true
      → chain_read D m first offset
          (length (b ∷ bs))
          (D.write
            (sector_of m cluster (offset % cluster_bytes m))
            (copy_in (b ∷ bs) (offset % cluster_bytes m % 512) buf)
            s).1
        ≡ b ∷ bs
  unfolding chain_read read_from
  chain_read-sector disk first cluster offset b bs buf s room more e apart small fits found done =
      let intra = offset % cluster_bytes m in
      let lba = sector_of m cluster intra in
      let new = copy_in (b ∷ bs) (intra % 512) buf in
      let sized = disk.sized lba s buf found in
      let inside : intra % 512 + length (b ∷ bs) ≤ length buf = omega (arith, sized, fits) in
      let kept =
        disk.kept lba new s (length-copy_in (b ∷ bs) buf (intra % 512) ∙ sized)
          (copy_in-below (b ∷ bs) buf (intra % 512) inside small (disk.bytes lba s buf found))
          done in
      let some_left : (length (b ∷ bs) == 0) ≡ false = ground arith in
      let way =
        follow-write D m disk lba new (offset / cluster_bytes m) first cluster s apart done e in
      rw (some_left, way)
        (chain_loop-sector D m cluster intra b bs buf (D.write lba new s).1 fits
          (mod-lt offset room) more sized kept)

bytes_of : Wrote → ℕ
bytes_of (wrote n) = n
bytes_of no_space = 0
bytes_of invalid = 0

clash : {r : Wrote} {n : ℕ} → r ≡ wrote 0 → r ≢ wrote (suc n)
unfolding bytes_of
clash none_yet all = let same = ap bytes_of (sym none_yet ∙ all) in absurd (omega (arith, same))

-- On a disk as the driver relies on, for an offset whose cluster the chain has, no entry of a
-- cluster in front of it in the sector of the offset, and bytes that fit into that sector: behind a
-- `chain_write` of one byte or more that returns their number, `chain_read` of as many bytes at the
-- offset returns those that were written.
pub chain_read-chain_write :
    (D : Device) (m : Fat32Mount) (first cluster offset b : ℕ) (bs : List ℕ) (s : D.State)
    → IsDisk D
    → 0 < cluster_bytes m
    → 2 ≤ first
    → is_end cluster ≡ false
    → follow D (offset / cluster_bytes m) m first s ≡ some cluster
    → Apart D m (offset / cluster_bytes m) first (sector_of m cluster (offset % cluster_bytes m)) s
    → ((i : ℕ) → get_or (b ∷ bs) i 0 < 256)
    → offset % cluster_bytes m % 512 + length (b ∷ bs) ≤ 512
    → (chain_write D m first offset (b ∷ bs) s).1 ≡ wrote (length (b ∷ bs))
    → chain_read D m first offset (length (b ∷ bs)) (chain_write D m first offset (b ∷ bs) s).2
      ≡ b ∷ bs
chain_read-chain_write D m first cluster offset b bs s disk room two more e apart small fits done =
    let intra = offset % cluster_bytes m in
    let lba = sector_of m cluster intra in
    let run = chain_write-loop D m first cluster offset b bs s two e in
    let all : (write_loop D (length (b ∷ bs)) m cluster intra 0 (b ∷ bs) s).0
        ≡ wrote (length (b ∷ bs)) =
      ap (λ (r : ℕ × Wrote × D.State). r.1) (sym run) ∙ done in
    rw run (elim (Option-cases (D.read lba s)) [
      | inl unread ↦ absurd (clash (write_loop-unread D m cluster intra b bs s unread) all)
      | inr (buf, found) ↦
          elim (Bool-cases (D.write lba (copy_in (b ∷ bs) (intra % 512) buf) s).0) [
            | inl written ↦ rw (write_loop-sector D m cluster intra b bs buf s fits found written) (
                chain_read-sector D m disk first cluster offset b bs buf s room more e apart small
                  fits found written)
            | inr failed ↦
                absurd
                  (clash (write_loop-unwritten D m cluster intra b bs buf s fits found failed) all)
          ]
    ])
