-- ===== src/Fat/Chains.antt =====
-- fs/fat32.cpp: reading and writing along a chain of clusters, over the device. A volume whose
-- clusters have no sectors divides by 0 there and is left out. The loops that copy the bytes of a
-- sector are written as those of the VFS.
use knail.Prelude.{
  ℕ, zero, suc, ◌+◌, ◌-◌, ◌*◌, ◌/◌, ◌%◌, ◌^◌, Bool, true, false, ◌&&◌, ◌||◌, Option, none, some,
  List, [], ◌++◌, ltb, leb, ◌==◌, if◌then◌else◌, length, take, drop,
}
use knail.Vfs.Ramfs.{copy_in, copy_out}
use knail.Fat.{
  Device, Fat32Mount, cluster_to_lba, is_eoc, read_fat, write_fat, alloc_cluster, zero_cluster,
}

unfoldable pub cluster_bytes : Fat32Mount → ℕ
cluster_bytes m = (m.sectors_per_cluster * 512) % 2 ^ 32

-- The test behind each step: the chain is over.
unfoldable pub is_end : ℕ → Bool
is_end cluster = is_eoc cluster || ltb cluster 2

-- `lba + sec_off`
unfoldable pub sector_of : Fat32Mount → ℕ → ℕ → ℕ
sector_of m cluster intra = (cluster_to_lba m cluster + intra / 512 % 2 ^ 32) % 2 ^ 32

-- `avail`: the bytes of the sector from `intra` on, and no more than `len`.
unfoldable pub part : ℕ → ℕ → ℕ
part intra len = let avail = 512 - intra % 512 in if ltb len avail then len else avail

-- The cluster that a step of `chain_write` leads to, or what it returns instead.
pub data Link : Type 0 where
  linked : ℕ → Link
  no_cluster : Link
  unlinked : Link

-- What `chain_write` returns: a number of bytes, `E_NOSPACE` or `E_INVAL`.
pub data Wrote : Type 0 where
  wrote : ℕ → Wrote
  no_space : Wrote
  invalid : Wrote

module _ (D : Device) where
  -- The steps to the cluster of the offset; `none` where the chain ends before.
  unfoldable pub follow : ℕ → Fat32Mount → ℕ → D.State → Option ℕ
  follow zero m cluster s = some cluster
  follow (suc steps) m cluster s =
      let next = read_fat D m cluster s in
      let rest = follow steps m next s in if is_end next then none else rest

  -- The inner loop of `chain_read`, which a round leaves at an `intra` that is smaller, so that
  -- as many rounds as `intra` are enough.
  unfoldable pub enter : ℕ → Fat32Mount → ℕ → ℕ → D.State → Option (ℕ × ℕ)
  enter zero m cluster intra s = some (cluster, intra)
  enter (suc rounds) m cluster intra s =
      let next = read_fat D m cluster s in
      let rest = enter rounds m next (intra - cluster_bytes m) s in
      if ltb intra (cluster_bytes m)
      then some (cluster, intra)
      else if is_end next
      then none
      else rest

  -- The rest of a round, behind the read of the sector. `next` are the rounds that follow.
  unfoldable pub read_part : (ℕ → ℕ → ℕ → List ℕ) → ℕ → ℕ → ℕ → Option (List ℕ) → List ℕ
  read_part next cluster intra len none = []
  read_part next cluster intra len (some sector) =
      let n = part intra len in
      copy_out n (intra % 512) sector ++ next cluster (intra + n) (len - n)

  unfoldable pub read_round :
      (ℕ → ℕ → ℕ → List ℕ) → Fat32Mount → ℕ → D.State → Option (ℕ × ℕ) → List ℕ
  read_round next m len s none = []
  read_round next m len s (some (cluster, intra)) =
      let rest = read_part next cluster intra len (D.read (sector_of m cluster intra) s) in
      if is_end cluster then [] else rest

  -- The outer loop. A round reads at least one byte, so `len` rounds are enough.
  unfoldable pub chain_loop : ℕ → Fat32Mount → ℕ → ℕ → ℕ → D.State → List ℕ
  chain_loop zero m cluster intra len s = []
  chain_loop (suc rounds) m cluster intra len s =
      let rest =
        read_round (λ cluster' intra' len'. chain_loop rounds m cluster' intra' len' s) m len s
          (enter intra m cluster intra s) in
      if len == 0 then [] else rest

  unfoldable pub read_from : Fat32Mount → ℕ → ℕ → D.State → Option ℕ → List ℕ
  read_from m offset len s none = []
  read_from m offset len s (some cluster) =
      chain_loop len m cluster (offset % cluster_bytes m) len s

  -- The bytes that `chain_read` leaves in the buffer; it returns their number.
  unfoldable pub chain_read : Fat32Mount → ℕ → ℕ → ℕ → D.State → List ℕ
  chain_read m first_cluster offset len s =
      if len == 0
      then []
      else read_from m offset len s (follow (offset / cluster_bytes m) m first_cluster s)

  -- The new cluster, zeroed and behind the write that links it to the last.
  unfoldable pub link_new : ℕ → Bool × D.State → Link × D.State
  link_new newc (true, s) = (linked newc, s)
  link_new newc (false, s) = (unlinked, s)

  unfoldable pub extend_with : Fat32Mount → ℕ → ℕ × D.State → Link × D.State
  extend_with m cluster (newc, s) =
      if newc == 0
      then (no_cluster, s)
      else link_new newc (write_fat D m cluster newc (zero_cluster D m newc s).1)

  -- The step of `chain_write` to the next cluster, which makes one where the chain is over.
  unfoldable pub next_cluster : Fat32Mount → ℕ → D.State → Link × D.State
  next_cluster m cluster s =
      let next = read_fat D m cluster s in
      if is_end next then extend_with m cluster (alloc_cluster D m s) else (linked next, s)

  unfoldable pub and_then : (ℕ → D.State → Link × D.State) → Link × D.State → Link × D.State
  and_then next (linked cluster, s) = next cluster s
  and_then next (no_cluster, s) = (no_cluster, s)
  and_then next (unlinked, s) = (unlinked, s)

  -- The steps to the cluster of the offset.
  unfoldable pub reach : ℕ → Fat32Mount → ℕ → D.State → Link × D.State
  reach zero m cluster s = (linked cluster, s)
  reach (suc steps) m cluster s =
      and_then (λ next s'. reach steps m next s') (next_cluster m cluster s)

  -- The rounds that follow: at a cluster and an `intra`, with the bytes written and those left.
  abbrev Rounds : Type 0
  Rounds = ℕ → ℕ → ℕ → List ℕ → D.State → Wrote × D.State

  -- Behind the end of a cluster.
  unfoldable pub move : Rounds → ℕ → List ℕ → Link × D.State → Wrote × D.State
  move next written src (linked cluster, s) = next cluster 0 written src s
  move next written src (no_cluster, s) = (wrote written, s)
  move next written src (unlinked, s) = (invalid, s)

  unfoldable pub go_on : Rounds → Fat32Mount → ℕ → ℕ → ℕ → List ℕ → D.State → Bool → Wrote × D.State
  go_on next m cluster intra written src s true = move next written src (next_cluster m cluster s)
  go_on next m cluster intra written src s false = next cluster intra written src s

  -- Behind the write of the sector with `n` more bytes.
  unfoldable pub write_done :
      Rounds → Fat32Mount → ℕ → ℕ → ℕ → ℕ → List ℕ → Bool × D.State → Wrote × D.State
  write_done next m cluster intra written n src (false, s) = (wrote written, s)
  write_done next m cluster intra written n src (true, s) =
      let left = drop n src in
      go_on next m cluster (intra + n) (written + n) left s
        (leb (cluster_bytes m) (intra + n) && ltb 0 (length left))

  -- Behind the read of the sector.
  unfoldable pub write_part :
      Rounds → Fat32Mount → ℕ → ℕ → ℕ → List ℕ → D.State → Option (List ℕ) → Wrote × D.State
  write_part next m cluster intra written src s none = (wrote written, s)
  write_part next m cluster intra written src s (some sector) =
      let n = part intra (length src) in
      write_done next m cluster intra written n src
        (D.write (sector_of m cluster intra) (copy_in (take n src) (intra % 512) sector) s)

  -- The loop of `chain_write`. A round writes at least one byte, so as many rounds as bytes are
  -- enough.
  unfoldable pub write_loop : ℕ → Fat32Mount → ℕ → ℕ → ℕ → List ℕ → D.State → Wrote × D.State
  write_loop zero m cluster intra written src s = (wrote written, s)
  write_loop (suc rounds) m cluster intra written src s =
      let rest =
        write_part
          (λ cluster' intra' written' src' s'. write_loop rounds m cluster' intra' written' src' s')
          m cluster intra written src s (D.read (sector_of m cluster intra) s) in
      if length src == 0 then (wrote written, s) else rest

  unfoldable pub write_from : Fat32Mount → ℕ → List ℕ → Link × D.State → Wrote × D.State
  write_from m offset src (linked cluster, s) =
      write_loop (length src) m cluster (offset % cluster_bytes m) 0 src s
  write_from m offset src (no_cluster, s) = (no_space, s)
  write_from m offset src (unlinked, s) = (invalid, s)

  -- The first cluster of the chain, made where there is none, and whether there is one now.
  unfoldable pub begin_with : Fat32Mount → ℕ × D.State → Link × D.State
  begin_with m (cluster, s) =
      if cluster == 0 then (no_cluster, s) else (linked cluster, (zero_cluster D m cluster s).1)

  unfoldable pub begin : Fat32Mount → ℕ → D.State → Link × D.State
  begin m first_cluster s =
      if ltb first_cluster 2 then begin_with m (alloc_cluster D m s) else (linked first_cluster, s)

  -- What `*first_cluster_ptr` holds behind that.
  unfoldable pub first_of : ℕ → Link → ℕ
  first_of first_cluster (linked cluster) = cluster
  first_of first_cluster no_cluster = first_cluster
  first_of first_cluster unlinked = first_cluster

  unfoldable pub chain_from : Fat32Mount → ℕ → ℕ → List ℕ → Link × D.State → ℕ × Wrote × D.State
  chain_from m first_cluster offset src (link, s) =
      let reached =
        and_then (λ cluster s'. reach (offset / cluster_bytes m) m cluster s') (link, s) in
      let (result, s') = write_from m offset src reached in
      (first_of first_cluster link, result, s')

  -- The first cluster, the result and the state; `src` is the caller's buffer and its length.
  unfoldable pub chain_write : Fat32Mount → ℕ → ℕ → List ℕ → D.State → ℕ × Wrote × D.State
  chain_write m first_cluster offset src s =
      if length src == 0
      then (first_cluster, wrote 0, s)
      else chain_from m first_cluster offset src (begin m first_cluster s)

  unfoldable write_dirent : ℕ → ℕ → List ℕ → Option (List ℕ) → D.State → Bool × D.State
  write_dirent sector offset de none s = (false, s)
  write_dirent sector offset de (some buf) s = D.write sector (copy_in de offset buf) s

  -- `de` are the 32 bytes of the entry.
  unfoldable write_dirent_at : ℕ → ℕ → List ℕ → D.State → Bool × D.State
  write_dirent_at sector offset de s = write_dirent sector offset de (D.read sector s) s
