-- ===== src/Fat/ChainSteps.antt =====
-- fs/fat32.cpp: the steps of `chain_write` and of `chain_read` along a chain, and in one sector.
use knail.Prelude.{
  ℕ, zero, suc, ◌+◌, ◌-◌, ◌/◌, ◌%◌, ◌<◌, ◌≤◌, ◌≡◌, ◌≢◌, ◌∙◌, refl, sym, ap, ap₂, Bool, true, false,
  ◌&&◌, Option, none, some, List, [], ◌∷◌, ◌++◌, ltb, leb, ◌==◌, if◌then◌else◌, length, take, drop,
  get_or, arith, inl, inr, Bool-cases, append-nil, set, get_or-set_self, length-set,
}
use knail.Vfs.Ramfs.{copy_in, copy_out}
use knail.Vfs.Bytes.{patched, get_or-copy_in}
use knail.Fat.{Device, Fat32Mount, fat_sector, read_fat}
use knail.Fat.Table.{IsDisk}
use knail.Fat.Chains.{
  linked, wrote, cluster_bytes, is_end, sector_of, part, follow, enter, read_part, read_round,
  chain_loop, next_cluster, and_then, reach, go_on, write_done, write_part, write_loop, write_from,
  begin, first_of, chain_from, chain_write,
}

-- Reading back what was copied.
copy_out-copy_in :
    (src : List ℕ) (i : ℕ) (buf : List ℕ)
    → i + length src ≤ length buf
    → copy_out (length src) i (copy_in src i buf) ≡ src
unfolding copy_in copy_out
copy_out-copy_in [] i buf h = refl
copy_out-copy_in (b ∷ bs) i buf h =
    let room : i + 1 + length bs ≤ length (set buf i b) = omega (arith, length-set buf i b) in
    ap₂ (λ (x : ℕ) (l : List ℕ). x ∷ l)
      (get_or-copy_in bs (i + 1) i (set buf i b) room
        ∙ before (get_or-set_self buf i b 0 (omega arith)))
      (copy_out-copy_in bs (i + 1) (set buf i b) room)
  where
    before : get_or (set buf i b) i 0 ≡ b → patched (i + 1) bs (λ k. get_or (set buf i b) k 0) i ≡ b
    before e = let no : leb (i + 1) i ≡ false = ground arith in rw (no, e) refl

take-all : (xs : List ℕ) → take (length xs) xs ≡ xs
take-all [] = refl
take-all (x ∷ xs) = ap (λ (l : List ℕ). x ∷ l) (take-all xs)

drop-all : (xs : List ℕ) → drop (length xs) xs ≡ []
drop-all [] = refl
drop-all (x ∷ xs) = drop-all xs

pub copy_in-below :
    (src buf : List ℕ) (i : ℕ)
    → i + length src ≤ length buf
    → ((k : ℕ) → get_or src k 0 < 256)
    → ((k : ℕ) → get_or buf k 0 < 256)
    → (j : ℕ) → get_or (copy_in src i buf) j 0 < 256
copy_in-below src buf i h small below j =
    rw (get_or-copy_in src i j buf h) (ground (arith, small (j - i), below j))

part-all : (intra len : ℕ) → intra % 512 + len ≤ 512 → part intra len ≡ len
unfolding part
part-all intra len h = ground arith

inner :
    {b : Bool} {x : Option ℕ} {c : ℕ} → b ≡ false → (if b then none else x) ≡ some c → x ≡ some c
inner {b} {x} e h = sym (rw e refl) ∙ h

outer : (b : Bool) (x : Option ℕ) (c : ℕ) → b ≡ true → (if b then none else x) ≢ some c
outer true x c e h = absurd cc
outer false x c e h = absurd cc

module _ (D : Device) (m : Fat32Mount) where
  -- Where the chain has the clusters, `chain_write` takes the same steps and writes nothing.
  reach-follow :
      (n first cluster : ℕ) (s : D.State)
      → follow D n m first s ≡ some cluster
      → reach D n m first s ≡ (linked cluster, s)
  unfolding follow reach next_cluster and_then
  reach-follow zero first cluster s e = let same : first ≡ cluster = cc in rw same refl
  reach-follow (suc n) first cluster s e = elim (Bool-cases (is_end (read_fat D m first s))) [
    | inl over ↦ absurd (
        outer (is_end (read_fat D m first s)) (follow D n m (read_fat D m first s) s) cluster over
          e)
    | inr more ↦ rw more (reach-follow n (read_fat D m first s) cluster s (inner more e))
  ]

  -- The entries of the clusters in front stand in other sectors than `lba`.
  abbrev pub Apart : ℕ → ℕ → ℕ → D.State → Type 0
  Apart n first lba s = (i k : ℕ) → i < n → follow D i m first s ≡ some k → lba ≢ fat_sector m k

  module _ (disk : IsDisk D) (lba : ℕ) (buf : List ℕ) where
    read_fat-write :
        (k : ℕ) (s : D.State)
        → lba ≢ fat_sector m k
        → (D.write lba buf s).0 ≡ true
        → read_fat D m k (D.write lba buf s).1 ≡ read_fat D m k s
    unfolding read_fat
    read_fat-write k s off done =
        rw (disk.apart lba (fat_sector m k) buf s (λ e. off (sym e)) done) refl

    -- A write to another sector leaves the walk along the chain.
    pub follow-write :
        (n first cluster : ℕ) (s : D.State)
        → Apart n first lba s
        → (D.write lba buf s).0 ≡ true
        → follow D n m first s ≡ some cluster
        → follow D n m first (D.write lba buf s).1 ≡ some cluster
    unfolding follow
    follow-write zero first cluster s off done e = e
    follow-write (suc n) first cluster s off done e =
        let same = read_fat-write first s (off 0 first (omega arith) refl) done in
        elim (Bool-cases (is_end (read_fat D m first s))) [
          | inl over ↦ absurd (
              outer (is_end (read_fat D m first s)) (follow D n m (read_fat D m first s) s) cluster
                over e)
          | inr more ↦
              rw (same, more)
                (follow-write n (read_fat D m first s) cluster s
                  (λ i k lt f. off (suc i) k (omega arith) (rw more f)) done (inner more e))
        ]

  -- The rounds with nothing left.
  write_loop-end :
      (n cluster intra written : ℕ) (s : D.State)
      → write_loop D n m cluster intra written [] s ≡ (wrote written, s)
  unfolding write_loop
  write_loop-end zero cluster intra written s = refl
  write_loop-end (suc n) cluster intra written s = refl

  chain_loop-end : (n cluster intra : ℕ) (s : D.State) → chain_loop D n m cluster intra 0 s ≡ []
  unfolding chain_loop
  chain_loop-end zero cluster intra s = refl
  chain_loop-end (suc n) cluster intra s = refl

  enter-inside :
      (n cluster intra : ℕ) (s : D.State)
      → intra < cluster_bytes m
      → enter D n m cluster intra s ≡ some (cluster, intra)
  unfolding enter
  enter-inside zero cluster intra s lt = refl
  enter-inside (suc n) cluster intra s lt =
      let inside : ltb intra (cluster_bytes m) ≡ true = ground arith in rw inside refl

  -- One sector that holds all the bytes: what the loop of `chain_write` leaves.
  pub write_loop-sector :
      (cluster intra : ℕ) (b : ℕ) (bs buf : List ℕ) (s : D.State)
      → intra % 512 + length (b ∷ bs) ≤ 512
      → D.read (sector_of m cluster intra) s ≡ some buf
      → (D.write (sector_of m cluster intra) (copy_in (b ∷ bs) (intra % 512) buf) s).0 ≡ true
      → write_loop D (length (b ∷ bs)) m cluster intra 0 (b ∷ bs) s ≡ (
        wrote (length (b ∷ bs)),
        (D.write (sector_of m cluster intra) (copy_in (b ∷ bs) (intra % 512) buf) s).1,
      )
  unfolding write_loop write_part write_done go_on
  write_loop-sector cluster intra b bs buf s fits found done =
      let src = b ∷ bs in
      let lba = sector_of m cluster intra in
      let all : part intra (length src) ≡ length src = part-all intra (length src) fits in
      let some_left : (length src == 0) ≡ false = ground arith in
      rw (some_left, found, all, take-all src)
        (sector_done (D.write lba (copy_in src (intra % 512) buf) s) done)
    where
      sector_done :
          (r : Bool × D.State)
          → r.0 ≡ true
          → write_done D
              (λ cluster' intra' written' src' s'.
                write_loop D (length bs) m cluster' intra' written' src' s')
              m
              cluster
              intra
              0
              (length (b ∷ bs))
              (b ∷ bs)
              r
            ≡ (wrote (length (b ∷ bs)), r.1)
      sector_done (true, s') e =
          let over : (leb (cluster_bytes m) (intra + length (b ∷ bs)) && ltb 0 0) ≡ false =
            ground arith in
          let count : 0 + length (b ∷ bs) ≡ length (b ∷ bs) = omega arith in
          rw (drop-all bs, over, count)
            (write_loop-end (length bs) cluster (intra + length (b ∷ bs)) (length (b ∷ bs)) s')
      sector_done (false, s') e = absurd cc

  pub chain_loop-sector :
      (cluster intra : ℕ) (b : ℕ) (bs buf : List ℕ) (s : D.State)
      → intra % 512 + length (b ∷ bs) ≤ 512
      → intra < cluster_bytes m
      → is_end cluster ≡ false
      → length buf ≡ 512
      → D.read (sector_of m cluster intra) s ≡ some (copy_in (b ∷ bs) (intra % 512) buf)
      → chain_loop D (length (b ∷ bs)) m cluster intra (length (b ∷ bs)) s ≡ b ∷ bs
  unfolding chain_loop read_round read_part
  chain_loop-sector cluster intra b bs buf s fits inside more sized found =
      let src = b ∷ bs in
      let all : part intra (length src) ≡ length src = part-all intra (length src) fits in
      let some_left : (length src == 0) ≡ false = ground arith in
      let over : length src - length src ≡ 0 = omega arith in
      rw (some_left, enter-inside intra cluster intra s inside, more, found, all, over)
        (ap₂ (λ (xs ys : List ℕ). xs ++ ys)
            (copy_out-copy_in src (intra % 512) buf (omega (arith, sized)))
            (chain_loop-end (length bs) cluster (intra + length src) s)
          ∙ append-nil src)

  -- A sector that is not read or not written.
  pub write_loop-unread :
      (cluster intra b : ℕ) (bs : List ℕ) (s : D.State)
      → D.read (sector_of m cluster intra) s ≡ none
      → (write_loop D (length (b ∷ bs)) m cluster intra 0 (b ∷ bs) s).0 ≡ wrote 0
  unfolding write_loop write_part
  write_loop-unread cluster intra b bs s unread =
      let some_left : (length (b ∷ bs) == 0) ≡ false = ground arith in rw (some_left, unread) refl

  pub write_loop-unwritten :
      (cluster intra b : ℕ) (bs buf : List ℕ) (s : D.State)
      → intra % 512 + length (b ∷ bs) ≤ 512
      → D.read (sector_of m cluster intra) s ≡ some buf
      → (D.write (sector_of m cluster intra) (copy_in (b ∷ bs) (intra % 512) buf) s).0 ≡ false
      → (write_loop D (length (b ∷ bs)) m cluster intra 0 (b ∷ bs) s).0 ≡ wrote 0
  unfolding write_loop write_part write_done
  write_loop-unwritten cluster intra b bs buf s fits found failed =
      let all : part intra (length (b ∷ bs)) ≡ length (b ∷ bs) =
        part-all intra (length (b ∷ bs)) fits in
      let some_left : (length (b ∷ bs) == 0) ≡ false = ground arith in
      rw (some_left, found, all, take-all (b ∷ bs))
        (unwritten (D.write (sector_of m cluster intra) (copy_in (b ∷ bs) (intra % 512) buf) s)
          failed)
    where
      unwritten :
          (r : Bool × D.State)
          → r.0 ≡ false
          → (write_done D
              (λ cluster' intra' written' src' s'.
                write_loop D (length bs) m cluster' intra' written' src' s')
              m
              cluster
              intra
              0
              (length (b ∷ bs))
              (b ∷ bs)
              r).0
            ≡ wrote 0
      unwritten (true, s') e = absurd cc
      unwritten (false, s') e = refl

  -- A write whose bytes fit into one sector of an existing chain is the loop on that sector.
  pub chain_write-loop :
      (first cluster offset b : ℕ) (bs : List ℕ) (s : D.State)
      → 2 ≤ first
      → follow D (offset / cluster_bytes m) m first s ≡ some cluster
      → chain_write D m first offset (b ∷ bs) s ≡ (
        first,
        (write_loop D (length (b ∷ bs)) m cluster (offset % cluster_bytes m) 0 (b ∷ bs) s).0,
        (write_loop D (length (b ∷ bs)) m cluster (offset % cluster_bytes m) 0 (b ∷ bs) s).1,
      )
  unfolding chain_write chain_from begin and_then write_from first_of
  chain_write-loop first cluster offset b bs s two e =
      let some_left : (length (b ∷ bs) == 0) ≡ false = ground arith in
      let made : ltb first 2 ≡ false = ground arith in
      rw (some_left, made, reach-follow (offset / cluster_bytes m) first cluster s e) refl
