-- ===== src/Fat/Tests.antt =====
-- A disk in memory, and a small volume on it.
use knail.Elf.{little}
use knail.Prelude.{
  ◌/◌, ◌%◌, sym, ℕ, zero, suc, ◌≡◌, ◌≢◌, ◌<◌, refl, Bool, true, false, ◌&&◌, Option, none, some,
  List, [], ◌∷◌, length, get_or, replicate, ltb, ◌==◌, ==_iff, lt→ltb, if◌then◌else◌, arith, inl,
  inr, Bool-cases,
}
use knail.Fat.{
  Device, Fat32Mount, fat_sector, cluster_to_lba, is_eoc, entry_of, load, fat_byte, with_entry,
  store, copy_sector, read_fat, write_fat, write_entry, write_copies, alloc_cluster,
}
use knail.Fat.Table.{IsDisk, IsCovered}
use knail.Fat.ReadBack.{read_fat-write_fat}
use knail.Fat.Free.{Allocated, alloc_cluster-Allocated}
use knail.Fat.Names.{is_upper, is_lower, decode_83, encode_83}
use knail.Fat.Chains.{
  chain_read, chain_write, follow, cluster_bytes, sector_of, is_end, wrote, chain_from, write_from,
  and_then, begin, reach, next_cluster, first_of, go_on, part, write_done, write_loop, write_part,
}
use knail.Fat.ChainReadBack.{chain_read-chain_write}
use knail.Fat.ChainSteps.{Apart}
use knail.Vfs.Ramfs.{copy_in}
use knail.Fat.RoundTrip.{IsField, joined, decode_83-encode_83}

unfoldable all_bytes : List ℕ → Bool
all_bytes [] = true
all_bytes (x ∷ xs) = ltb x 256 && all_bytes xs

all_bytes→below : (xs : List ℕ) → all_bytes xs ≡ true → (i : ℕ) → get_or xs i 0 < 256
unfolding all_bytes
all_bytes→below [] h i = omega arith
all_bytes→below (x ∷ xs) h zero = ground arith
all_bytes→below (x ∷ xs) h (suc i) = all_bytes→below xs (ground arith) i

below→all_bytes : (xs : List ℕ) → ((i : ℕ) → get_or xs i 0 < 256) → all_bytes xs ≡ true
unfolding all_bytes
below→all_bytes [] h = refl
below→all_bytes (x ∷ xs) h = rw (lt→ltb x 256 (h 0), below→all_bytes xs (λ i. h (suc i))) refl

unfoldable is_sector : List ℕ → Bool
is_sector buf = (length buf == 512) && all_bytes buf

unfoldable checked : List ℕ → Option (List ℕ)
checked buf = if is_sector buf then some buf else none

abbrev ram_disk : Device
ram_disk = record {
  State = ℕ → List ℕ;
  read = λ lba s. checked (s lba);
  write = λ lba buf s. (true, λ other. if other == lba then buf else s other);
}

is_sector→sized : (x : List ℕ) → is_sector x ≡ true → length x ≡ 512
unfolding is_sector
is_sector→sized x h = ground arith

is_sector→bytes : (x : List ℕ) → is_sector x ≡ true → all_bytes x ≡ true
unfolding is_sector
is_sector→bytes x h = ground arith

checked-sector : (x buf : List ℕ) → checked x ≡ some buf → is_sector buf ≡ true
unfolding checked
checked-sector x buf h = elim (Bool-cases (is_sector x)) [
  | inl e ↦ let whole : some x ≡ some buf = rw e at h in let same : x ≡ buf = cc in rw (← same) e
  | inr e ↦ absurd (let nothing : none ≡ some buf = rw e at h in cc)
]

checked_of : (x : List ℕ) → length x ≡ 512 → ((i : ℕ) → get_or x i 0 < 256) → checked x ≡ some x
unfolding checked is_sector
checked_of x sized bytes =
    let whole : (length x == 512) ≡ true = (==_iff (length x) 512).1 sized in
    rw (whole, below→all_bytes x bytes) refl

ram_disk-IsDisk : IsDisk ram_disk
ram_disk-IsDisk = record {
  sized = λ lba s buf e. is_sector→sized buf (checked-sector (s lba) buf e);
  bytes = λ lba s buf e. all_bytes→below buf (is_sector→bytes buf (checked-sector (s lba) buf e));
  kept = λ lba buf s sized bytes done. at_same lba buf s (checked_of buf sized bytes);
  apart = λ lba other buf s ne done. at_other lba other buf s ne;
}
  where
    at_same :
        (lba : ℕ) (buf : List ℕ) (s : ℕ → List ℕ)
        → checked buf ≡ some buf
        → checked (if lba == lba then buf else s lba) ≡ some buf
    at_same lba buf s e = let here : (lba == lba) ≡ true = ground arith in rw here e

    at_other :
        (lba other : ℕ) (buf : List ℕ) (s : ℕ → List ℕ)
        → other ≢ lba
        → checked (if other == lba then buf else s other) ≡ checked (s other)
    at_other lba other buf s ne = let away : (other == lba) ≡ false = ground arith in rw away refl

-- Two copies of a table of one sector.
abbrev volume : Fat32Mount
volume = record {
  fat_start = 32;
  data_start = 34;
  sectors_per_cluster = 1;
  root_cluster = 2;
  total_clusters = 100;
  fat_size = 1;
  num_fats = 2;
}

abbrev blank_disk : ℕ → List ℕ
blank_disk lba = replicate 512 0

covered : (c : ℕ) → c < 128 → IsCovered volume c
covered c h = record {
  copies = omega arith;
  within = omega arith;
  low = omega arith;
  word = omega arith;
}

read_fat-write_fat_example :
    read_fat ram_disk volume 5 (write_fat ram_disk volume 5 0x0FFFFFFF blank_disk).1 ≡ 0x0FFFFFFF
unfolding write_fat write_entry write_copies checked is_sector all_bytes
read_fat-write_fat_example =
    read_fat-write_fat ram_disk ram_disk-IsDisk volume 5 0x0FFFFFFF 5 blank_disk
      (covered 5 (omega arith)) (covered 5 (omega arith)) refl

alloc_cluster-Allocated_example :
    Allocated ram_disk 100 2 volume blank_disk (alloc_cluster ram_disk volume blank_disk)
alloc_cluster-Allocated_example = alloc_cluster-Allocated ram_disk volume blank_disk

abbrev readme : List ℕ
readme = b'r' ∷ b'e' ∷ b'a' ∷ b'd' ∷ b'm' ∷ b'e' ∷ []

abbrev txt : List ℕ
txt = b'T' ∷ b'X' ∷ b'T' ∷ []

readme-IsField : IsField 8 readme
unfolding is_upper
readme-IsField = record {
  fits = omega arith;
  ends = λ i last e. by_last i (omega arith) e;
  uniform = inl (refl, (refl, (refl, (refl, (refl, (refl, tt))))));
}
  where
    by_last : (i : ℕ) → i ≡ 5 → get_or readme i 0 ≢ 32
    by_last i at_five e = let wrong : get_or readme 5 0 ≡ 32 = rw at_five at e in omega arith

txt-IsField : IsField 3 txt
unfolding is_lower
txt-IsField = record {
  fits = omega arith;
  ends = λ i last e. by_last i (omega arith) e;
  uniform = inr (refl, (refl, (refl, tt)));
}
  where
    by_last : (i : ℕ) → i ≡ 2 → get_or txt i 0 ≢ 32
    by_last i at_two e = let wrong : get_or txt 2 0 ≡ 32 = rw at_two at e in omega arith

decode_83-encode_83_example : decode_83 (encode_83 (joined readme txt)) ≡ joined readme txt
decode_83-encode_83_example =
    decode_83-encode_83 readme txt readme-IsField txt-IsField
      (refl, (refl, (refl, (refl, (refl, (refl, tt))))))

-- A disk whose table leads from cluster 5 to cluster 6.
abbrev chained : ℕ → List ℕ
chained = (write_fat ram_disk volume 5 6 blank_disk).1

chained-Apart :
    Apart ram_disk volume
      (515 / cluster_bytes volume)
      5
      (sector_of volume 6 (515 % cluster_bytes volume))
      chained
unfolding follow cluster_bytes sector_of cluster_to_lba fat_sector
chained-Apart zero k lt e = let same : 5 ≡ k = cc in rw (sym same) (λ f. absurd (omega (arith, f)))
chained-Apart (suc i) k lt e = absurd (omega arith)

chained-follow : follow ram_disk (515 / cluster_bytes volume) volume 5 chained ≡ some 6
unfolding follow cluster_bytes is_end is_eoc read_fat entry_of load little fat_sector fat_byte
    write_fat write_entry write_copies with_entry store copy_sector checked is_sector all_bytes
chained-follow = refl

readme-written : (chain_write ram_disk volume 5 515 readme chained).1 ≡ wrote 6
unfolding chain_write chain_from write_from and_then begin reach next_cluster cluster_bytes is_end
    is_eoc read_fat entry_of checked is_sector write_fat write_entry all_bytes write_copies little
    first_of go_on part sector_of write_done write_loop write_part cluster_to_lba copy_sector
    fat_byte fat_sector load store with_entry copy_in
readme-written = refl

chain_read-chain_write_example :
    chain_read ram_disk volume 5 515 6 (chain_write ram_disk volume 5 515 readme chained).2 ≡ readme
unfolding cluster_bytes is_end is_eoc all_bytes
chain_read-chain_write_example =
    chain_read-chain_write ram_disk volume 5 6 515 b'r' (b'e' ∷ b'a' ∷ b'd' ∷ b'm' ∷ b'e' ∷ [])
      chained ram_disk-IsDisk (omega arith) (omega arith) refl chained-follow chained-Apart
      (all_bytes→below readme refl) (omega arith) readme-written
