-- ===== src/Fat/ReadBack.antt =====
-- fs/fat32.cpp: an entry of the table behind `write_fat`, and `alloc_cluster`.
use knail.Elf.{little}
use knail.Prelude.{
  ℕ, zero, suc, ◌+◌, ◌*◌, ◌/◌, ◌%◌, ◌^◌, ◌≤◌, ◌<◌, ◌≡◌, ◌≢◌, ◌⊎◌, inl, inr, refl, ap, ◌∙◌, true,
  false, some, List, ltb, ◌==◌, if◌then◌else◌, get_or, length, arith, Bool-cases, Option-cases,
}
use knail.Fat.{
  Device, Fat32Mount, load, copy_sector, fat_sector, fat_byte, entry_of, with_entry, read_fat,
  write_copies, write_entry, write_fat,
}
use knail.Fat.Table.{
  IsDisk, IsCovered, Fits, length-store, store-below, load-store, load-store_apart, fat_sector_lem,
  copy_sector_lem, later_ne, write_copies-apart, write_copies-first,
}

fat_byte_lem : (c : ℕ) → c < 2 ^ 30 → fat_byte c ≡ c % 128 * 4
unfolding fat_byte
fat_byte_lem c h = omega arith

load_lt : (at : ℕ) (buf : List ℕ) → ((i : ℕ) → get_or buf i 0 < 256) → load 4 at buf < 2 ^ 32
unfolding load little
load_lt at buf h = omega (arith, h at, h (at + 1), h (at + 1 + 1), h (at + 1 + 1 + 1))

Fits-word : (v : ℕ) → v < 2 ^ 32 → Fits 4 v
Fits-word v h = omega arith

module _ (buf : List ℕ) (sized : length buf ≡ 512) (bytes : (i : ℕ) → get_or buf i 0 < 256) where
  entry_of-with_entry : (c v : ℕ) → c < 2 ^ 30 → entry_of c (some (with_entry c v buf)) ≡ v % 2 ^ 28
  unfolding entry_of with_entry
  entry_of-with_entry c v word =
      let at = fat_byte c in
      let w = v % 2 ^ 28 + load 4 at buf / 2 ^ 28 * 2 ^ 28 in
      let small : w < 2 ^ 32 = omega (arith, load_lt at buf bytes) in
      rw (load-store 4 at w buf (omega (arith, fat_byte_lem c word)) (Fits-word w small))
        (omega arith)

  entry_of-apart :
      (c other v : ℕ)
      → c < 2 ^ 30
      → other < 2 ^ 30
      → c % 128 ≢ other % 128
      → entry_of other (some (with_entry c v buf)) ≡ entry_of other (some buf)
  unfolding entry_of with_entry
  entry_of-apart c other v word word' ne =
      ap (λ (k : ℕ). k % 2 ^ 28)
        (load-store_apart 4 (fat_byte c) (fat_byte other) _ buf
          (sides (fat_byte_lem c word) (fat_byte_lem other word')))
    where
      sides :
          fat_byte c ≡ c % 128 * 4
          → fat_byte other ≡ other % 128 * 4
          → (fat_byte other + 4 ≤ fat_byte c) ⊎ (fat_byte c + 4 ≤ fat_byte other)
      sides e f = elim (Bool-cases (ltb (c % 128) (other % 128))) [
        | inl below ↦ inr (ground (arith, ne))
        | inr above ↦ inl (ground (arith, ne))
      ]

with_entry-below :
    (buf : List ℕ) (c v : ℕ)
    → ((i : ℕ) → get_or buf i 0 < 256)
    → (i : ℕ) → get_or (with_entry c v buf) i 0 < 256
unfolding with_entry
with_entry-below buf c v h i = store-below 4 (fat_byte c) _ buf h i

length-with_entry : (buf : List ℕ) (c v : ℕ) → length (with_entry c v buf) ≡ length buf
unfolding with_entry
length-with_entry buf c v = length-store 4 (fat_byte c) _ buf

module _ (D : Device) (disk : IsDisk D) (m : Fat32Mount) (cluster value other : ℕ)
    (covered : IsCovered m cluster) (covered' : IsCovered m other) where
  -- What stands in the table behind the writes of a sector.
  entry_behind :
      (n : ℕ) (s : D.State) (buf : List ℕ)
      → n ≡ m.num_fats
      → D.read (fat_sector m cluster) s ≡ some buf
      → (write_copies D n 0 m cluster (with_entry cluster value buf) s).0 ≡ true
      → read_fat D m other (write_copies D n 0 m cluster (with_entry cluster value buf) s).1
        ≡ (if other == cluster then value % 2 ^ 28 else read_fat D m other s)
  unfolding read_fat
  entry_behind zero s buf count found done = absurd (omega (arith, covered.copies))
  entry_behind (suc left) s buf count found done =
      let sized = disk.sized (fat_sector m cluster) s buf found in
      let bytes = disk.bytes (fat_sector m cluster) s buf found in
      let new = with_entry cluster value buf in
      let first =
        write_copies-first D disk m cluster covered left new s count
          (length-with_entry buf cluster value ∙ sized) (with_entry-below buf cluster value bytes)
          done in
      elim (Bool-cases (other == cluster)) [
        | inl e ↦
            let same : other ≡ cluster = ground arith in
            rw (e, same, first) (entry_of-with_entry buf sized bytes cluster value covered.word)
        | inr e ↦ elim (Bool-cases (fat_sector m other == fat_sector m cluster)) [
          | inl f ↦
              let same : fat_sector m other ≡ fat_sector m cluster = ground arith in
              rw (e, same, first, found)
                (entry_of-apart buf sized bytes cluster other value covered.word covered'.word (λ g.
                  let ne : other ≢ cluster = ground arith in
                  ne (
                    omega (
                      arith,
                      g,
                      same,
                      fat_sector_lem m other covered',
                      fat_sector_lem m cluster covered,
                    ))))
          | inr f ↦ rw e (
              ap (entry_of other) (
                write_copies-apart D disk m cluster covered (suc left) 0 (fat_sector m other) new s
                  (omega (arith, count)) (λ g ge lt. off_copies (ground arith) g lt) done))
        ]
      ]
    where
      off_copies :
          fat_sector m other ≢ fat_sector m cluster
          → (g : ℕ) → g < m.num_fats
          → fat_sector m other ≢ copy_sector g m cluster
      off_copies ne zero lt e = ne (
          omega (
            arith,
            e,
            fat_sector_lem m cluster covered,
            copy_sector_lem D disk m cluster covered 0 lt,
          ))
      off_copies ne (suc g) lt e =
          later_ne D disk m cluster covered (fat_sector m other) (suc g)
            (omega (arith, fat_sector_lem m other covered', covered'.within)) (omega arith) lt e

-- On a disk as the driver relies on, for two clusters whose entries the table covers: behind a
-- `write_fat` that succeeds, `read_fat` returns the low 28 bits of the value for the cluster that
-- was written, and for the other one what it returned before.
pub read_fat-write_fat :
    (D : Device)
    → IsDisk D
    → (m : Fat32Mount) (cluster value other : ℕ) (s : D.State) → IsCovered m cluster
    → IsCovered m other
    → (write_fat D m cluster value s).0 ≡ true
    → read_fat D m other (write_fat D m cluster value s).1
      ≡ (if other == cluster then value % 2 ^ 28 else read_fat D m other s)
unfolding write_fat write_entry
read_fat-write_fat D disk m cluster value other s covered covered' done =
    elim (Option-cases (D.read (fat_sector m cluster) s)) [
      | inl e ↦ absurd (let failed : false ≡ true = rw e at done in cc)
      | inr (buf, e) ↦ rw e (
          entry_behind D disk m cluster value other covered covered' m.num_fats s buf refl e
            (rw e at done))
    ]
