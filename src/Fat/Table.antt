-- ===== src/Fat/Table.antt =====
-- fs/fat32.cpp: `read_fat` returns what `write_fat` wrote.
use native.Mathlib.Nat.{mul-le-mul_right}
use knail.Elf.{little}
use knail.Prelude.{
  ℕ, zero, suc, ◌+◌, ◌*◌, ◌/◌, ◌%◌, ◌^◌, ◌≤◌, ◌<◌, ◌≡◌, ◌≢◌, ◌⊎◌, inl, inr, refl, sym, ap₂, ◌∙◌,
  true, false, some, List, [], ◌∷◌, get_or, set, length, length-set, get_or-set_self, get_or-set_ne,
  arith, Bool-cases,
}
use knail.Fat.{Device, Fat32Mount, store, load, copy_sector, fat_sector, write_copies}

-- What the driver relies on: a sector is 512 bytes, a write of one that succeeds is what a read of
-- the sector returns, and it leaves the other sectors.
pub record IsDisk (D : Device) : Type 0 where
  pub sized : (lba : ℕ) (s : D.State) (buf : List ℕ) → D.read lba s ≡ some buf → length buf ≡ 512
  pub bytes :
      (lba : ℕ) (s : D.State) (buf : List ℕ)
      → D.read lba s ≡ some buf
      → (i : ℕ) → get_or buf i 0 < 256
  pub kept :
      (lba : ℕ) (buf : List ℕ) (s : D.State)
      → length buf ≡ 512
      → ((i : ℕ) → get_or buf i 0 < 256)
      → (D.write lba buf s).0 ≡ true
      → D.read lba (D.write lba buf s).1 ≡ some buf
  pub apart :
      (lba other : ℕ) (buf : List ℕ) (s : D.State)
      → other ≢ lba
      → (D.write lba buf s).0 ≡ true
      → D.read other (D.write lba buf s).1 ≡ D.read other s

-- `n` bytes hold the number.
abbrev pub Fits : ℕ → ℕ → Type 0
Fits zero v = v ≡ 0
Fits (suc n) v = Fits n (v / 256)

little_of :
    (n at : ℕ) (f g : ℕ → ℕ)
    → ((i : ℕ) → at ≤ i → i < at + n → f i ≡ g i)
    → little n f at ≡ little n g at
unfolding little
little_of zero at f g h = refl
little_of (suc n) at f g h =
    ap₂ (λ (x y : ℕ). x + 256 * y) (h at (omega arith) (omega arith))
      (little_of n (at + 1) f g (λ i ge lt. h i (omega arith) (omega arith)))

pub length-store : (n at v : ℕ) (buf : List ℕ) → length (store n at v buf) ≡ length buf
unfolding store
length-store zero at v buf = refl
length-store (suc n) at v buf =
    length-set (store n (at + 1) (v / 256) buf) at (v % 256) ∙ length-store n (at + 1) (v / 256) buf

set-below :
    (xs : List ℕ) (at v : ℕ)
    → ((i : ℕ) → get_or xs i 0 < 256)
    → v < 256
    → (i : ℕ) → get_or (set xs at v) i 0 < 256
set-below [] at v h lt i = h i
set-below (x ∷ xs) zero v h lt zero = lt
set-below (x ∷ xs) zero v h lt (suc i) = h (suc i)
set-below (x ∷ xs) (suc at) v h lt zero = h 0
set-below (x ∷ xs) (suc at) v h lt (suc i) = set-below xs at v (λ j. h (suc j)) lt i

pub store-below :
    (n at v : ℕ) (buf : List ℕ)
    → ((i : ℕ) → get_or buf i 0 < 256)
    → (i : ℕ) → get_or (store n at v buf) i 0 < 256
unfolding store
store-below zero at v buf h i = h i
store-below (suc n) at v buf h i =
    set-below (store n (at + 1) (v / 256) buf) at (v % 256) (store-below n (at + 1) (v / 256) buf h)
      (omega arith) i

get_or-store :
    (n at v i : ℕ) (buf : List ℕ)
    → (i < at) ⊎ (at + n ≤ i)
    → get_or (store n at v buf) i 0 ≡ get_or buf i 0
unfolding store
get_or-store zero at v i buf off = refl
get_or-store (suc n) at v i buf off =
    get_or-set_ne (store n (at + 1) (v / 256) buf) at i (v % 256) 0 (λ e. beside off e)
    ∙ get_or-store n (at + 1) (v / 256) i buf (shifted off)
  where
    beside : (i < at) ⊎ (at + suc n ≤ i) → at ≢ i
    beside (inl lt) e = omega arith
    beside (inr ge) e = omega arith

    shifted : (i < at) ⊎ (at + suc n ≤ i) → (i < at + 1) ⊎ (at + 1 + n ≤ i)
    shifted (inl lt) = inl (omega arith)
    shifted (inr ge) = inr (omega arith)

pub load-store :
    (n at v : ℕ) (buf : List ℕ) → at + n ≤ length buf → Fits n v → load n at (store n at v buf) ≡ v
unfolding load store little
load-store zero at v buf le fits = sym fits
load-store (suc n) at v buf le fits =
    let inner = store n (at + 1) (v / 256) buf in
    let low : get_or (set inner at (v % 256)) at 0 ≡ v % 256 =
      get_or-set_self inner at (v % 256) 0 (omega (arith, length-store n (at + 1) (v / 256) buf)) in
    let high : little n (λ i. get_or (set inner at (v % 256)) i 0) (at + 1) ≡ v / 256 =
      little_of n (at + 1) (λ i. get_or (set inner at (v % 256)) i 0) (λ i. get_or inner i 0)
        (λ i ge lt. get_or-set_ne inner at i (v % 256) 0 (λ e. omega arith))
      ∙ load-store n (at + 1) (v / 256) buf (omega arith) fits in
    rw (low, high) (omega arith)

pub load-store_apart :
    (n at other v : ℕ) (buf : List ℕ)
    → (other + n ≤ at) ⊎ (at + n ≤ other)
    → load n other (store n at v buf) ≡ load n other buf
unfolding load
load-store_apart n at other v buf off =
    little_of n other (λ i. get_or (store n at v buf) i 0) (λ i. get_or buf i 0)
      (λ i ge lt. get_or-store n at v i buf (beside off i ge lt))
  where
    beside :
        (other + n ≤ at) ⊎ (at + n ≤ other)
        → (i : ℕ) → other ≤ i
        → i < other + n
        → (i < at) ⊎ (at + n ≤ i)
    beside (inl low) i ge lt = inl (omega arith)
    beside (inr high) i ge lt = inr (omega arith)

mul_room : (f n z : ℕ) → f < n → f * z + z ≤ n * z
mul_room f n z lt = let h : suc f * z ≤ n * z = mul-le-mul_right z lt in omega (arith, h)

-- The entry of the cluster lies in the table, and the copies of the table below sector 2^32.
pub record IsCovered (m : Fat32Mount) (cluster : ℕ) : Type 0 where
  pub copies : 1 ≤ m.num_fats
  pub within : cluster / 128 < m.fat_size
  pub low : m.fat_start + m.num_fats * m.fat_size < 2 ^ 32
  pub word : cluster < 2 ^ 30

pub fat_sector_lem :
    (m : Fat32Mount) (cluster : ℕ)
    → IsCovered m cluster
    → fat_sector m cluster ≡ m.fat_start + cluster / 128
unfolding fat_sector
fat_sector_lem m cluster c =
    let one = mul_room 0 m.num_fats m.fat_size c.copies in
    omega (arith, one, c.within, c.low, c.word)

module _ (D : Device) (disk : IsDisk D) (m : Fat32Mount) (cluster : ℕ)
    (covered : IsCovered m cluster) where
  -- The sector of the entry in copy `f`.
  pub copy_sector_lem :
      (f : ℕ)
      → f < m.num_fats
      → copy_sector f m cluster ≡ m.fat_start + f * m.fat_size + cluster / 128
  unfolding copy_sector
  copy_sector_lem f lt =
      let room = mul_room f m.num_fats m.fat_size lt in
      omega (arith, room, covered.within, covered.low, covered.word)

  -- The copies from `f` on leave a sector that is none of theirs.
  pub write_copies-apart :
      (left f other : ℕ) (buf : List ℕ) (s : D.State)
      → f + left ≡ m.num_fats
      → ((g : ℕ) → f ≤ g → g < m.num_fats → other ≢ copy_sector g m cluster)
      → (write_copies D left f m cluster buf s).0 ≡ true
      → D.read other (write_copies D left f m cluster buf s).1 ≡ D.read other s
  unfolding write_copies
  write_copies-apart zero f other buf s count off done = refl
  write_copies-apart (suc left) f other buf s count off done =
      let lba = copy_sector f m cluster in
      let s1 = (D.write lba buf s).1 in
      elim (Bool-cases (D.write lba buf s).0) [
        | inl e ↦ rw e (
            write_copies-apart left (f + 1) other buf s1 (omega arith)
              (λ g ge lt. off g (omega arith) lt) (rw e at done)
            ∙ disk.apart lba other buf s (off f (omega arith) (omega arith)) e)
        | inr e ↦ absurd (let failed : false ≡ true = rw e at done in cc)
      ]

  pub later_ne :
      (q g : ℕ)
      → q < m.fat_start + m.fat_size
      → 1 ≤ g
      → g < m.num_fats
      → q ≢ copy_sector g m cluster
  later_ne q g low ge lt e =
      let room = mul_room 0 g m.fat_size ge in omega (arith, room, copy_sector_lem g lt)

  -- The first copy holds the sector behind the writes.
  pub write_copies-first :
      (left : ℕ) (buf : List ℕ) (s : D.State)
      → suc left ≡ m.num_fats
      → length buf ≡ 512
      → ((i : ℕ) → get_or buf i 0 < 256)
      → (write_copies D (suc left) 0 m cluster buf s).0 ≡ true
      → D.read (fat_sector m cluster) (write_copies D (suc left) 0 m cluster buf s).1 ≡ some buf
  unfolding write_copies
  write_copies-first left buf s count sized bytes done =
      let lba = copy_sector 0 m cluster in
      let same : fat_sector m cluster ≡ lba =
        omega (arith, fat_sector_lem m cluster covered, copy_sector_lem 0 (omega arith)) in
      elim (Bool-cases (D.write lba buf s).0) [
        | inl e ↦
            rw (e, same)
              (write_copies-apart left 1 lba buf (D.write lba buf s).1 (omega arith)
                  (λ g ge lt.
                    later_ne lba g (omega (arith, fat_sector_lem m cluster covered, covered.within))
                      ge lt)
                  (rw e at done)
                ∙ disk.kept lba buf s sized bytes e)
        | inr e ↦ absurd (let failed : false ≡ true = rw e at done in cc)
      ]
