-- ===== src/Fat/Free.antt =====
-- fs/fat32.cpp: `alloc_cluster` takes the first cluster whose entry is 0.
use knail.Prelude.{
  ℕ, zero, suc, ◌+◌, ◌-◌, ◌%◌, ◌^◌, ◌≤◌, ◌<◌, ◌≡◌, ◌≢◌, ◌⊎◌, inl, inr, refl, ◌==◌, arith,
  Bool-cases,
}
use knail.Fat.{Device, Fat32Mount, read_fat, write_fat, alloc_from, alloc_cluster}

-- The outcome of the search in the `left` clusters from `c` on.
abbrev pub Allocated : (D : Device) → ℕ → ℕ → Fat32Mount → D.State → ℕ × D.State → Type 0
Allocated D left c m s (found, s') =
    ((found ≡ 0) × (s' ≡ s) × ((i : ℕ) → c ≤ i → i < c + left → read_fat D m i s ≢ 0))
    ⊎ ((c ≤ found)
        × (found < c + left)
        × (read_fat D m found s ≡ 0)
        × ((i : ℕ) → c ≤ i → i < found → read_fat D m i s ≢ 0)
        × (s' ≡ (write_fat D m found 0x0FFFFFFF s).1))

module _ (D : Device) (m : Fat32Mount) (s : D.State) where
  -- An entry that is not 0 before those searched changes nothing of the outcome.
  Allocated-before :
      (left c : ℕ) (r : ℕ × D.State)
      → read_fat D m c s ≢ 0
      → Allocated D left (c + 1) m s r
      → Allocated D (suc left) c m s r
  Allocated-before left c r used (inl (null, same, full)) =
      inl (null, same, λ i ge lt. at_or_behind i ge lt full)
    where
      at_or_behind :
          (i : ℕ)
          → c ≤ i
          → i < c + suc left
          → ((j : ℕ) → c + 1 ≤ j → j < c + 1 + left → read_fat D m j s ≢ 0)
          → read_fat D m i s ≢ 0
      at_or_behind i ge lt rest e = elim (Bool-cases (i == c)) [
        | inl here ↦ let same : i ≡ c = ground arith in used (rw same at e)
        | inr behind ↦ rest i (ground arith) (omega arith) e
      ]
  Allocated-before left c r used (inr (ge, lt, free, full, same)) =
      inr (omega arith, omega arith, free, λ i ge' lt'. at_or_behind i ge' lt', same)
    where
      at_or_behind : (i : ℕ) → c ≤ i → i < r.0 → read_fat D m i s ≢ 0
      at_or_behind i ge' lt' e = elim (Bool-cases (i == c)) [
        | inl here ↦ let same : i ≡ c = ground arith in used (rw same at e)
        | inr behind ↦ full i (ground arith) lt' e
      ]

  alloc_from-Allocated : (left c : ℕ) → Allocated D left c m s (alloc_from D left c m s)
  unfolding alloc_from
  alloc_from-Allocated zero c = inl (refl, refl, λ i ge lt e. omega arith)
  alloc_from-Allocated (suc left) c = elim (Bool-cases (read_fat D m c s == 0)) [
    | inl e ↦ rw e (inr (omega arith, omega arith, ground arith, λ i ge lt f. omega arith, refl))
    | inr e ↦ rw e (
        Allocated-before left c (alloc_from D left (c + 1) m s) (ground arith)
          (alloc_from-Allocated left (c + 1)))
  ]

-- `alloc_cluster` searches the clusters from 2 on and below `total_clusters + 2`, a number of 32
-- bits. It returns 0 and writes nothing exactly where no entry of theirs is 0; otherwise it returns
-- the first of them whose entry is 0, behind the write of the end mark.
pub alloc_cluster-Allocated :
    (D : Device) (m : Fat32Mount) (s : D.State)
    → Allocated D ((m.total_clusters + 2) % 2 ^ 32 - 2) 2 m s (alloc_cluster D m s)
unfolding alloc_cluster
alloc_cluster-Allocated D m s = alloc_from-Allocated D m s ((m.total_clusters + 2) % 2 ^ 32 - 2) 2
