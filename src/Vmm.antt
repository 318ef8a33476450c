-- ===== src/Vmm.antt =====
-- arch/x86_64/vmm.cpp: page tables. A `PageTable*` is the physical address of the table, 0 the
-- null pointer, and `mem` the entries at a table and an index below 512. A `PTE` is a number of 64
-- bits. The flush of a translation (`invlpg`) and the messages are left out.
pub mod Flags
pub mod Mapped
pub mod Spaces
pub mod Tables
mod Tests
use knail.Prelude.{
  ℕ, zero, suc, ◌+◌, ◌*◌, ◌/◌, ◌%◌, ◌^◌, Bool, true, false, not, List, [], ◌∷◌, ◌==◌, if◌then◌else◌,
}
use Prim.Native.Nat.{bit_and, bit_or}

abbrev pub flag_present : ℕ
flag_present = 1

abbrev pub flag_write : ℕ
flag_write = 2

abbrev pub flag_user : ℕ
flag_user = 4

abbrev pub flag_huge : ℕ
flag_huge = 128

-- `supply` are the addresses that the next calls of `pmm::alloc_frame` return, 0 for a failure,
-- `freed` those that went to `pmm::free_frame`, the last one first; `cr3` is the table in use and
-- `kernel_space` the one of the kernel.
pub record Vmm : Type 0 where
  pub mem : ℕ → ℕ → ℕ
  pub supply : List ℕ
  pub freed : List ℕ
  pub cr3 : ℕ
  pub kernel_space : ℕ

-- The four indices of an address.
unfoldable pub pml4_idx : ℕ → ℕ
pml4_idx v = v / 2 ^ 39 % 512

unfoldable pub pdpt_idx : ℕ → ℕ
pdpt_idx v = v / 2 ^ 30 % 512

unfoldable pub pd_idx : ℕ → ℕ
pd_idx v = v / 2 ^ 21 % 512

unfoldable pub pt_idx : ℕ → ℕ
pt_idx v = v / 2 ^ 12 % 512

unfoldable pub entry_phys : ℕ → ℕ
entry_phys e = bit_and e 0x000FFFFFFFFFF000

-- `e & flag`, for one flag.
unfoldable pub has : ℕ → ℕ → Bool
has e flag = not (bit_and e flag == 0)

-- A table with other entries, and one other entry of a table.
unfoldable pub set_table : ℕ → (ℕ → ℕ) → Vmm → Vmm
set_table t row v = record v { mem = λ u i. if u == t then row i else v.mem u i }

unfoldable pub set_entry : ℕ → ℕ → ℕ → Vmm → Vmm
set_entry t k e v = set_table t (λ i. if i == k then e else v.mem t i) v

unfoldable pub alloc_frame_from : List ℕ → Vmm → ℕ × Vmm
alloc_frame_from [] v = (0, v)
alloc_frame_from (p ∷ ps) v = (p, record v { supply = ps })

unfoldable pub alloc_frame : Vmm → ℕ × Vmm
alloc_frame v = alloc_frame_from v.supply v

unfoldable pub free_frame : ℕ → Vmm → Vmm
free_frame p v = record v { freed = p ∷ v.freed }

unfoldable pub zeroed : ℕ × Vmm → ℕ × Vmm
zeroed (phys, v) = if phys == 0 then (0, v) else (phys, set_table phys (λ i. 0) v)

unfoldable pub alloc_table : Vmm → ℕ × Vmm
alloc_table v = zeroed (alloc_frame v)

-- `PRESENT` and `WRITE`, and `USER` with the caller's flag.
unfoldable pub table_flags : ℕ → ℕ
table_flags flags = if has flags flag_user then 7 else 3

-- What `get_or_create` does with the new table: the split of a huge page, and a table that was
-- absent.
unfoldable pub split_into : ℕ → ℕ → ℕ → ℕ → ℕ × Vmm → ℕ × Vmm
split_into t k e flags (pt, v) =
    let eflags = bit_and e 0xF7F in
    let filled = set_table pt (λ i. bit_or ((entry_phys e + i * 0x1000) % 2 ^ 64) eflags) v in
    let entry = bit_or pt (table_flags flags) in
    if pt == 0 then (0, v) else (entry_phys entry, set_entry t k entry filled)

unfoldable pub link_into : ℕ → ℕ → ℕ → ℕ × Vmm → ℕ × Vmm
link_into t k flags (child, v) =
    if child == 0 then (0, v) else (child, set_entry t k (bit_or child flags) v)

-- The entry with the `USER` flag that the caller wants.
unfoldable pub opened : ℕ → ℕ → ℕ
opened e flags = if has flags flag_user then bit_or e flag_user else e

-- The branch for an entry that is present, behind the write of the flag.
unfoldable pub present_child : ℕ → ℕ → ℕ → Vmm → ℕ × Vmm
present_child t k flags v =
    let e = v.mem t k in
    if has e flag_huge then split_into t k e flags (alloc_table v) else (entry_phys e, v)

-- The child of entry `k` of table `t`, 0 for a failure.
unfoldable pub get_or_create : ℕ → ℕ → ℕ → Vmm → ℕ × Vmm
get_or_create t k flags v =
    if has (v.mem t k) flag_present
    then present_child t k flags (set_entry t k (opened (v.mem t k) flags) v)
    else link_into t k flags (alloc_table v)

-- The next step of the walk, unless the table is null.
unfoldable pub below : ℕ × Vmm → (ℕ → Vmm → Bool × Vmm) → Bool × Vmm
below (t, v) next = if t == 0 then (false, v) else next t v

unfoldable pub map_page : ℕ → ℕ → ℕ → ℕ → Vmm → Bool × Vmm
map_page pml4 virt phys flags v =
    let wanted = table_flags flags in
    below (get_or_create pml4 (pml4_idx virt) wanted v) (λ pdpt v1.
      below (get_or_create pdpt (pdpt_idx virt) wanted v1) (λ pd v2.
        below (get_or_create pd (pd_idx virt) wanted v2)
          (λ pt v3. (true, set_entry pt (pt_idx virt) (bit_or (entry_phys phys) flags) v3))))

unfoldable pub unmap_page : ℕ → ℕ → Vmm → Vmm
unmap_page pml4 virt v =
    let l4e = v.mem pml4 (pml4_idx virt) in
    let l3e = v.mem (entry_phys l4e) (pdpt_idx virt) in
    let l2e = v.mem (entry_phys l3e) (pd_idx virt) in
    if not (has l4e flag_present)
    then v
    else if not (has l3e flag_present)
    then v
    else if not (has l2e flag_present)
    then v
    else set_entry (entry_phys l2e) (pt_idx virt) 0 v

unfoldable pub virt_to_phys : ℕ → ℕ → Vmm → ℕ
virt_to_phys pml4 virt v =
    let l4e = v.mem pml4 (pml4_idx virt) in
    let l3e = v.mem (entry_phys l4e) (pdpt_idx virt) in
    let l2e = v.mem (entry_phys l3e) (pd_idx virt) in
    let l1e = v.mem (entry_phys l2e) (pt_idx virt) in
    if not (has l4e flag_present)
    then 0
    else if not (has l3e flag_present)
    then 0
    else if not (has l2e flag_present)
    then 0
    else if has l2e flag_huge
    then (entry_phys l2e + virt % 2 ^ 21) % 2 ^ 64
    else if not (has l1e flag_present)
    then 0
    else (entry_phys l1e + virt % 2 ^ 12) % 2 ^ 64
