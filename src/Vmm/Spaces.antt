-- ===== src/Vmm/Spaces.antt =====
-- arch/x86_64/vmm.cpp: the address spaces of the kernel and of tasks, `init`, `create_user_space`,
-- `clone_user_space`, `destroy_user_space` and `activate`. A table is a page of 512 words, so the
-- copy of a page is that of its 512 entries.
use knail.Prelude.{
  ℕ, zero, suc, ◌+◌, ◌*◌, ◌-◌, ◌^◌, Bool, true, false, not, ◌||◌, leb, ◌==◌, if◌then◌else◌,
}
use Prim.Native.Nat.{bit_and, bit_or}
use knail.Vmm.{
  Vmm, flag_present, flag_write, flag_user, flag_huge, has, set_table, set_entry, alloc_table,
  alloc_frame, free_frame, map_page,
}

-- `reinterpret_cast<uint64_t>(table) | FLAG_PRESENT | FLAG_WRITE`
abbrev linked : ℕ → ℕ
linked t = bit_or (bit_or t flag_present) flag_write

-- The 512 huge pages of the first GiB.
abbrev first_gib : ℕ → ℕ
first_gib i = bit_or (bit_or (bit_or (i * 0x200000) flag_present) flag_write) flag_huge

-- A new table below entry `k` of another one, as `init` makes it, without a look at a failure.
unfoldable pub hang : ℕ → ℕ → ℕ × Vmm → ℕ × Vmm
hang t k (child, v) = (child, set_entry t k (linked child) v)

unfoldable pub init_high : ℕ → ℕ × Vmm → Vmm
init_high pml4 (hi_pdpt, v) =
    let (hi_pd, v1) = hang hi_pdpt 510 (alloc_table v) in
    record (set_table hi_pd first_gib v1) { cr3 = pml4 }

unfoldable pub init_low : ℕ → ℕ × Vmm → Vmm
init_low pml4 (pdpt, v) =
    let (pd, v1) = hang pdpt 0 (alloc_table v) in
    init_high pml4 (hang pml4 511 (alloc_table (set_table pd first_gib v1)))

unfoldable pub init_from : ℕ × Vmm → Vmm
init_from (pml4, v) =
    if pml4 == 0
    then v
    else init_low pml4 (hang pml4 0 (alloc_table (record v { kernel_space = pml4 })))

unfoldable pub init : Vmm → Vmm
init v = init_from (alloc_table v)

-- The upper half of the kernel's table in another one.
unfoldable pub share_kernel : ℕ → Vmm → Vmm
share_kernel pml4 v =
    set_table pml4 (λ i. if leb 256 i then v.mem v.kernel_space i else v.mem pml4 i) v

unfoldable pub user_low : ℕ → ℕ → ℕ × Vmm → ℕ × Vmm
user_low pml4 low_pdpt (low_pd, v) =
    let v1 = set_entry pml4 0 (linked low_pdpt) v in
    let v2 = set_entry low_pdpt 0 (linked low_pd) v1 in
    if low_pd == 0
    then (pml4, free_frame low_pdpt v)
    else (pml4, share_kernel pml4 (set_table low_pd first_gib v2))

unfoldable pub user_pdpt : ℕ → ℕ × Vmm → ℕ × Vmm
user_pdpt pml4 (low_pdpt, v) =
    if low_pdpt == 0 then (pml4, v) else user_low pml4 low_pdpt (alloc_table v)

unfoldable pub user_pml4 : ℕ × Vmm → ℕ × Vmm
user_pml4 (pml4, v) =
    let lower = set_table pml4 (λ i. if leb 256 i then v.mem pml4 i else 0) v in
    if pml4 == 0 then (0, v) else user_pdpt pml4 (alloc_table lower)

-- The new table, 0 for a failure.
unfoldable pub create_user_space : Vmm → ℕ × Vmm
create_user_space v = user_pml4 (alloc_table v)

-- `e & ~0xFFF`
unfoldable pub page_of : ℕ → ℕ
page_of e = bit_and e (2 ^ 64 - 4096)

-- A loop over the entries from `i` on, by their number.
unfoldable pub free_each : ℕ → ℕ → (ℕ → Vmm → Vmm) → Vmm → Vmm
free_each zero i body v = v
free_each (suc n) i body v = free_each n (i + 1) body (body i v)

-- The three bodies of `destroy_user_space`, from the page directory up.
unfoldable pub free_pde : ℕ → ℕ → Vmm → Vmm
free_pde pd k v =
    let e = v.mem pd k in
    if not (has e flag_present) || has e flag_huge then v else free_frame (page_of e) v

unfoldable pub free_pdpte : ℕ → ℕ → Vmm → Vmm
free_pdpte pdpt j v =
    let e = v.mem pdpt j in
    if not (has e flag_present) || has e flag_huge
    then v
    else free_frame (page_of e) (free_each 512 0 (free_pde (page_of e)) v)

unfoldable pub free_pml4e : ℕ → ℕ → Vmm → Vmm
free_pml4e pml4 i v =
    let e = v.mem pml4 i in
    if not (has e flag_present)
    then v
    else free_frame (page_of e) (free_each 512 0 (free_pdpte (page_of e)) v)

-- `destroy_user_space`, up to the reset of the caller's pointer.
unfoldable pub destroy_user_space : ℕ → Vmm → Vmm
destroy_user_space pml4 v =
    if pml4 == 0 then v else free_frame pml4 (free_each 256 0 (free_pml4e pml4) v)

-- A loop over the entries that ends with the first body that fails.
unfoldable pub copy_each : ℕ → ℕ → (ℕ → Vmm → Bool × Vmm) → Vmm → Bool × Vmm
copy_each zero i body v = (true, v)
copy_each (suc n) i body v =
    let (done, v1) = body i v in
    let rest = copy_each n (i + 1) body v1 in if done then rest else (false, v1)

-- One page of `clone_user_space`, behind the mapping and behind the allocation.
unfoldable pub copy_mapped : ℕ → ℕ → ℕ → Bool × Vmm → Bool × Vmm
copy_mapped dst src_phys dst_phys (false, v) =
    (false, destroy_user_space dst (free_frame dst_phys v))
copy_mapped dst src_phys dst_phys (true, v) = (true, set_table dst_phys (v.mem src_phys) v)

unfoldable pub copy_to : ℕ → ℕ → ℕ → ℕ × Vmm → Bool × Vmm
copy_to dst va pte (dst_phys, v) =
    let kept = bit_and pte (2 ^ 63 + 7) in
    if dst_phys == 0
    then (false, destroy_user_space dst v)
    else copy_mapped dst (page_of pte) dst_phys (map_page dst va dst_phys kept v)

unfoldable pub copy_pte : ℕ → ℕ → ℕ → ℕ → Vmm → Bool × Vmm
copy_pte dst va pt i v =
    let pte = v.mem pt i in
    if not (has pte flag_present) || not (has pte flag_user)
    then (true, v)
    else copy_to dst (va + i * 2 ^ 12) pte (alloc_frame v)

unfoldable pub copy_pde : ℕ → ℕ → ℕ → ℕ → Vmm → Bool × Vmm
copy_pde dst va pd i v =
    let pde = v.mem pd i in
    if not (has pde flag_present) || has pde flag_huge
    then (true, v)
    else copy_each 512 0 (copy_pte dst (va + i * 2 ^ 21) (page_of pde)) v

unfoldable pub copy_pdpte : ℕ → ℕ → ℕ → ℕ → Vmm → Bool × Vmm
copy_pdpte dst va pdpt i v =
    let pdpte = v.mem pdpt i in
    if not (has pdpte flag_present) || has pdpte flag_huge
    then (true, v)
    else copy_each 512 0 (copy_pde dst (va + i * 2 ^ 30) (page_of pdpte)) v

unfoldable pub copy_pml4e : ℕ → ℕ → ℕ → Vmm → Bool × Vmm
copy_pml4e dst src i v =
    let pml4e = v.mem src i in
    if not (has pml4e flag_present) || has pml4e flag_huge
    then (true, v)
    else copy_each 512 0 (copy_pdpte dst (i * 2 ^ 39) (page_of pml4e)) v

unfoldable pub clone_into : ℕ → ℕ × Vmm → ℕ × Vmm
clone_into src (dst, v) =
    let (done, v1) = copy_each 256 0 (copy_pml4e dst src) v in
    if (dst == 0) || (src == 0) then (dst, v) else if done then (dst, v1) else (0, v1)

unfoldable pub clone_user_space : ℕ → Vmm → ℕ × Vmm
clone_user_space src v = clone_into src (create_user_space v)

unfoldable pub synced : ℕ → Vmm → Vmm
synced pml4 v =
    let v1 =
      if has (v.mem pml4 0) flag_present then v else set_entry pml4 0 (v.mem v.kernel_space 0) v in
    share_kernel pml4 v1

unfoldable pub activate : ℕ → Vmm → Vmm
activate pml4 v =
    let v1 = if (pml4 == 0) || (pml4 == v.kernel_space) then v else synced pml4 v in
    record v1 { cr3 = pml4 }
