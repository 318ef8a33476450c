-- ===== src/Vmm/Tests.antt =====
-- A page mapped in an empty address space.
use knail.Prelude.{ℕ, ◌≡◌, ◌%◌, ◌^◌, ◌<◌, refl, [], ◌∷◌, arith}
use knail.Vmm.{
  Vmm, has, entry_phys, set_table, set_entry, alloc_frame_from, alloc_frame, zeroed, alloc_table,
  link_into, get_or_create, table_flags, pml4_idx, pdpt_idx, pd_idx, pt_idx, below, map_page,
  virt_to_phys,
}
use knail.Vmm.Flags.{IsPage}
use knail.Vmm.Mapped.{virt_to_phys-map_page}

abbrev empty : Vmm
empty = record {
  mem = λ t i. 0;
  supply = 0x2000 ∷ 0x3000 ∷ 0x4000 ∷ [];
  freed = [];
  cr3 = 0;
  kernel_space = 0;
}

page : (p : ℕ) → p % 4096 ≡ 0 → p < 2 ^ 52 → IsPage p
page p a s = record { aligned = a; small = s }

virt_to_phys-map_page_example :
    virt_to_phys 0x1000 0x400123 (map_page 0x1000 0x400000 0x7000 7 empty).1 ≡ 0x7123
unfolding entry_phys map_page below get_or_create link_into alloc_table alloc_frame alloc_frame_from
    zeroed has table_flags set_entry set_table pml4_idx pdpt_idx pd_idx pt_idx
virt_to_phys-map_page_example =
    virt_to_phys-map_page 0x1000 0x400000 0x7000 7 0x400123 empty
      (
        (λ ne. page 0x2000 refl (omega arith)),
        ((λ ne. page 0x3000 refl (omega arith)), ((λ ne. page 0x4000 refl (omega arith)), tt)),
      )
      (omega arith) refl
      (record {
        top1 = omega arith;
        top2 = omega arith;
        top3 = omega arith;
        mid2 = omega arith;
        mid3 = omega arith;
        low3 = omega arith;
      })
      refl refl
