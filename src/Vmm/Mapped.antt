-- ===== src/Vmm/Mapped.antt =====
-- arch/x86_64/vmm.cpp: `virt_to_phys` behind `map_page`.
use knail.Prelude.{
  ℕ, ◌+◌, ◌/◌, ◌%◌, ◌^◌, ◌<◌, ◌≡◌, ◌≢◌, refl, subst, sym, ap, ◌∙◌, Bool, true, false, ◌==◌, arith,
  Bool-cases, inl, inr,
}
use Prim.Native.Nat.{bit_or}
use knail.Vmm.{
  Vmm, flag_present, has, entry_phys, set_entry, get_or_create, table_flags, pml4_idx, pdpt_idx,
  pd_idx, pt_idx, below, map_page, virt_to_phys,
}
use knail.Vmm.Flags.{present_lem, entry_phys-page, entry_phys-IsPage, bit_or-page}
use knail.Vmm.Tables.{IsSupply, Leads, get_or_create-Linked, mem-set_entry, mem-set_entry_ne}

-- What the entries of an address lead to, from the first table down to the entry of the page.
record Walk (v : Vmm) (pml4 pdpt pd pt l1e virt : ℕ) : Type 0 where
  first : Leads (v.mem pml4 (pml4_idx virt)) pdpt
  second : Leads (v.mem pdpt (pdpt_idx virt)) pd
  third : Leads (v.mem pd (pd_idx virt)) pt
  last : v.mem pt (pt_idx virt) ≡ l1e
  present : has l1e flag_present ≡ true

virt_to_phys-Walk :
    (v : Vmm) (pml4 pdpt pd pt l1e virt : ℕ)
    → Walk v pml4 pdpt pd pt l1e virt
    → virt_to_phys pml4 virt v ≡ (entry_phys l1e + virt % 2 ^ 12) % 2 ^ 64
unfolding virt_to_phys
virt_to_phys-Walk v pml4 pdpt pd pt l1e virt w =
    rw
      (
        w.first.present, w.first.phys, w.second.present, w.second.phys, w.third.present,
        w.third.plain, w.third.phys, w.last, w.present,
      )
      refl

-- The three steps of the walk of `map_page`.
module _ (pml4 virt flags : ℕ) (v : Vmm) where
  abbrev pub step1 : ℕ × Vmm
  step1 = get_or_create pml4 (pml4_idx virt) (table_flags flags) v

  abbrev pub step2 : ℕ × Vmm
  step2 = get_or_create step1.0 (pdpt_idx virt) (table_flags flags) step1.1

  abbrev pub step3 : ℕ × Vmm
  step3 = get_or_create step2.0 (pd_idx virt) (table_flags flags) step2.1

  -- The four tables of the walk are different ones.
  pub record IsApart : Type 0 where
    pub top1 : pml4 ≢ step1.0
    pub top2 : pml4 ≢ step2.0
    pub top3 : pml4 ≢ step3.0
    pub mid2 : step1.0 ≢ step2.0
    pub mid3 : step1.0 ≢ step3.0
    pub low3 : step2.0 ≢ step3.0

  walked :
      (phys : ℕ)
      → (map_page pml4 virt phys flags v).0 ≡ true
      → (step1.0 ≢ 0)
        × (step2.0 ≢ 0)
        × (step3.0 ≢ 0)
        × (map_page pml4 virt phys flags v
            ≡ (true, set_entry step3.0 (pt_idx virt) (bit_or (entry_phys phys) flags) step3.1))
  unfolding map_page below
  walked phys done = elim (Bool-cases (step1.0 == 0)) [
    | inl e ↦ absurd (let failed : false ≡ true = rw e at done in cc)
    | inr e ↦ elim (Bool-cases (step2.0 == 0)) [
      | inl f ↦ absurd (let failed : false ≡ true = rw (e, f) at done in cc)
      | inr f ↦ elim (Bool-cases (step3.0 == 0)) [
        | inl g ↦ absurd (let failed : false ≡ true = rw (e, f, g) at done in cc)
        | inr g ↦ (ground arith, ground arith, ground arith, rw (e, f, g) refl)
      ]
    ]
  ]

  mapped-Walk :
      (e : ℕ)
      → IsSupply v
      → IsApart
      → step1.0 ≢ 0
      → step2.0 ≢ 0
      → step3.0 ≢ 0
      → has e flag_present ≡ true
      → Walk (set_entry step3.0 (pt_idx virt) e step3.1) pml4 step1.0 step2.0 step3.0 e virt
  mapped-Walk e all apart made1 made2 made3 present =
      let one = get_or_create-Linked pml4 (pml4_idx virt) flags v all made1 in
      let two = get_or_create-Linked step1.0 (pdpt_idx virt) flags step1.1 one.supply made2 in
      let three = get_or_create-Linked step2.0 (pd_idx virt) flags step2.1 two.supply made3 in
      let final = set_entry step3.0 (pt_idx virt) e step3.1 in
      record {
        first =
            subst (λ (x : ℕ). Leads x step1.0)
              (sym (
                mem-set_entry_ne step3.0 (pt_idx virt) e pml4 (pml4_idx virt) step3.1 apart.top3
                ∙ three.others pml4 (pml4_idx virt) apart.top2 apart.top3
                ∙ two.others pml4 (pml4_idx virt) apart.top1 apart.top2))
              one.leads;
        second =
            subst (λ (x : ℕ). Leads x step2.0)
              (sym (
                mem-set_entry_ne step3.0 (pt_idx virt) e step1.0 (pdpt_idx virt) step3.1 apart.mid3
                ∙ three.others step1.0 (pdpt_idx virt) apart.mid2 apart.mid3))
              two.leads;
        third =
            subst (λ (x : ℕ). Leads x step3.0)
              (sym
                (mem-set_entry_ne step3.0 (pt_idx virt) e step2.0 (pd_idx virt) step3.1 apart.low3))
              three.leads;
        last = mem-set_entry step3.0 (pt_idx virt) e step3.1;
        present = present;
      }

-- The addresses of a page have the same indices.
Walk-at :
    (v : Vmm) (pml4 pdpt pd pt l1e virt at : ℕ)
    → at / 4096 ≡ virt / 4096
    → Walk v pml4 pdpt pd pt l1e virt
    → Walk v pml4 pdpt pd pt l1e at
unfolding pml4_idx pdpt_idx pd_idx pt_idx
Walk-at v pml4 pdpt pd pt l1e virt at same w =
    let i4 : at / 2 ^ 39 % 512 ≡ virt / 2 ^ 39 % 512 = omega arith in
    let i3 : at / 2 ^ 30 % 512 ≡ virt / 2 ^ 30 % 512 = omega arith in
    let i2 : at / 2 ^ 21 % 512 ≡ virt / 2 ^ 21 % 512 = omega arith in
    let i1 : at / 2 ^ 12 % 512 ≡ virt / 2 ^ 12 % 512 = omega arith in
    record {
      first = subst (λ (i : ℕ). Leads (v.mem pml4 i) pdpt) (sym i4) w.first;
      second = subst (λ (i : ℕ). Leads (v.mem pdpt i) pd) (sym i3) w.second;
      third = subst (λ (i : ℕ). Leads (v.mem pd i) pt) (sym i2) w.third;
      last = ap (v.mem pt) i1 ∙ w.last;
      present = w.present;
    }

-- With frames to come that are pages or null, flags below 4096 with `PRESENT`, and a walk that
-- meets four different tables: behind a `map_page` that succeeds, `virt_to_phys` of an address in
-- the page that was mapped returns the frame, with the offset of the address.
pub virt_to_phys-map_page :
    (pml4 virt phys flags at : ℕ) (v : Vmm)
    → IsSupply v
    → flags < 4096
    → flags % 2 ≡ 1
    → IsApart pml4 virt flags v
    → at / 4096 ≡ virt / 4096
    → (map_page pml4 virt phys flags v).0 ≡ true
    → virt_to_phys pml4 at (map_page pml4 virt phys flags v).1 ≡ entry_phys phys + at % 4096
virt_to_phys-map_page pml4 virt phys flags at v all small odd apart same done =
    let page = entry_phys-IsPage phys in
    let p = entry_phys phys in
    let steps = walked pml4 virt flags v phys done in
    let entry : bit_or p flags ≡ p + flags = bit_or-page p flags page small in
    let one : (p + flags) % 2 ≡ 1 = omega (arith, page.aligned) in
    let present : has (bit_or p flags) flag_present ≡ true =
      ap (λ (e : ℕ). has e flag_present) entry ∙ present_lem (p + flags) ∙ rw one refl in
    let address : entry_phys (bit_or p flags) ≡ p =
      ap entry_phys entry ∙ entry_phys-page p flags page small in
    let walk =
      mapped-Walk pml4 virt flags v (bit_or p flags) all apart steps.0 steps.1 steps.2 present in
    ap (λ (r : Bool × Vmm). virt_to_phys pml4 at r.1) steps.3
    ∙ virt_to_phys-Walk _ pml4 _ _ _ (bit_or p flags) at
        (Walk-at _ pml4 _ _ _ (bit_or p flags) virt at same walk)
    ∙ rw address (omega (arith, page.small))
