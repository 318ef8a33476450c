-- ===== src/Vmm/Tables.antt =====
-- arch/x86_64/vmm.cpp: the entry that `get_or_create` leaves leads to the table that it returns.
use knail.Prelude.{
  ℕ, ◌+◌, ◌*◌, ◌/◌, ◌%◌, ◌^◌, ◌<◌, ◌≡◌, ◌≢◌, refl, subst, sym, ap, ◌∙◌, true, false, ◌==◌, arith,
  ◌⊎◌, Bool-cases, inl, inr, List, [], ◌∷◌, All,
}
use Prim.Native.Nat.{bit_and, bit_or}
use knail.Vmm.{
  Vmm, flag_present, flag_user, flag_huge, has, entry_phys, set_table, set_entry, alloc_frame_from,
  alloc_frame, zeroed, alloc_table, split_into, link_into, opened, present_child, get_or_create,
  table_flags,
}
use knail.Vmm.Flags.{IsPage, present_lem, huge_lem, entry_phys-page, present-opened, bit_or-page}

-- The frames to come are pages, or null.
abbrev pub IsSupply : Vmm → Type 0
IsSupply v = All (λ p. (p ≢ 0) → IsPage p) v.supply

-- An entry of a table leads to another one.
pub record Leads (e c : ℕ) : Type 0 where
  pub present : has e flag_present ≡ true
  pub plain : has e flag_huge ≡ false
  pub phys : entry_phys e ≡ c

pub mem-set_entry : (t k e : ℕ) (v : Vmm) → (set_entry t k e v).mem t k ≡ e
unfolding set_entry set_table
mem-set_entry t k e v = ground arith

pub mem-set_table_ne :
    (t u i : ℕ) (row : ℕ → ℕ) (v : Vmm) → u ≢ t → (set_table t row v).mem u i ≡ v.mem u i
unfolding set_table
mem-set_table_ne t u i row v ne = ground arith

pub mem-set_entry_ne : (t k e u i : ℕ) (v : Vmm) → u ≢ t → (set_entry t k e v).mem u i ≡ v.mem u i
unfolding set_entry
mem-set_entry_ne t k e u i v ne = mem-set_table_ne t u i _ v ne

-- What `get_or_create` on entry `k` of `t` does when it returns a table: the entry leads there,
-- and the tables other than `t` and the one returned are as they were.
pub record Linked (t k : ℕ) (v : Vmm) (r : ℕ × Vmm) : Type 0 where
  pub leads : Leads (r.1.mem t k) r.0
  pub others : (u i : ℕ) → u ≢ t → u ≢ r.0 → r.1.mem u i ≡ v.mem u i
  pub supply : IsSupply r.1

-- The outcome of the allocation of a table.
record Fresh (v : Vmm) (r : ℕ × Vmm) : Type 0 where
  page : r.0 ≢ 0 → IsPage r.0
  others : (u i : ℕ) → u ≢ r.0 → r.1.mem u i ≡ v.mem u i
  supply : IsSupply r.1

alloc_frame_from-Fresh :
    (ps : List ℕ) (v : Vmm)
    → All (λ p. (p ≢ 0) → IsPage p) ps
    → v.supply ≡ ps
    → Fresh v (alloc_frame_from ps v)
unfolding alloc_frame_from
alloc_frame_from-Fresh [] v all e = record {
  page = λ ne. absurd (ne refl);
  others = λ u i ne. refl;
  supply = rw e tt;
}
alloc_frame_from-Fresh (p ∷ ps) v all e = record {
  page = all.0;
  others = λ u i ne. refl;
  supply = all.1;
}

zeroed-Fresh : (v : Vmm) (r : ℕ × Vmm) → Fresh v r → Fresh v (zeroed r)
unfolding zeroed set_table
zeroed-Fresh v (phys, v1) f = elim (Bool-cases (phys == 0)) [
  | inl e ↦
      let null : phys ≡ 0 = ground arith in
      rw e (record {
        page = λ ne. absurd (ne refl);
        others = λ u i ne. f.others u i (λ g. ne (g ∙ null));
        supply = f.supply;
      })
  | inr e ↦ rw e (record {
    page = f.page;
    others = λ u i ne. mem-set_table_ne phys u i (λ j. 0) v1 ne ∙ f.others u i ne;
    supply = f.supply;
  })
]

alloc_table-Fresh : (v : Vmm) → IsSupply v → Fresh v (alloc_table v)
unfolding alloc_table alloc_frame
alloc_table-Fresh v all =
    zeroed-Fresh v (alloc_frame v) (alloc_frame_from-Fresh v.supply v all refl)

table_flags-cases : (g : ℕ) → (table_flags g ≡ 3) ⊎ (table_flags g ≡ 7)
unfolding table_flags
table_flags-cases g = elim (Bool-cases (has g flag_user)) [
  | inl h ↦ rw h (inr refl)
  | inr h ↦ rw h (inl refl)
]

Leads-page : (p g : ℕ) → IsPage p → Leads (bit_or p (table_flags g)) p
Leads-page p g page = elim (table_flags-cases g) [
  | inl e ↦ rw (e, bit_or-page p 3 page (omega arith)) (of_flags 3 (omega arith) (omega arith))
  | inr e ↦ rw (e, bit_or-page p 7 page (omega arith)) (of_flags 7 (omega arith) (omega arith))
]
  where
    of_flags : (f : ℕ) → f % 2 ≡ 1 → f < 128 → Leads (p + f) p
    of_flags f odd less =
        let one : (p + f) % 2 ≡ 1 = omega (arith, page.aligned) in
        let none_set : (p + f) / 128 % 2 ≡ 0 = omega (arith, page.aligned) in
        record {
          present = present_lem (p + f) ∙ rw one refl;
          plain = huge_lem (p + f) ∙ rw none_set refl;
          phys = entry_phys-page p f page (omega arith);
        }

-- A new table under an entry.
Linked-new :
    (t k e c : ℕ) (v v1 : Vmm)
    → Leads e c
    → ((u i : ℕ) → u ≢ c → v1.mem u i ≡ v.mem u i)
    → IsSupply v1
    → Linked t k v (c, set_entry t k e v1)
unfolding set_entry set_table
Linked-new t k e c v v1 leads others supply = record {
  leads = subst (λ (entry : ℕ). Leads entry c) (sym (mem-set_entry t k e v1)) leads;
  others = λ u i ne ne'. mem-set_entry_ne t k e u i v1 ne ∙ others u i ne';
  supply = supply;
}

module _ (t k g : ℕ) (v : Vmm) where
  link_into-Linked :
      (r : ℕ × Vmm)
      → Fresh v r
      → (link_into t k (table_flags g) r).0 ≢ 0
      → Linked t k v (link_into t k (table_flags g) r)
  unfolding link_into
  link_into-Linked (c, v1) f made = elim (Bool-cases (c == 0)) [
    | inl e ↦ absurd (rw e at made refl)
    | inr e ↦ rw e (
        Linked-new t k (bit_or c (table_flags g)) c v v1 (Leads-page c g (f.page (ground arith)))
          f.others f.supply)
  ]

  split_into-Linked :
      (e : ℕ) (r : ℕ × Vmm)
      → Fresh v r
      → (split_into t k e g r).0 ≢ 0
      → Linked t k v (split_into t k e g r)
  unfolding split_into set_table
  split_into-Linked e (c, v1) f made = elim (Bool-cases (c == 0)) [
    | inl h ↦ absurd (rw h at made refl)
    | inr h ↦
        let leads = Leads-page c g (f.page (ground arith)) in
        let entry = bit_or c (table_flags g) in
        rw h (
          Linked-new t k entry (entry_phys entry) v _
            (record { present = leads.present; plain = leads.plain; phys = refl })
            (λ u i ne.
              mem-set_table_ne c u i
                (λ j. bit_or ((entry_phys e + j * 0x1000) % 2 ^ 64) (bit_and e 0xF7F)) v1
                (λ q. ne (q ∙ sym leads.phys))
              ∙ f.others u i (λ q. ne (q ∙ sym leads.phys)))
            f.supply)
  ]

  present_child-Linked :
      (u0 : Vmm)
      → has (v.mem t k) flag_present ≡ true
      → IsSupply v
      → ((u i : ℕ) → u ≢ t → v.mem u i ≡ u0.mem u i)
      → (present_child t k g v).0 ≢ 0
      → Linked t k u0 (present_child t k g v)
  unfolding present_child
  present_child-Linked u0 there all same made = elim (Bool-cases (has (v.mem t k) flag_huge)) [
    | inl h ↦
        let linked =
          split_into-Linked (v.mem t k) (alloc_table v) (alloc_table-Fresh v all) (rw h at made) in
        rw h (record {
          leads = linked.leads;
          others = λ u i ne ne'. linked.others u i ne ne' ∙ same u i ne;
          supply = linked.supply;
        })
    | inr h ↦ rw h (record {
      leads = record { present = there; plain = h; phys = refl };
      others = λ u i ne ne'. same u i ne;
      supply = all;
    })
  ]

-- `get_or_create` that returns a table leaves an entry that leads there.
pub get_or_create-Linked :
    (t k g : ℕ) (v : Vmm)
    → IsSupply v
    → (get_or_create t k (table_flags g) v).0 ≢ 0
    → Linked t k v (get_or_create t k (table_flags g) v)
unfolding get_or_create set_entry set_table
get_or_create-Linked t k g v all made = elim (Bool-cases (has (v.mem t k) flag_present)) [
  | inl h ↦
      let e = opened (v.mem t k) (table_flags g) in
      let v1 = set_entry t k e v in
      let there : has (v1.mem t k) flag_present ≡ true =
        ap (λ (x : ℕ). has x flag_present) (mem-set_entry t k e v)
        ∙ present-opened (v.mem t k) (table_flags g)
        ∙ h in
      rw h (
        present_child-Linked t k (table_flags g) v1 v there (kept all)
          (λ u i ne. mem-set_entry_ne t k e u i v ne) (rw h at made))
  | inr h ↦ rw h (link_into-Linked t k g v (alloc_table v) (alloc_table-Fresh v all) (rw h at made))
]
  where
    kept : IsSupply v → IsSupply (set_entry t k (opened (v.mem t k) (table_flags g)) v)
    kept all = all
