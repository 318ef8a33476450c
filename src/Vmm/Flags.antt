-- ===== src/Vmm/Flags.antt =====
-- arch/x86_64/vmm.cpp: the flags and the address in an entry of a page table.
use knail.Prelude.{
  ℕ, zero, suc, ◌+◌, ◌*◌, ◌/◌, ◌%◌, ◌^◌, ◌≤◌, ◌<◌, ◌≡◌, refl, subst, sym, ap, ◌∙◌, not, ◌==◌, arith,
  ◌⊎◌, Bool-cases, inl, inr, bit_or-step, bit_or-zero, bit_or-up, bit_and-ones, bit_and-up, ones,
  low, low-ones, up, down,
}
use Prim.Native.Nat.{bit_and, bit_or}
use knail.Vmm.{flag_present, flag_user, flag_huge, has, entry_phys, opened}

-- The address of a table or of a page: aligned, and of at most 52 bits.
pub record IsPage (p : ℕ) : Type 0 where
  pub aligned : p % 4096 ≡ 0
  pub small : p < 2 ^ 52

abbrev Ends : ℕ → ℕ → Type 0
Ends zero x = x ≡ 0
Ends (suc k) x = Ends k (x / 2)

low-Ends : (k x : ℕ) → Ends k x → low k x ≡ x
low-Ends zero x h = sym h
low-Ends (suc k) x h = omega (arith, low-Ends k (x / 2) h)

pub present_lem : (e : ℕ) → has e flag_present ≡ not (e % 2 == 0)
unfolding has
present_lem e = let b : bit_and e 1 ≡ e % 2 = omega (arith, bit_and-ones 1 e) in rw b refl

huge_bit : (e : ℕ) → bit_and e 128 ≡ e / 128 % 2 * 128
huge_bit e =
    let number : down 7 e ≡ e / 128 = omega arith in
    bit_and-up 7 e 1 ∙ rw number (omega (arith, bit_and-ones 1 (e / 128)))

pub huge_lem : (e : ℕ) → has e flag_huge ≡ not (e / 128 % 2 == 0)
unfolding has
huge_lem e = rw (huge_bit e) (ground arith)

-- The mask of an address goes by the page's number.
pub entry_phys_lem : (e : ℕ) → entry_phys e ≡ bit_and (e / 4096) (ones 40) * 4096
unfolding entry_phys
entry_phys_lem e =
    let number : down 12 e ≡ e / 4096 = omega arith in
    bit_and-up 12 e (ones 40) ∙ rw number (omega arith)

pub entry_phys-IsPage : (e : ℕ) → IsPage (entry_phys e)
entry_phys-IsPage e =
    let number = entry_phys_lem e ∙ ap (λ (x : ℕ). x * 4096) (bit_and-ones 40 (e / 4096)) in
    let small : low 40 (e / 4096) ≤ ones 40 = low-ones 40 (e / 4096) in
    subst IsPage (sym number) (page_at (low 40 (e / 4096)) small)
  where
    page_at : (x : ℕ) → x ≤ ones 40 → IsPage (x * 4096)
    page_at x h = record { aligned = omega arith; small = omega arith }

pub entry_phys-page : (p f : ℕ) → IsPage p → f < 4096 → entry_phys (p + f) ≡ p
entry_phys-page p f page h =
    let number : (p + f) / 4096 ≡ p / 4096 = omega (arith, page.aligned) in
    entry_phys_lem (p + f)
    ∙ rw (number, bit_and-ones 40 (p / 4096), low-Ends 40 (p / 4096) (omega (arith, page.small)))
        (omega (arith, page.aligned))

-- The `USER` flag sets the third digit.
or_user : (e : ℕ) → bit_or e flag_user ≡ e / 8 * 8 + 4 + e % 4
or_user e = omega (
  arith,
  bit_or-step e 4,
  bit_or-step (e / 2) 2,
  bit_or-step (e / 2 / 2) 1,
  bit_or-zero (e / 2 / 2 / 2),
)

module _ (e flags : ℕ) where
  opened-cases : (opened e flags ≡ e) ⊎ (opened e flags ≡ e / 8 * 8 + 4 + e % 4)
  unfolding opened
  opened-cases = elim (Bool-cases (has flags flag_user)) [
    | inl h ↦ rw h (inr (or_user e))
    | inr h ↦ rw h (inl refl)
  ]

  opened-digits :
      (opened e flags % 2 ≡ e % 2)
      × (opened e flags / 128 ≡ e / 128)
      × (opened e flags / 4096 ≡ e / 4096)
  opened-digits = elim opened-cases [
    | inl same ↦ rw same (refl, refl, refl)
    | inr set ↦ rw set (omega arith, omega arith, omega arith)
  ]

  pub present-opened : has (opened e flags) flag_present ≡ has e flag_present
  present-opened = present_lem (opened e flags) ∙ rw opened-digits.0 refl ∙ sym (present_lem e)

  pub huge-opened : has (opened e flags) flag_huge ≡ has e flag_huge
  huge-opened = huge_lem (opened e flags) ∙ rw opened-digits.1 refl ∙ sym (huge_lem e)

  pub entry_phys-opened : entry_phys (opened e flags) ≡ entry_phys e
  entry_phys-opened =
      entry_phys_lem (opened e flags) ∙ rw opened-digits.2 refl ∙ sym (entry_phys_lem e)

-- The address of a page and flags below 4096 do not meet.
pub bit_or-page : (p f : ℕ) → IsPage p → f < 4096 → bit_or p f ≡ p + f
bit_or-page p f page h =
    let number : up 12 (p / 4096) ≡ p = omega (arith, page.aligned) in
    let sum = bit_or-up 12 (p / 4096) f (omega arith) in
    subst (λ (q : ℕ). bit_or q f ≡ q + f) number sum
