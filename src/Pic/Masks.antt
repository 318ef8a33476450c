-- ===== src/Pic/Masks.antt =====
-- kernel/pic.cpp: which interrupts the masks let through.
use Prim.Native.Nat.{bit_and}
use knail.Prelude.{
  ℕ, ◌-◌, ◌^◌, ◌<◌, ◌≡◌, refl, Bool, true, false, not, ◌&&◌, ◌||◌, arith, ltb, leb, ◌==◌,
  if◌then◌else◌, Bool-cases, inl, inr, every_below, every_below-at, same, same→eq, ltb→lt, ap, ◌∙◌,
}
use knail.Pic.{Pic, clear_bit, set_bit, enable_irq, disable_irq, set_mask1, set_mask2, outb}

-- Bit `i` of a byte is 0.
abbrev bit : ℕ → ℕ → Bool
bit m i = bit_and m (2 ^ i) == 0

-- Whether interrupt `irq` is masked.
abbrev open_irq : ℕ → Pic → Bool
open_irq irq p = if ltb irq 8 then bit p.mask1 irq else bit p.mask2 (irq - 8)

record IsValid (p : Pic) : Type 0 where
  byte1 : p.mask1 < 256
  byte2 : p.mask2 < 256

clear_at : ℕ → ℕ → ℕ → Bool
clear_at m i j = same (bit (clear_bit m i) j) ((i == j) || bit m j) && ltb (clear_bit m i) 256

set_at : ℕ → ℕ → ℕ → Bool
set_at m i j = same (bit (set_bit m i) j) (not (i == j) && bit m j) && ltb (set_bit m i) 256

abbrev laws : ℕ → Bool
laws m = every_below 8 (λ i. every_below 8 (λ j. clear_at m i j && set_at m i j))

all_laws : every_below 256 laws ≡ true
unfolding every_below clear_at set_at clear_bit set_bit
all_laws = refl

laws_of : (m i j : ℕ) → m < 256 → i < 8 → j < 8 → (clear_at m i j && set_at m i j) ≡ true
laws_of m i j hm hi hj =
    every_below-at (λ k. clear_at m i k && set_at m i k) 8 j hj
      (every_below-at (λ l. every_below 8 (λ k. clear_at m l k && set_at m l k)) 8 i hi
        (every_below-at laws 256 m hm all_laws))

both : (a b : Bool) → (a && b) ≡ true → (a ≡ true) × (b ≡ true)
both a b h = ground arith

clear_law :
    (m i j : ℕ)
    → m < 256
    → i < 8
    → j < 8
    → (bit (clear_bit m i) j ≡ ((i == j) || bit m j)) × (clear_bit m i < 256)
unfolding clear_at
clear_law m i j hm hi hj =
    let parts = both (clear_at m i j) (set_at m i j) (laws_of m i j hm hi hj) in
    let here =
      both (same (bit (clear_bit m i) j) ((i == j) || bit m j)) (ltb (clear_bit m i) 256) parts.0 in
    (
      same→eq (bit (clear_bit m i) j) ((i == j) || bit m j) here.0,
      ltb→lt (clear_bit m i) 256 here.1,
    )

set_law :
    (m i j : ℕ)
    → m < 256
    → i < 8
    → j < 8
    → (bit (set_bit m i) j ≡ (not (i == j) && bit m j)) × (set_bit m i < 256)
unfolding set_at
set_law m i j hm hi hj =
    let parts = both (clear_at m i j) (set_at m i j) (laws_of m i j hm hi hj) in
    let here =
      both (same (bit (set_bit m i) j) (not (i == j) && bit m j)) (ltb (set_bit m i) 256) parts.1 in
    (
      same→eq (bit (set_bit m i) j) (not (i == j) && bit m j) here.0,
      ltb→lt (set_bit m i) 256 here.1,
    )

-- With masks that are bytes, `disable_irq` closes its interrupt and leaves the 15 others.
disable_irq-open :
    (irq j : ℕ) {p : Pic}
    → IsValid p
    → irq < 16
    → j < 16
    → open_irq j (disable_irq irq p) ≡ (not (irq == j) && open_irq j p)
unfolding disable_irq set_mask1 set_mask2 outb
disable_irq-open irq j {p} v hi hj = elim (Bool-cases (ltb irq 8)) [
  | inl low ↦ elim (Bool-cases (ltb j 8)) [
    | inl lo ↦ rw (low, lo) (set_law p.mask1 irq j v.byte1 (ltb→lt irq 8 low) (ltb→lt j 8 lo)).0
    | inr hj' ↦ rw (low, hj') (ground arith)
  ]
  | inr high ↦ elim (Bool-cases (ltb j 8)) [
    | inl lo ↦ rw (high, lo) (ground arith)
    | inr hj' ↦
        let shift : (irq - 8 == j - 8) ≡ (irq == j) = ground arith in
        rw (high, hj')
          ((set_law p.mask2 (irq - 8) (j - 8) v.byte2 (ground arith) (ground arith)).0
            ∙ ap (λ b. not b && bit p.mask2 (j - 8)) shift)
  ]
]

-- With masks that are bytes, `enable_irq` opens its interrupt, and for one of the second controller
-- the interrupt 2 that joins the two, and leaves all others.
enable_irq-open :
    (irq j : ℕ) {p : Pic}
    → IsValid p
    → irq < 16
    → j < 16
    → open_irq j (enable_irq irq p) ≡ ((irq == j) || ((leb 8 irq && (j == 2)) || open_irq j p))
unfolding enable_irq set_mask1 set_mask2 outb
enable_irq-open irq j {p} v hi hj = elim (Bool-cases (ltb irq 8)) [
  | inl low ↦
      let first : leb 8 irq ≡ false = ground arith in
      elim (Bool-cases (ltb j 8)) [
        | inl lo ↦
            rw (low, lo, first)
              (clear_law p.mask1 irq j v.byte1 (ltb→lt irq 8 low) (ltb→lt j 8 lo)).0
        | inr hj' ↦ rw (low, hj', first) (ground arith)
      ]
  | inr high ↦
      let second : leb 8 irq ≡ true = ground arith in
      elim (Bool-cases (ltb j 8)) [
        | inl lo ↦
            let apart : (irq == j) ≡ false = ground arith in
            let turn : (2 == j) ≡ (j == 2) = ground arith in
            rw (high, lo, second, apart)
              ((clear_law p.mask1 2 j v.byte1 (omega arith) (ltb→lt j 8 lo)).0
                ∙ ap (λ b. b || bit p.mask1 j) turn)
        | inr hj' ↦
            let shift : (irq - 8 == j - 8) ≡ (irq == j) = ground arith in
            let apart : (j == 2) ≡ false = ground arith in
            rw (high, hj', second, apart)
              ((clear_law p.mask2 (irq - 8) (j - 8) v.byte2 (ground arith) (ground arith)).0
                ∙ ap (λ b. b || bit p.mask2 (j - 8)) shift)
      ]
]
