-- ===== src/Vga/Numerals.antt =====
-- drivers/vga.cpp: the digits that `write_dec` and `write_hex` print read back as the number.
use knail.Prelude.{
  ℕ, zero, suc, ◌+◌, ◌-◌, ◌*◌, ◌/◌, ◌%◌, ◌^◌, ◌<◌, ◌≤◌, ◌≡◌, refl, ap, ◌∙◌, List, [], ◌∷◌, arith,
  ltb, ◌==◌, if◌then◌else◌, All, Bool-cases, inl, inr, ◌⊎◌,
}
use knail.Vga.{Vga}
use knail.Vga.Print.{write, write_dec, write_hex, dec_digits, hex_digits}

-- What a digit of a numeral counts: `0` to `9`, and the letters `A` to `F` from 10 on.
abbrev pub digit : ℕ → ℕ
digit c = if ltb c 58 then c - 48 else c - 55

-- The number that a numeral in base `base` denotes, behind the number `seen`.
abbrev pub value : ℕ → ℕ → List ℕ → ℕ
value base seen [] = seen
value base seen (c ∷ cs) = value base (seen * base + digit c) cs

abbrev pub IsDigit : ℕ → ℕ → Type 0
IsDigit base c = (((b'0' ≤ c) × (c ≤ b'9')) ⊎ ((b'A' ≤ c) × (c ≤ b'F'))) × (digit c < base)

-- `base ^ n` for the two bases.
abbrev tens : ℕ → ℕ
tens zero = 1
tens (suc n) = 10 * tens n

abbrev sixteens : ℕ → ℕ
sixteens zero = 1
sixteens (suc n) = 16 * sixteens n

dec_digits-value :
    (n val : ℕ) (out : List ℕ)
    → val < tens n
    → All (IsDigit 10) out
    → (value 10 0 (dec_digits n val out) ≡ value 10 val out)
      × All (IsDigit 10) (dec_digits n val out)
unfolding dec_digits
dec_digits-value zero val out lt ds = (ap (λ v. value 10 v out) (omega arith), ds)
dec_digits-value (suc n) val out lt ds =
    let last : IsDigit 10 (b'0' + val % 10) = (inl (omega arith, ground arith), ground arith) in
    let rest = dec_digits-value n (val / 10) ((b'0' + val % 10) ∷ out) (omega arith) (last, ds) in
    let joined : val / 10 * 10 + digit (b'0' + val % 10) ≡ val = ground arith in
    elim (Bool-cases (val == 0)) [
      | inl end ↦
          let nothing : 0 ≡ val = ground arith in
          (rw end (ap (λ v. value 10 v out) nothing), rw end ds)
      | inr more ↦ (rw more (rest.0 ∙ ap (λ v. value 10 v out) joined), rw more rest.1)
    ]

hex_digits-value :
    (n val : ℕ) (out : List ℕ)
    → val < sixteens n
    → All (IsDigit 16) out
    → (value 16 0 (hex_digits n val out) ≡ value 16 val out)
      × All (IsDigit 16) (hex_digits n val out)
unfolding hex_digits
hex_digits-value zero val out lt ds = (ap (λ v. value 16 v out) (omega arith), ds)
hex_digits-value (suc n) val out lt ds =
    let d : ℕ = val % 16 in
    let c : ℕ = if ltb d 10 then b'0' + d else b'A' + (d - 10) in
    let counts : digit c ≡ d = ground arith in
    let kind : ((b'0' ≤ c) × (c ≤ b'9')) ⊎ ((b'A' ≤ c) × (c ≤ b'F')) =
      elim (Bool-cases (ltb d 10)) [
        | inl small ↦ rw small (inl (omega arith, ground arith))
        | inr large ↦ rw large (inr (omega arith, ground arith))
      ] in
    let last : IsDigit 16 c = (kind, omega (arith, counts)) in
    let rest = hex_digits-value n (val / 16) (c ∷ out) (omega arith) (last, ds) in
    (rest.0 ∙ ap (λ v. value 16 v out) (omega (arith, counts)), rest.1)

-- For a number of 64 bits `write_dec` prints a text of decimal digits, and `write_hex` the text `0x`
-- and hexadecimal digits, and each numeral denotes the number.
pub write_numeral_lem :
    (val : ℕ) (s : Vga)
    → val < 2 ^ 64
    → ((ds : List ℕ) × (write_dec val s ≡ write ds s) × (value 10 0 ds ≡ val) × All (IsDigit 10) ds)
      × ((ds : List ℕ) × (write_hex val s ≡ write (b'0' ∷ b'x' ∷ ds) s)
          × (value 16 0 ds ≡ val)
          × All (IsDigit 16) ds)
unfolding write_dec write_hex write
write_numeral_lem val s lt =
    let dec = dec_digits-value 20 val [] (omega arith) tt in
    let hex = hex_digits-value 16 val [] (omega arith) tt in
    (
      elim (Bool-cases (val == 0)) [
        | inl none_left ↦ (
          b'0' ∷ [],
          rw none_left refl,
          ground arith,
          ((inl (omega arith, omega arith), omega arith), tt),
        )
        | inr some_left ↦ (dec_digits 20 val [], rw some_left refl, dec.0, dec.1)
      ],
      (hex_digits 16 val [], refl, hex.0, hex.1),
    )
