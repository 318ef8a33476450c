-- ===== src/Prelude/Bits.antt =====
-- Laws of `bit_and` and `bit_or`, digit by digit.
use Prim.Native.Nat.{
  ℕ, zero, suc, ◌+◌, ◌*◌, ◌/◌, ◌%◌, ◌≤◌, min, max, bit_and, bit_or, digits, bitwise,
  bit_and-bitwise, bit_or-bitwise,
}
use mathlib.Core.Path.{◌≡◌, refl, sym, ap, ◌∙◌}
use native.Mathlib.Omega.{arith}

module _ (z : ℕ → ℕ) (f : ℕ → ℕ → ℕ) where
  -- Rounds beyond the first number change nothing.
  rounds_enough : (k n a b : ℕ) → a ≤ k → a ≤ n → digits z f k a b ≡ digits z f n a b
  rounds_enough zero zero a b h e = refl
  rounds_enough (suc k) zero zero b h e = refl
  rounds_enough (suc k) zero (suc a) b h e = absurd (omega arith)
  rounds_enough zero (suc n) zero b h e = refl
  rounds_enough zero (suc n) (suc a) b h e = absurd (omega arith)
  rounds_enough (suc k) (suc n) zero b h e = refl
  rounds_enough (suc k) (suc n) (suc a) b h e =
      ap (λ (rest : ℕ). rest * 2 + f (suc a % 2) (b % 2))
        (rounds_enough k n (suc a / 2) (b / 2) (omega arith) (omega arith))

  lowest_digit :
      ((b : ℕ) → z b ≡ z (b / 2) * 2 + f 0 (b % 2))
      → (a b : ℕ) → bitwise z f a b ≡ bitwise z f (a / 2) (b / 2) * 2 + f (a % 2) (b % 2)
  lowest_digit zeros zero b = zeros b
  lowest_digit zeros (suc a) b =
      ap (λ (rest : ℕ). rest * 2 + f (suc a % 2) (b % 2))
        (rounds_enough a (suc a / 2) (suc a / 2) (b / 2) (omega arith) (omega arith))

pub bit_and-step : (a b : ℕ) → bit_and a b ≡ bit_and (a / 2) (b / 2) * 2 + min (a % 2) (b % 2)
bit_and-step a b =
    bit_and-bitwise a b
    ∙ lowest_digit (λ b. zero) min (λ b. omega arith) a b
    ∙ ap (λ (rest : ℕ). rest * 2 + min (a % 2) (b % 2)) (sym (bit_and-bitwise (a / 2) (b / 2)))

pub bit_or-step : (a b : ℕ) → bit_or a b ≡ bit_or (a / 2) (b / 2) * 2 + max (a % 2) (b % 2)
bit_or-step a b =
    bit_or-bitwise a b
    ∙ lowest_digit (λ b. b) max (λ b. omega arith) a b
    ∙ ap (λ (rest : ℕ). rest * 2 + max (a % 2) (b % 2)) (sym (bit_or-bitwise (a / 2) (b / 2)))

zero_and : (b : ℕ) → bit_and 0 b ≡ 0
zero_and b = bit_and-bitwise 0 b

and_zero : (k a : ℕ) → a ≤ k → bit_and a 0 ≡ 0
and_zero k zero h = zero_and 0
and_zero zero (suc a) h = absurd (omega arith)
and_zero (suc k) (suc a) h =
    omega (arith, bit_and-step (suc a) 0, and_zero k (suc a / 2) (omega arith))

or_zero : (k a : ℕ) → a ≤ k → bit_or a 0 ≡ a
or_zero k zero h = bit_or-bitwise 0 0
or_zero zero (suc a) h = absurd (omega arith)
or_zero (suc k) (suc a) h =
    omega (arith, bit_or-step (suc a) 0, or_zero k (suc a / 2) (omega arith))

pub bit_or-zero : (a : ℕ) → bit_or a 0 ≡ a
bit_or-zero a = or_zero a a (omega arith)

-- A number is even `k` times over, and another ends within the digits that are free.
abbrev pub Apart : ℕ → ℕ → ℕ → Type 0
Apart zero a b = b ≡ 0
Apart (suc k) a b = (a % 2 ≡ 0) × Apart k (a / 2) (b / 2)

pub bit_or-add : (k a b : ℕ) → Apart k a b → bit_or a b ≡ a + b
bit_or-add zero a b e = rw e (omega (arith, bit_or-zero a))
bit_or-add (suc k) a b (even, rest) =
    omega (arith, bit_or-step a b, bit_or-add k (a / 2) (b / 2) rest)

-- `ones k` is the mask of the `k` lowest digits, and `low k a` what it leaves.
abbrev pub ones : ℕ → ℕ
ones zero = 0
ones (suc k) = ones k * 2 + 1

abbrev pub low : ℕ → ℕ → ℕ
low zero a = 0
low (suc k) a = low k (a / 2) * 2 + a % 2

pub bit_and-ones : (k a : ℕ) → bit_and a (ones k) ≡ low k a
bit_and-ones zero a = and_zero a a (omega arith)
bit_and-ones (suc k) a =
    let half : (ones k * 2 + 1) / 2 ≡ ones k = omega arith in
    let step = bit_and-step a (ones k * 2 + 1) in
    let rest : bit_and (a / 2) ((ones k * 2 + 1) / 2) ≡ low k (a / 2) =
      rw half (bit_and-ones k (a / 2)) in
    omega (arith, step, rest)

pub low-ones : (k a : ℕ) → low k a ≤ ones k
low-ones zero a = omega arith
low-ones (suc k) a = omega (arith, low-ones k (a / 2))

-- The same mask, moved up by one digit.
pub bit_and-double : (a m : ℕ) → bit_and a (m * 2) ≡ bit_and (a / 2) m * 2
bit_and-double a m =
    let half : m * 2 / 2 ≡ m = omega arith in
    let step = bit_and-step a (m * 2) in
    let rest : bit_and (a / 2) (m * 2 / 2) ≡ bit_and (a / 2) m = ap (bit_and (a / 2)) half in
    omega (arith, step, rest)

-- A number without its `k` lowest digits, and one moved up by `k` digits.
abbrev pub down : ℕ → ℕ → ℕ
down zero a = a
down (suc k) a = down k (a / 2)

abbrev pub up : ℕ → ℕ → ℕ
up zero m = m
up (suc k) m = up k m * 2

pub bit_and-up : (k a m : ℕ) → bit_and a (up k m) ≡ up k (bit_and (down k a) m)
bit_and-up zero a m = refl
bit_and-up (suc k) a m = bit_and-double a (up k m) ∙ ap (λ (b : ℕ). b * 2) (bit_and-up k (a / 2) m)

Apart-up : (k m b : ℕ) → down k b ≡ 0 → Apart k (up k m) b
Apart-up zero m b h = h
Apart-up (suc k) m b h =
    let half : up k m * 2 / 2 ≡ up k m = omega arith in
    (omega arith, rw half (Apart-up k m (b / 2) h))

-- A number moved up by `k` digits and one of at most `k` digits add up.
pub bit_or-up : (k m b : ℕ) → down k b ≡ 0 → bit_or (up k m) b ≡ up k m + b
bit_or-up k m b h = bit_or-add k (up k m) b (Apart-up k m b h)
