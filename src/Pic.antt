-- ===== src/Pic.antt =====
-- kernel/pic.cpp: the two interrupt controllers. `out` lists the writes to ports, in their order;
-- `mask1` and `mask2` are the bytes that the data ports give, which are those last written there
-- behind the start sequence.
pub mod Masks
use Prim.Native.Nat.{bit_and, bit_or}
use knail.Prelude.{ℕ, ◌-◌, ◌^◌, List, [], ◌∷◌, ◌++◌, ltb, if◌then◌else◌}

pub record Pic : Type 0 where
  pub mask1 : ℕ
  pub mask2 : ℕ
  pub out : List (ℕ × ℕ)

unfoldable pub outb : ℕ → ℕ → Pic → Pic
outb port v p = record p { out = p.out ++ ((port, v) ∷ []) }

unfoldable pub io_wait : Pic → Pic
io_wait p = outb 0x80 0 p

-- Writes of a mask to `PIC1_DATA` and to `PIC2_DATA`.
unfoldable pub set_mask1 : ℕ → Pic → Pic
set_mask1 v p = record (outb 0x21 v p) { mask1 = v }

unfoldable pub set_mask2 : ℕ → Pic → Pic
set_mask2 v p = record (outb 0xA1 v p) { mask2 = v }

-- The start sequence of `init`, up to the masks: a write, and the wait behind it.
unfoldable pub command : ℕ → ℕ → Pic → Pic
command port v p = io_wait (outb port v p)

unfoldable pub init : Pic → Pic
init p =
    let p1 = command 0xA0 0x11 (command 0x20 0x11 p) in
    let p2 = command 0xA1 40 (command 0x21 32 p1) in
    let p3 = command 0xA1 2 (command 0x21 4 p2) in
    let p4 = command 0xA1 1 (command 0x21 1 p3) in set_mask2 0xFF (set_mask1 0xFF p4)

-- `m & ~(1 << i)` and `m | (1 << i)` of a byte.
unfoldable pub clear_bit : ℕ → ℕ → ℕ
clear_bit m i = bit_and m (255 - 2 ^ i)

unfoldable pub set_bit : ℕ → ℕ → ℕ
set_bit m i = bit_or m (2 ^ i)

-- `irq` is below 16.
unfoldable pub enable_irq : ℕ → Pic → Pic
enable_irq irq p =
    if ltb irq 8
    then set_mask1 (clear_bit p.mask1 irq) p
    else let p1 = set_mask1 (clear_bit p.mask1 2) p in set_mask2 (clear_bit p1.mask2 (irq - 8)) p1

unfoldable pub disable_irq : ℕ → Pic → Pic
disable_irq irq p =
    if ltb irq 8 then set_mask1 (set_bit p.mask1 irq) p else set_mask2 (set_bit p.mask2 (irq - 8)) p

unfoldable pub eoi : ℕ → Pic → Pic
eoi irq p = outb 0x20 0x20 (if ltb irq 8 then p else outb 0xA0 0x20 p)
