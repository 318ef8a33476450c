-- ===== src/Vga.antt =====
-- drivers/vga.cpp: the text console with its escape sequences. The text buffer at 0xB8000 is a list
-- of 80 * 25 cells; a write past it would change other memory, which the model records in `stray`.
-- The hardware cursor is the position last written to its two registers. A colour is its number,
-- a `char` its byte.
pub mod Escape
pub mod Print
pub mod Bounds
pub mod Sequences
pub mod Numerals
mod Tests
use Prim.Native.Nat.{bit_or, bit_and}
use knail.Prelude.{
  ℕ, zero, suc, ◌+◌, ◌-◌, ◌*◌, ◌/◌, ◌%◌, ◌^◌, Bool, true, false, List, [], ◌∷◌, get_or, set, length,
  replicate, ltb, leb, ◌==◌, if◌then◌else◌, ◌&&◌,
}

abbrev pub width : ℕ
width = 80

abbrev pub height : ℕ
height = 25

pub data EscState : Type 0 where
  normal esc bracket params : EscState

pub record Vga : Type 0 where
  pub buffer : List ℕ
  pub col : ℕ
  pub row : ℕ
  pub color : ℕ
  pub saved_row : ℕ
  pub saved_col : ℕ
  pub esc_state : EscState
  pub esc_params : List ℕ
  pub esc_param_count : ℕ
  pub cursor : ℕ
  pub stray : Bool

-- Colour numbers, and `make_color`.
abbrev pub black : ℕ
black = 0

abbrev pub light_gray : ℕ
light_gray = 7

unfoldable pub make_color : ℕ → ℕ → ℕ
make_color fg bg = bit_or fg (bg * 16) % 256

-- `ansi_to_vga_fg`: the entries of the switch, with its default.
unfoldable pub ansi_to_vga_fg : ℕ → ℕ
ansi_to_vga_fg code =
    if leb 30 code && leb code 37
    then get_or (0 ∷ 4 ∷ 2 ∷ 6 ∷ 1 ∷ 5 ∷ 3 ∷ 7 ∷ []) (code - 30) 7
    else if leb 90 code && leb code 97
    then get_or (8 ∷ 12 ∷ 10 ∷ 14 ∷ 9 ∷ 13 ∷ 11 ∷ 15 ∷ []) (code - 90) 7
    else light_gray

-- The codes of `uint8_t` arithmetic: `code - 10`.
unfoldable pub ansi_to_vga_bg : ℕ → ℕ
ansi_to_vga_bg code = ansi_to_vga_fg ((code + 256 - 10) % 256)

-- `BUFFER[i] = v`
unfoldable pub write_cell : ℕ → ℕ → Vga → Vga
write_cell i v s =
    if ltb i (width * height)
    then record s { buffer = set s.buffer i v }
    else record s { stray = true }

-- `(uint16_t)c` of a signed `char`.
abbrev pub char16 : ℕ → ℕ
char16 c = if ltb c 128 then c else 0xff00 + c

unfoldable pub put_entry : ℕ → ℕ → ℕ → ℕ → Vga → Vga
put_entry c color x y s = write_cell (y * width + x) (bit_or (char16 c) (color * 256)) s

unfoldable pub update_cursor : Vga → Vga
update_cursor s = record s { cursor = (s.row * width + s.col) % 2 ^ 16 }

-- A loop that stores `v` in `n` cells from `i` on.
unfoldable pub fill : ℕ → ℕ → ℕ → Vga → Vga
fill zero i v s = s
fill (suc n) i v s = fill n (i + 1) v (write_cell i v s)

unfoldable pub clear : Vga → Vga
clear s =
    update_cursor
      (record (fill (width * height) 0 (bit_or (s.color * 256) b' ') s) { row = 0; col = 0 })

-- A loop that puts `n` blanks into row `y` from column `x` on.
unfoldable pub blanks : ℕ → ℕ → ℕ → Vga → Vga
blanks zero x y s = s
blanks (suc n) x y s = blanks n (x + 1) y (put_entry b' ' s.color x y s)

-- The two loops of `scroll`: the `n` cells of row `y` from column `x` on move up; and so do `n`
-- rows from `y` on.
unfoldable pub move_cells : ℕ → ℕ → ℕ → Vga → Vga
move_cells zero x y s = s
move_cells (suc n) x y s =
    move_cells n (x + 1) y (write_cell ((y - 1) * width + x) (get_or s.buffer (y * width + x) 0) s)

unfoldable pub move_rows : ℕ → ℕ → Vga → Vga
move_rows zero y s = s
move_rows (suc n) y s = move_rows n (y + 1) (move_cells width 0 y s)

unfoldable pub scroll : Vga → Vga
scroll s = record (blanks width 0 (height - 1) (move_rows (height - 1) 1 s)) { row = height - 1 }

-- The loop of `init` over the rows.
unfoldable pub blank_rows : ℕ → ℕ → Vga → Vga
blank_rows zero y s = s
blank_rows (suc n) y s = blank_rows n (y + 1) (blanks width 0 y s)

unfoldable pub init : Vga → Vga
init s =
    update_cursor
      (blank_rows height 0 (record s { col = 0; row = 0; color = make_color light_gray black }))

abbrev pub set_color : ℕ → ℕ → Vga → Vga
set_color fg bg s = record s { color = make_color fg bg }
