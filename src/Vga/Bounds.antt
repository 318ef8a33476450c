-- ===== src/Vga/Bounds.antt =====
-- drivers/vga.cpp: characters and the operations on cells leave the console valid.
use knail.Prelude.{
  ℕ, zero, suc, ◌+◌, ◌-◌, ◌*◌, ◌<◌, ◌≤◌, ◌≡◌, inl, inr, false, arith, leb, ◌==◌, length, length-set,
  Bool-cases,
}
use knail.Vga.{
  Vga, width, height, write_cell, put_entry, update_cursor, fill, clear, blanks, move_cells,
  move_rows, scroll, blank_rows, init,
}
use knail.Vga.Print.{next_row, step_back, rub_out, advance, render}

-- `limit` bounds the row: it is 26 for a moment, before the console scrolls.
pub record Within (limit : ℕ) (s : Vga) : Type 0 where
  pub sized : length s.buffer ≡ width * height
  pub col_in : s.col < width
  pub row_in : s.row < limit
  pub saved_col_in : s.saved_col < width
  pub saved_row_in : s.saved_row < height
  pub params_sized : length s.esc_params ≡ 8
  pub count_in : s.esc_param_count ≤ 8
  pub clean : s.stray ≡ false

abbrev pub IsValid : Vga → Type 0
IsValid s = Within height s

module _ {limit : ℕ} where
  write_cell-IsValid :
      {s : Vga} (i v : ℕ) → i < width * height → Within limit s → Within limit (write_cell i v s)
  unfolding write_cell
  write_cell-IsValid {s} i v lt h = ground (arith, length-set s.buffer i v)

  put_entry-IsValid :
      {s : Vga} (c color x y : ℕ)
      → x < width
      → y < height
      → Within limit s
      → Within limit (put_entry c color x y s)
  unfolding put_entry
  put_entry-IsValid c color x y lx ly h = write_cell-IsValid (y * width + x) _ (omega arith) h

  update_cursor-IsValid : {s : Vga} → Within limit s → Within limit (update_cursor s)
  unfolding update_cursor
  update_cursor-IsValid h = ground arith

  fill-IsValid :
      (n i v : ℕ) {s : Vga} → i + n ≤ width * height → Within limit s → Within limit (fill n i v s)
  unfolding fill
  fill-IsValid zero i v le h = h
  fill-IsValid (suc n) i v le h =
      fill-IsValid n (i + 1) v (omega arith) (write_cell-IsValid i v (omega arith) h)

  pub blanks-IsValid :
      (n x y : ℕ) {s : Vga}
      → x + n ≤ width
      → y < height
      → Within limit s
      → Within limit (blanks n x y s)
  unfolding blanks
  blanks-IsValid zero x y le ly h = h
  blanks-IsValid (suc n) x y {s} le ly h =
      blanks-IsValid n (x + 1) y (omega arith) ly
        (put_entry-IsValid b' ' s.color x y (omega arith) ly h)

  move_cells-IsValid :
      (n x y : ℕ) {s : Vga}
      → x + n ≤ width
      → 0 < y
      → y < height
      → Within limit s
      → Within limit (move_cells n x y s)
  unfolding move_cells
  move_cells-IsValid zero x y le ly hy h = h
  move_cells-IsValid (suc n) x y {s} le ly hy h =
      move_cells-IsValid n (x + 1) y (omega arith) ly hy
        (write_cell-IsValid ((y - 1) * width + x) _ (omega arith) h)

  move_rows-IsValid :
      (n y : ℕ) {s : Vga} → 0 < y → y + n ≤ height → Within limit s → Within limit (move_rows n y s)
  unfolding move_rows
  move_rows-IsValid zero y ly le h = h
  move_rows-IsValid (suc n) y ly le h =
      move_rows-IsValid n (y + 1) (omega arith) (omega arith)
        (move_cells-IsValid width 0 y (omega arith) ly (omega arith) h)

  blank_rows-IsValid :
      (n y : ℕ) {s : Vga} → y + n ≤ height → Within limit s → Within limit (blank_rows n y s)
  unfolding blank_rows
  blank_rows-IsValid zero y le h = h
  blank_rows-IsValid (suc n) y le h =
      blank_rows-IsValid n (y + 1) (omega arith)
        (blanks-IsValid width 0 y (omega arith) (omega arith) h)

pub at-IsValid :
    {limit : ℕ} {s : Vga} (row col : ℕ)
    → row < height
    → col < width
    → Within limit s
    → IsValid (record s { row = row; col = col })
at-IsValid row col lr lc h = ground arith

pub clear-IsValid : {s : Vga} → IsValid s → IsValid (clear s)
unfolding clear
clear-IsValid h =
    update_cursor-IsValid (
      at-IsValid 0 0 (omega arith) (omega arith)
        (fill-IsValid (width * height) 0 _ (omega arith) h))

scroll-IsValid : {s : Vga} → Within (height + 1) s → IsValid (scroll s)
unfolding scroll
scroll-IsValid {s} h =
    let moved =
      blanks-IsValid width 0 (height - 1) (omega arith) (omega arith)
        (move_rows-IsValid (height - 1) 1 (omega arith) (omega arith) h) in
    at-IsValid (height - 1) _ (omega arith) moved.col_in moved

-- `init` makes the console valid, given the buffer and the state of the escape parser.
init-IsValid : {s : Vga} → IsValid s → IsValid (init s)
unfolding init
init-IsValid h = update_cursor-IsValid (blank_rows-IsValid height 0 (omega arith) (ground arith))

next_row-IsValid : {s : Vga} → IsValid s → IsValid (next_row s)
unfolding next_row
next_row-IsValid {s} h = elim (Bool-cases (leb height (s.row + 1))) [
  | inl over ↦ rw over (scroll-IsValid (ground arith))
  | inr inside ↦ rw inside (ground arith)
]

step_back-IsValid : {s : Vga} → IsValid s → IsValid (step_back s)
unfolding step_back
step_back-IsValid h = ground arith

rub_out-IsValid : {s : Vga} → IsValid s → IsValid (rub_out s)
unfolding rub_out
rub_out-IsValid {s} h =
    let back = step_back-IsValid h in
    update_cursor-IsValid (
      put_entry-IsValid b' ' (step_back s).color (step_back s).col (step_back s).row back.col_in
        back.row_in back)

advance-IsValid : {s : Vga} → IsValid s → IsValid (advance s)
unfolding advance
advance-IsValid {s} h = elim (Bool-cases (leb width (s.col + 1))) [
  | inl over ↦ rw over (next_row-IsValid (ground arith))
  | inr inside ↦ rw inside (ground arith)
]

pub render-IsValid : {s : Vga} (c : ℕ) → IsValid s → IsValid (render c s)
unfolding render
render-IsValid {s} c h = elim (Bool-cases (c == 10)) [
  | inl nl ↦ rw nl (update_cursor-IsValid (next_row-IsValid (ground arith)))
  | inr no_nl ↦ elim (Bool-cases (c == 13)) [
    | inl cr ↦ rw (no_nl, cr) (update_cursor-IsValid (ground arith))
    | inr no_cr ↦ elim (Bool-cases (c == 8)) [
      | inl bs ↦ rw (no_nl, no_cr, bs) (rub_out-IsValid h)
      | inr other ↦
          rw (no_nl, no_cr, other)
            (update_cursor-IsValid
              (advance-IsValid (put_entry-IsValid c s.color s.col s.row h.col_in h.row_in h)))
    ]
  ]
]
