-- ===== src/Vga/Print.antt =====
-- drivers/vga.cpp: `_put_char` and the functions that write text with it. They hold the lock of the
-- console, which no function under it takes again.
use knail.Prelude.{ℕ, zero, suc, ◌+◌, ◌-◌, ◌/◌, ◌%◌, List, [], ◌∷◌, ltb, leb, ◌==◌, if◌then◌else◌}
use knail.Vga.{
  Vga, EscState, normal, esc, bracket, params, width, height, put_entry, update_cursor, scroll,
}
use knail.Vga.Escape.{in_params, in_esc}

-- `if (++row >= HEIGHT) scroll();`
unfoldable pub next_row : Vga → Vga
next_row s =
    let moved : Vga = record s { row = s.row + 1 } in
    if leb height (s.row + 1) then scroll moved else moved

-- `'\b'`: a step back, over the start of the line too.
unfoldable pub step_back : Vga → Vga
step_back s =
    if ltb 0 s.col
    then record s { col = s.col - 1 }
    else if ltb 0 s.row
    then record s { row = s.row - 1; col = width - 1 }
    else s

unfoldable pub rub_out : Vga → Vga
rub_out s =
    let back = step_back s in update_cursor (put_entry b' ' back.color back.col back.row back)

-- `if (++col >= WIDTH) { col = 0; ... }`
unfoldable pub advance : Vga → Vga
advance s =
    if leb width (s.col + 1) then next_row (record s { col = 0 }) else record s { col = s.col + 1 }

-- The rendering of a character in the normal state.
unfoldable pub render : ℕ → Vga → Vga
render c s =
    if c == 10
    then update_cursor (next_row (record s { col = 0 }))
    else if c == 13
    then update_cursor (record s { col = 0 })
    else if c == 8
    then rub_out s
    else update_cursor (advance (put_entry c s.color s.col s.row s))

-- `_put_char`, by the state of the escape parser.
unfoldable pub put_char_in : EscState → ℕ → Vga → Vga
put_char_in normal c s = if c == 27 then record s { esc_state = esc } else render c s
put_char_in esc c s = in_esc c s
put_char_in bracket c s = in_params c (record s { esc_state = params })
put_char_in params c s = in_params c s

unfoldable pub put_char : ℕ → Vga → Vga
put_char c s = put_char_in s.esc_state c s

unfoldable pub write : List ℕ → Vga → Vga
write [] s = s
write (c ∷ cs) s = write cs (put_char c s)

unfoldable pub write_line : List ℕ → Vga → Vga
write_line str s = put_char 10 (write str s)

-- The loop of `write_hex`, which fills the buffer from the right.
unfoldable pub hex_digits : ℕ → ℕ → List ℕ → List ℕ
hex_digits zero val out = out
hex_digits (suc n) val out =
    let d = val % 16 in
    hex_digits n (val / 16) ((if ltb d 10 then b'0' + d else b'A' + (d - 10)) ∷ out)

unfoldable pub write_hex : ℕ → Vga → Vga
write_hex val s = write (b'0' ∷ b'x' ∷ hex_digits 16 val []) s

-- The loop of `write_dec`: at most 20 digits.
unfoldable pub dec_digits : ℕ → ℕ → List ℕ → List ℕ
dec_digits zero val out = out
dec_digits (suc n) val out =
    let rest = dec_digits n (val / 10) ((b'0' + val % 10) ∷ out) in if val == 0 then out else rest

unfoldable pub write_dec : ℕ → Vga → Vga
write_dec val s = if val == 0 then put_char b'0' s else write (dec_digits 20 val []) s
