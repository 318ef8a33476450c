-- ===== src/Vga/Escape.antt =====
-- drivers/vga.cpp: the escape sequences, `apply_sgr` and the final bytes of a CSI sequence.
use knail.Prelude.{
  ℕ, zero, suc, ◌+◌, ◌-◌, ◌*◌, ◌/◌, ◌%◌, Bool, true, false, List, get_or, set, replicate, ltb, leb,
  ◌==◌, if◌then◌else◌, ◌&&◌,
}
use knail.Vga.{
  Vga, normal, bracket, width, height, black, light_gray, make_color, ansi_to_vga_fg,
  ansi_to_vga_bg, update_cursor, clear, blanks,
}

-- The variables of the loop of `apply_sgr`.
pub record Sgr : Type 0 where
  pub fg : ℕ
  pub bg : ℕ
  pub bright : Bool

unfoldable pub sgr_step : ℕ → Sgr → Sgr
sgr_step p g =
    if p == 0
    then record { fg = light_gray; bg = black; bright = false }
    else if p == 1
    then record g { bright = true }
    else if leb 30 p && leb p 37
    then record g { fg = ansi_to_vga_fg p }
    else if leb 90 p && leb p 97
    then record g { fg = ansi_to_vga_fg p }
    else if leb 40 p && leb p 47
    then record g { bg = ansi_to_vga_bg p }
    else if leb 100 p && leb p 107
    then record g { bg = ansi_to_vga_fg (p - 60) }
    else g

-- The loop over the parameters, by the rounds left and the index.
unfoldable pub sgr_loop : ℕ → ℕ → List ℕ → Sgr → Sgr
sgr_loop zero i ps g = g
sgr_loop (suc n) i ps g = sgr_loop n (i + 1) ps (sgr_step (get_or ps i 0) g)

unfoldable pub apply_sgr : Vga → Vga
apply_sgr s =
    if s.esc_param_count == 0
    then record s { color = make_color light_gray black }
    else let g =
        sgr_loop s.esc_param_count 0 s.esc_params
          (record { fg = s.color % 16; bg = s.color / 16 % 16; bright = false }) in
      let fg = if g.bright && ltb g.fg 8 then g.fg + 8 else g.fg in
      record s { color = make_color fg g.bg }

abbrev param : Vga → ℕ → ℕ
param s i = get_or s.esc_params i 0

-- `esc_params[i] ? esc_params[i] : 1`
abbrev steps : Vga → ℕ
steps s = if param s 0 == 0 then 1 else param s 0

-- The tests of the final byte, one after the other.
unfoldable pub on_sgr : ℕ → Vga → Vga
on_sgr c s = if c == b'm' then apply_sgr s else s

unfoldable pub on_clear : ℕ → Vga → Vga
on_clear c s = if c == b'J' && param s 0 == 2 then clear s else s

unfoldable pub on_up : ℕ → Vga → Vga
on_up c s =
    if c == b'A'
    then update_cursor (record s { row = if leb (steps s) s.row then s.row - steps s else 0 })
    else s

unfoldable pub on_down : ℕ → Vga → Vga
on_down c s =
    if c == b'B'
    then update_cursor
        (record s { row = if ltb (s.row + steps s) height then s.row + steps s else height - 1 })
    else s

unfoldable pub on_forward : ℕ → Vga → Vga
on_forward c s =
    if c == b'C'
    then update_cursor
        (record s { col = if ltb (s.col + steps s) width then s.col + steps s else width - 1 })
    else s

unfoldable pub on_back : ℕ → Vga → Vga
on_back c s =
    if c == b'D'
    then update_cursor (record s { col = if leb (steps s) s.col then s.col - steps s else 0 })
    else s

-- 1-indexed; the hardware cursor is not updated.
abbrev pub clamp : ℕ → ℕ → ℕ
clamp p limit = let at = if p == 0 then 0 else p - 1 in if leb limit at then limit - 1 else at

unfoldable pub on_position : ℕ → Vga → Vga
on_position c s =
    if c == b'H'
    then record s { row = clamp (param s 0) height; col = clamp (param s 1) width }
    else if c == b'f'
    then record s { row = clamp (param s 0) height; col = clamp (param s 1) width }
    else s

unfoldable pub on_erase : ℕ → Vga → Vga
on_erase c s =
    if c == b'K'
    then if param s 0 == 0
      then blanks (width - s.col) s.col s.row s
      else if param s 0 == 1
      then blanks (s.col + 1) 0 s.row s
      else if param s 0 == 2
      then blanks width 0 s.row s
      else s
    else s

unfoldable pub on_save : ℕ → Vga → Vga
on_save c s =
    if c == b's' then update_cursor (record s { saved_row = s.row; saved_col = s.col }) else s

unfoldable pub on_restore : ℕ → Vga → Vga
on_restore c s =
    if c == b'u' then update_cursor (record s { row = s.saved_row; col = s.saved_col }) else s

-- The final byte of a sequence.
unfoldable pub final_byte : ℕ → Vga → Vga
final_byte c s =
    let counted = record s {
      esc_param_count =
          if ltb s.esc_param_count 8 then s.esc_param_count + 1 else s.esc_param_count;
    } in
    let moved =
      on_position c
        (on_back c (on_forward c (on_down c (on_up c (on_clear c (on_sgr c counted)))))) in
    record (on_restore c (on_save c (on_erase c moved))) { esc_state = normal }

-- `case EscState::Params`.
unfoldable pub in_params : ℕ → Vga → Vga
in_params c s =
    if leb b'0' c && leb c b'9'
    then if ltb s.esc_param_count 8
      then record s {
        esc_params =
            set s.esc_params s.esc_param_count
              ((param s s.esc_param_count * 10 + (c - b'0')) % 256);
      }
      else s
    else if c == b';'
    then if ltb s.esc_param_count 7 then record s { esc_param_count = s.esc_param_count + 1 } else s
    else final_byte c s

-- `case EscState::Esc`.
unfoldable pub in_esc : ℕ → Vga → Vga
in_esc c s =
    if c == b'['
    then record s { esc_state = bracket; esc_param_count = 0; esc_params = replicate 8 0 }
    else record s { esc_state = normal }
