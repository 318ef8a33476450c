-- ===== src/Vga/Sequences.antt =====
-- drivers/vga.cpp: the escape sequences, and so every text, leave the console valid.
use knail.Prelude.{
  ℕ, ◌+◌, ◌-◌, ◌*◌, ◌%◌, ◌<◌, inl, inr, ◌&&◌, List, [], ◌∷◌, arith, ltb, ◌==◌, if◌then◌else◌,
  get_or, length-set, length-replicate, Bool-cases,
}
use knail.Vga.{Vga, EscState, normal, esc, bracket, params, width, height, update_cursor}
use knail.Vga.Escape.{
  apply_sgr, on_sgr, on_clear, on_up, on_down, on_forward, on_back, on_position, on_erase, on_save,
  on_restore, final_byte, in_params, in_esc, clamp,
}
use knail.Vga.Print.{put_char_in, put_char, write}
use knail.Vga.Bounds.{IsValid, at-IsValid, blanks-IsValid, clear-IsValid, render-IsValid}

sgr-IsValid : {s : Vga} (c : ℕ) → IsValid s → IsValid (on_sgr c s)
unfolding on_sgr apply_sgr
sgr-IsValid c h = ground arith

clear_test-IsValid : {s : Vga} (c : ℕ) → IsValid s → IsValid (on_clear c s)
unfolding on_clear
clear_test-IsValid {s} c h = elim (Bool-cases (c == b'J' && get_or s.esc_params 0 0 == 2)) [
  | inl asked ↦ rw asked (clear-IsValid h)
  | inr other ↦ rw other h
]

up-IsValid : {s : Vga} (c : ℕ) → IsValid s → IsValid (on_up c s)
unfolding on_up update_cursor
up-IsValid c h = ground arith

down-IsValid : {s : Vga} (c : ℕ) → IsValid s → IsValid (on_down c s)
unfolding on_down update_cursor
down-IsValid c h = ground arith

forward-IsValid : {s : Vga} (c : ℕ) → IsValid s → IsValid (on_forward c s)
unfolding on_forward update_cursor
forward-IsValid c h = ground arith

back-IsValid : {s : Vga} (c : ℕ) → IsValid s → IsValid (on_back c s)
unfolding on_back update_cursor
back-IsValid c h = ground arith

clamp-lt : (p limit : ℕ) → 0 < limit → clamp p limit < limit
clamp-lt p limit pos = ground arith

position-IsValid : {s : Vga} (c : ℕ) → IsValid s → IsValid (on_position c s)
unfolding on_position
position-IsValid {s} c h =
    let there =
      at-IsValid (clamp (get_or s.esc_params 0 0) height) (clamp (get_or s.esc_params 1 0) width)
        (clamp-lt (get_or s.esc_params 0 0) height (omega arith))
        (clamp-lt (get_or s.esc_params 1 0) width (omega arith)) h in
    elim (Bool-cases (c == b'H')) [
      | inl asked ↦ rw asked there
      | inr other ↦ elim (Bool-cases (c == b'f')) [
        | inl asked ↦ rw (other, asked) there
        | inr none_asked ↦ rw (other, none_asked) h
      ]
    ]

erase-IsValid : {s : Vga} (c : ℕ) → IsValid s → IsValid (on_erase c s)
unfolding on_erase
erase-IsValid {s} c h = elim (Bool-cases (c == b'K')) [
  | inr other ↦ rw other h
  | inl asked ↦ elim (Bool-cases (get_or s.esc_params 0 0 == 0)) [
    | inl end ↦
        rw (asked, end) (blanks-IsValid (width - s.col) s.col s.row (omega (arith, h)) h.row_in h)
    | inr p0 ↦ elim (Bool-cases (get_or s.esc_params 0 0 == 1)) [
      | inl start ↦
          rw (asked, p0, start) (blanks-IsValid (s.col + 1) 0 s.row (omega (arith, h)) h.row_in h)
      | inr p1 ↦ elim (Bool-cases (get_or s.esc_params 0 0 == 2)) [
        | inl whole ↦
            rw (asked, p0, p1, whole) (blanks-IsValid width 0 s.row (omega arith) h.row_in h)
        | inr p2 ↦ rw (asked, p0, p1, p2) h
      ]
    ]
  ]
]

save-IsValid : {s : Vga} (c : ℕ) → IsValid s → IsValid (on_save c s)
unfolding on_save update_cursor
save-IsValid c h = ground arith

restore-IsValid : {s : Vga} (c : ℕ) → IsValid s → IsValid (on_restore c s)
unfolding on_restore update_cursor
restore-IsValid c h = ground arith

state-IsValid : {s : Vga} (e : EscState) → IsValid s → IsValid (record s { esc_state = e })
state-IsValid e h = ground arith

final_byte-IsValid : {s : Vga} (c : ℕ) → IsValid s → IsValid (final_byte c s)
unfolding final_byte
final_byte-IsValid {s} c h =
    let counted : IsValid (record s {
      esc_param_count =
          if ltb s.esc_param_count 8 then s.esc_param_count + 1 else s.esc_param_count;
    }) =
      ground arith in
    let moved = position-IsValid c (
      back-IsValid c (
        forward-IsValid c
          (down-IsValid c (up-IsValid c (clear_test-IsValid c (sgr-IsValid c counted)))))) in
    state-IsValid normal (restore-IsValid c (save-IsValid c (erase-IsValid c moved)))

in_params-IsValid : {s : Vga} (c : ℕ) → IsValid s → IsValid (in_params c s)
unfolding in_params
in_params-IsValid {s} c h = ground (
  arith,
  final_byte-IsValid c h,
  length-set s.esc_params s.esc_param_count
      ((get_or s.esc_params s.esc_param_count 0 * 10 + (c - b'0')) % 256),
)

in_esc-IsValid : {s : Vga} (c : ℕ) → IsValid s → IsValid (in_esc c s)
unfolding in_esc
in_esc-IsValid c h = ground (arith, length-replicate {A = ℕ} 8 0)

put_char_in-IsValid : {s : Vga} (e : EscState) (c : ℕ) → IsValid s → IsValid (put_char_in e c s)
unfolding put_char_in
put_char_in-IsValid {s} normal c h = elim (Bool-cases (c == 27)) [
  | inl start ↦ rw start (state-IsValid esc h)
  | inr plain ↦ rw plain (render-IsValid c h)
]
put_char_in-IsValid esc c h = in_esc-IsValid c h
put_char_in-IsValid bracket c h = in_params-IsValid c (state-IsValid params h)
put_char_in-IsValid params c h = in_params-IsValid c h

-- Every character, in every state of the escape parser, keeps the cursor and the saved cursor on
-- the screen, the parameters in their array, and every write inside the text buffer.
pub put_char-IsValid : {s : Vga} (c : ℕ) → IsValid s → IsValid (put_char c s)
unfolding put_char
put_char-IsValid {s} c h = put_char_in-IsValid s.esc_state c h

-- On a valid console, every text, with whatever escape sequences, keeps the cursor and the saved
-- cursor on the screen, the parameters in their array, and every write inside the text buffer.
pub write-IsValid : (str : List ℕ) {s : Vga} → IsValid s → IsValid (write str s)
unfolding write
write-IsValid [] h = h
write-IsValid (c ∷ cs) h = write-IsValid cs (put_char-IsValid c h)
