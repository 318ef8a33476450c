-- ===== src/Vga/Tests.antt =====
-- Runs of the console at the last cell of the screen.
use knail.Prelude.{All, List, ◌≡◌, ℕ, refl, false, [], ◌∷◌, arith, replicate, length-replicate}
use knail.Vga.{Vga, normal}
use knail.Vga.Print.{write, write_dec, write_hex}
use knail.Vga.Numerals.{value, IsDigit, write_numeral_lem}
use knail.Vga.Bounds.{IsValid}
use knail.Vga.Sequences.{write-IsValid}

abbrev corner : Vga
corner = record {
  buffer = replicate 2000 0x0720;
  col = 79;
  row = 24;
  color = 7;
  saved_row = 0;
  saved_col = 0;
  esc_state = normal;
  esc_params = replicate 8 0;
  esc_param_count = 0;
  cursor = 1999;
  stray = false;
}

corner-IsValid : IsValid corner
corner-IsValid = record {
  sized = length-replicate {A = ℕ} 2000 0x0720;
  col_in = omega arith;
  row_in = omega arith;
  saved_col_in = omega arith;
  saved_row_in = omega arith;
  params_sized = refl;
  count_in = omega arith;
  clean = refl;
}

-- The escape sequence `ESC [ 9 9 C`, then a letter.
write-IsValid_example : IsValid (write (27 ∷ 91 ∷ 57 ∷ 57 ∷ 67 ∷ 65 ∷ []) corner)
write-IsValid_example = write-IsValid (27 ∷ 91 ∷ 57 ∷ 57 ∷ 67 ∷ 65 ∷ []) corner-IsValid

write_numeral_lem_example :
    ((ds : List ℕ) × (write_dec 907 corner ≡ write ds corner)
      × (value 10 0 ds ≡ 907)
      × All (IsDigit 10) ds)
    × ((ds : List ℕ) × (write_hex 907 corner ≡ write (b'0' ∷ b'x' ∷ ds) corner)
        × (value 16 0 ds ≡ 907)
        × All (IsDigit 16) ds)
write_numeral_lem_example = write_numeral_lem 907 corner (omega arith)
