-- ===== src/Keyboard/Keys.antt =====
-- drivers/keyboard.cpp: what typing a letter does to the events that wait.
use knail.Prelude.{
  ℕ, ◌+◌, ◌-◌, ◌<◌, ◌≤◌, ◌≡◌, refl, ap, ◌∙◌, [], ◌∷◌, ◌++◌, arith, ltb, leb, ◌==◌, if◌then◌else◌,
  length, Bool, true, false, not, xor, ◌&&◌, ◌||◌, every_below, every_below-at,
}
use knail.Keyboard.{Keyboard, KeyEvent, push_event, plain_key, keyboard_handler, eoi, ascii_of}
use knail.Keyboard.Fifo.{IsValid, events, push_event_lem}
use Prim.Native.Nat.{bit_and}

shift_agrees : ℕ → Bool
shift_agrees key =
    let c = ascii_of key false in not (leb 97 c && leb c 122) || (ascii_of key true + 32 == c)

all_agree : every_below 128 shift_agrees ≡ true
unfolding ascii_of shift_agrees every_below
all_agree = refl

-- For each key whose plain character is a small letter, the character with shift is its capital.
ascii_of-shift :
    (key : ℕ)
    → key < 128
    → 97 ≤ ascii_of key false
    → ascii_of key false ≤ 122
    → ascii_of key true + 32 ≡ ascii_of key false
unfolding shift_agrees
ascii_of-shift key lt lo hi =
    let found : shift_agrees key ≡ true = every_below-at shift_agrees 128 key lt all_agree in
    ground (arith, found)

-- Facts of a key whose plain character is a small letter: the byte of its press is its number, and
-- it is none of the keys that only change a state.
letter_ok : ℕ → Bool
letter_ok key =
    let c = ascii_of key false in
    not (leb 97 c && leb c 122)
    || ((bit_and key 0x7F == key)
        && (bit_and key 0x80 == 0)
        && not (key == 0xE0)
        && not ((key == 0x2A) || (key == 0x36))
        && not (key == 0x1D)
        && not (key == 0x38)
        && not (key == 0x3A))

letters_ok : every_below 128 letter_ok ≡ true
unfolding ascii_of letter_ok every_below
letters_ok = refl

pub record IsLetter (key : ℕ) : Type 0 where
  pub low : key < 128
  pub from_a : 97 ≤ ascii_of key false
  pub to_z : ascii_of key false ≤ 122

without_prefix : (b : Bool) (x y : Keyboard) → b ≡ false → (if b then x else y) ≡ y
without_prefix true x y e = absurd cc
without_prefix false x y e = refl

-- The event of the press of a key, in the state `s`.
abbrev press_event : ℕ → Keyboard → KeyEvent
press_event key s = record {
  ascii = ascii_of key (xor s.shift_held s.caps_lock);
  scancode = key;
  pressed = true;
  shift = s.shift_held;
  ctrl = s.ctrl_held;
  alt = s.alt_held;
}

-- The press of a letter's key.
press_letter :
    (key : ℕ) (s : Keyboard)
    → IsLetter key
    → s.e0_prefix ≡ false
    → keyboard_handler key s ≡ eoi (push_event (press_event key s) s)
unfolding keyboard_handler plain_key letter_ok
press_letter key s l plain =
    let ok : letter_ok key ≡ true = every_below-at letter_ok 128 key l.low letters_ok in
    let lo : leb 97 (ascii_of key false) ≡ true = ground (arith, l.from_a) in
    let hi : leb (ascii_of key false) 122 ≡ true = ground (arith, l.to_z) in
    let same : bit_and key 0x7F ≡ key = ground (arith, ok) in
    let off : (key == 0xE0) ≡ false = ground (arith, ok) in
    let pressed : (bit_and key 0x80 == 0) ≡ true = ground (arith, ok) in
    let no_shift : ((key == 0x2A) || (key == 0x36)) ≡ false = ground (arith, ok) in
    let no_ctrl : (key == 0x1D) ≡ false = ground (arith, ok) in
    let no_alt : (key == 0x38) ≡ false = ground (arith, ok) in
    let no_caps : (key == 0x3A) ≡ false = ground (arith, ok) in
    let clear : plain_key key false s ≡ push_event (press_event key s) s =
      rw (no_shift, no_ctrl, no_alt, no_caps) refl in
    rw (off, same, pressed) (without_prefix s.e0_prefix _ _ plain ∙ ap eoi clear)

press_letter-events :
    (key : ℕ) (s : Keyboard)
    → IsLetter key
    → IsValid s
    → s.e0_prefix ≡ false
    → length (events s) < 63
    → events (keyboard_handler key s) ≡ events s ++ (press_event key s ∷ [])
unfolding eoi
press_letter-events key s l v plain room =
    let space : ltb (length (events s)) 63 ≡ true = ground (arith, room) in
    ap events (press_letter key s l plain)
    ∙ (push_event_lem (press_event key s) v).0
    ∙ rw space refl

-- The two bytes of the left shift key.
shift_make :
    (s : Keyboard)
    → s.e0_prefix ≡ false
    → keyboard_handler 0x2A s ≡ eoi (record s { shift_held = true })
unfolding keyboard_handler plain_key
shift_make s plain = without_prefix s.e0_prefix _ _ plain

shift_break :
    (s : Keyboard)
    → s.e0_prefix ≡ false
    → keyboard_handler 0xAA s ≡ eoi (record s { shift_held = false })
unfolding keyboard_handler plain_key
shift_break s plain = without_prefix s.e0_prefix _ _ plain

-- On a valid keyboard with room, no prefix and no caps lock: behind the press of the left shift key,
-- the press of a letter's key adds one event, with the capital, and behind the release of it one
-- with the small letter; either has the key's number and says whether shift is held, and the two
-- bytes of the shift key add none.
pub keyboard_handler_letter :
    (key : ℕ) (s : Keyboard)
    → IsLetter key
    → IsValid s
    → s.e0_prefix ≡ false
    → s.caps_lock ≡ false
    → length (events s) < 63
    → (events (keyboard_handler key (keyboard_handler 0x2A s))
        ≡ events s
          ++ (record {
            ascii = ascii_of key false - 32;
            scancode = key;
            pressed = true;
            shift = true;
            ctrl = s.ctrl_held;
            alt = s.alt_held;
          }
              ∷ []))
      × (events (keyboard_handler key (keyboard_handler 0xAA s))
          ≡ events s
            ++ (record {
              ascii = ascii_of key false;
              scancode = key;
              pressed = true;
              shift = false;
              ctrl = s.ctrl_held;
              alt = s.alt_held;
            }
                ∷ []))
unfolding eoi mathlib.Core.Bool.xor
keyboard_handler_letter key s l v plain no_caps room =
    let capital : ascii_of key true ≡ ascii_of key false - 32 =
      omega (arith, ascii_of-shift key l.low l.from_a l.to_z) in
    (
      ap (λ (x : Keyboard). events (keyboard_handler key x)) (shift_make s plain)
          ∙ press_letter-events key (eoi (record s { shift_held = true })) l (omega (arith, v))
              plain room
          ∙ ap (λ (a : ℕ). events s ++ (typed true a ∷ []))
              (ap (λ (c : Bool). ascii_of key (xor true c)) no_caps ∙ capital),
      ap (λ (x : Keyboard). events (keyboard_handler key x)) (shift_break s plain)
          ∙ press_letter-events key (eoi (record s { shift_held = false })) l (omega (arith, v))
              plain room
          ∙ ap (λ (a : ℕ). events s ++ (typed false a ∷ []))
              (ap (λ (c : Bool). ascii_of key (xor false c)) no_caps),
    )
  where
    typed : Bool → ℕ → KeyEvent
    typed shift a = record {
      ascii = a;
      scancode = key;
      pressed = true;
      shift = shift;
      ctrl = s.ctrl_held;
      alt = s.alt_held;
    }
