-- ===== src/Keyboard/Tests.antt =====
-- Runs of the keyboard, with one event in the last cell of the ring.
use mathlib.Core.Bool.{xor}
use knail.Prelude.{◌≡◌, refl, true, false, [], ◌∷◌, arith, replicate, length-replicate, some}
use knail.Keyboard.{
  Keyboard, KeyEvent, no_event, push_event, keyboard_handler, ascii_of, plain_key, wake_reader, eoi,
}
use knail.Keyboard.Fifo.{IsValid, events, push_event_lem}
use knail.Keyboard.Keys.{IsLetter, keyboard_handler_letter}

abbrev one_waits : Keyboard
one_waits = record {
  shift_held = true;
  ctrl_held = false;
  alt_held = false;
  caps_lock = false;
  e0_prefix = false;
  buf = replicate 64 no_event;
  buf_head = 0;
  buf_tail = 63;
  waiting_task = some 3;
  woken = [];
  eois = 0;
}

one_waits-IsValid : IsValid one_waits
one_waits-IsValid = record {
  sized = length-replicate {A = KeyEvent} 64 no_event;
  head_in = omega arith;
  tail_in = omega arith;
}

-- The key of the letter `a` with shift held.
capital_a :
    events (keyboard_handler 0x1e one_waits)
    ≡ no_event
      ∷ record {
        ascii = 65;
        scancode = 0x1e;
        pressed = true;
        shift = true;
        ctrl = false;
        alt = false;
      }
      ∷ []
unfolding keyboard_handler plain_key push_event wake_reader eoi ascii_of xor
capital_a = refl

push_event_lem_example :
    (events (push_event no_event one_waits) ≡ no_event ∷ no_event ∷ [])
    × IsValid (push_event no_event one_waits)
push_event_lem_example = push_event_lem no_event one_waits-IsValid

abbrev quiet : Keyboard
quiet = record one_waits { buf_head = 63 }

quiet-IsValid : IsValid quiet
quiet-IsValid = omega (arith, one_waits-IsValid)

a_key-IsLetter : IsLetter 0x1E
unfolding ascii_of
a_key-IsLetter = record { low = omega arith; from_a = omega arith; to_z = omega arith }

keyboard_handler_letter_example :
    (events (keyboard_handler 0x1E (keyboard_handler 0x2A quiet))
      ≡ record {
        ascii = b'A';
        scancode = 0x1E;
        pressed = true;
        shift = true;
        ctrl = false;
        alt = false;
      }
        ∷ [])
    × (events (keyboard_handler 0x1E (keyboard_handler 0xAA quiet))
        ≡ record {
          ascii = b'a';
          scancode = 0x1E;
          pressed = true;
          shift = false;
          ctrl = false;
          alt = false;
        }
          ∷ [])
unfolding ascii_of
keyboard_handler_letter_example =
    keyboard_handler_letter 0x1E quiet a_key-IsLetter quiet-IsValid refl refl (omega arith)
