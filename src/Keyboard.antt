-- ===== src/Keyboard.antt =====
-- drivers/keyboard.cpp: the scan codes of the PS/2 keyboard become events in a ring of 64 cells.
-- A character is its ASCII code. The tasks that the driver hands to `sched::wake` are listed in
-- `woken`, and `eois` counts the calls of `pic::eoi`.
pub mod Fifo
pub mod Keys
mod Tests
use Prim.Native.Nat.{bit_and, bit_or}
use knail.Prelude.{
  ℕ, zero, suc, ◌+◌, ◌%◌, Bool, true, false, not, xor, ◌&&◌, ◌||◌, List, [], ◌∷◌, ◌++◌, Option,
  none, some, get_or, set, replicate, ltb, ◌==◌, if◌then◌else◌,
}

abbrev pub buf_size : ℕ
buf_size = 64

pub record KeyEvent : Type 0 where
  pub ascii : ℕ
  pub scancode : ℕ
  pub pressed : Bool
  pub shift : Bool
  pub ctrl : Bool
  pub alt : Bool

-- The event of a cell that was never written.
abbrev pub no_event : KeyEvent
no_event = record {
  ascii = 0;
  scancode = 0;
  pressed = false;
  shift = false;
  ctrl = false;
  alt = false;
}

pub record Keyboard : Type 0 where
  pub shift_held : Bool
  pub ctrl_held : Bool
  pub alt_held : Bool
  pub caps_lock : Bool
  pub e0_prefix : Bool
  pub buf : List KeyEvent
  pub buf_head : ℕ
  pub buf_tail : ℕ
  pub waiting_task : Option ℕ
  pub woken : List ℕ
  pub eois : ℕ

-- The two tables, as far as their entries are written out; the rest is 0.
abbrev pub scancode_map : List ℕ
scancode_map =
    0 ∷ 0 ∷ b'1' ∷ b'2' ∷ b'3' ∷ b'4' ∷ b'5' ∷ b'6' ∷ b'7' ∷ b'8' ∷ b'9' ∷ b'0' ∷ b'-' ∷ b'=' ∷ 8
    ∷ 9 ∷ b'q' ∷ b'w' ∷ b'e' ∷ b'r' ∷ b't' ∷ b'y' ∷ b'u' ∷ b'i' ∷ b'o' ∷ b'p' ∷ b'[' ∷ b']' ∷ 10 ∷ 0
    ∷ b'a' ∷ b's' ∷ b'd' ∷ b'f' ∷ b'g' ∷ b'h' ∷ b'j' ∷ b'k' ∷ b'l' ∷ b';' ∷ 39 ∷ b'`' ∷ 0 ∷ 92
    ∷ b'z' ∷ b'x' ∷ b'c' ∷ b'v' ∷ b'b' ∷ b'n' ∷ b'm' ∷ b',' ∷ b'.' ∷ b'/' ∷ 0 ∷ b'*' ∷ 0 ∷ b' ' ∷ []

abbrev pub scancode_shift : List ℕ
scancode_shift =
    0 ∷ 0 ∷ b'!' ∷ b'@' ∷ b'#' ∷ b'$' ∷ b'%' ∷ b'^' ∷ b'&' ∷ b'*' ∷ b'(' ∷ b')' ∷ b'_' ∷ b'+' ∷ 8
    ∷ 9 ∷ b'Q' ∷ b'W' ∷ b'E' ∷ b'R' ∷ b'T' ∷ b'Y' ∷ b'U' ∷ b'I' ∷ b'O' ∷ b'P' ∷ b'{' ∷ b'}' ∷ 10 ∷ 0
    ∷ b'A' ∷ b'S' ∷ b'D' ∷ b'F' ∷ b'G' ∷ b'H' ∷ b'J' ∷ b'K' ∷ b'L' ∷ b':' ∷ 34 ∷ b'~' ∷ 0 ∷ b'|'
    ∷ b'Z' ∷ b'X' ∷ b'C' ∷ b'V' ∷ b'B' ∷ b'N' ∷ b'M' ∷ b'<' ∷ b'>' ∷ b'?' ∷ 0 ∷ b'*' ∷ 0 ∷ b' ' ∷ []

-- Waking the blocked reader.
unfoldable pub wake_reader : Option ℕ → Keyboard → Keyboard
wake_reader none s = s
wake_reader (some t) s = record s { waiting_task = none; woken = s.woken ++ (t ∷ []) }

unfoldable pub push_event : KeyEvent → Keyboard → Keyboard
push_event e s =
    let next = (s.buf_head + 1) % buf_size in
    if next == s.buf_tail
    then s
    else wake_reader s.waiting_task (record s { buf = set s.buf s.buf_head e; buf_head = next })

unfoldable pub eoi : Keyboard → Keyboard
eoi s = record s { eois = s.eois + 1 }

-- The keys of the extended block that become events.
unfoldable pub is_extended : ℕ → Bool
is_extended key =
    (key == 0x48)
    || (key == 0x50)
    || (key == 0x4B)
    || (key == 0x4D)
    || (key == 0x47)
    || (key == 0x4F)
    || (key == 0x49)
    || (key == 0x51)
    || (key == 0x53)
    || (key == 0x52)

-- The switch behind an `E0` prefix.
unfoldable pub extended_key : ℕ → Bool → Keyboard → Keyboard
extended_key key released s =
    if is_extended key
    then push_event
        (record {
          ascii = 0;
          scancode = bit_or 0x80 key % 256;
          pressed = not released;
          shift = s.shift_held;
          ctrl = s.ctrl_held;
          alt = s.alt_held;
        })
        s
    else if key == 0x1D
    then record s { ctrl_held = not released }
    else if key == 0x38
    then record s { alt_held = not released }
    else s

unfoldable pub ascii_of : ℕ → Bool → ℕ
ascii_of key use_shift =
    if ltb key 128
    then (if use_shift then get_or scancode_shift key 0 else get_or scancode_map key 0)
    else 0

unfoldable pub plain_key : ℕ → Bool → Keyboard → Keyboard
plain_key key released s =
    if (key == 0x2A) || (key == 0x36)
    then record s { shift_held = not released }
    else if key == 0x1D
    then record s { ctrl_held = not released }
    else if key == 0x38
    then record s { alt_held = not released }
    else if (key == 0x3A) && not released
    then record s { caps_lock = not s.caps_lock }
    else push_event
        (record {
          ascii = ascii_of key (xor s.shift_held s.caps_lock);
          scancode = key;
          pressed = not released;
          shift = s.shift_held;
          ctrl = s.ctrl_held;
          alt = s.alt_held;
        })
        s

-- `sc` is the byte that the port gives.
unfoldable pub keyboard_handler : ℕ → Keyboard → Keyboard
keyboard_handler sc s =
    if sc == 0xE0
    then eoi (record s { e0_prefix = true })
    else let released = not (bit_and sc 0x80 == 0) in
      let key = bit_and sc 0x7F in
      if s.e0_prefix
      then eoi (extended_key key released (record s { e0_prefix = false }))
      else eoi (plain_key key released s)

-- `init`, on the state: the ring's cells, the prefix and the waiting task are left as they were.
unfoldable pub init : Keyboard → Keyboard
init s = record s {
  shift_held = false;
  ctrl_held = false;
  alt_held = false;
  caps_lock = false;
  buf_head = 0;
  buf_tail = 0;
}

unfoldable pub has_event : Keyboard → Bool
has_event s = not (s.buf_head == s.buf_tail)

unfoldable pub pop_event : Keyboard → KeyEvent × Keyboard
pop_event s =
    (get_or s.buf s.buf_tail no_event, record s { buf_tail = (s.buf_tail + 1) % buf_size })

-- One round of `read_event` by task `me`: an event, or nothing, and the task is about to block.
unfoldable pub read_round : ℕ → Keyboard → Option KeyEvent × Keyboard
read_round me s =
    if has_event s
    then (let (e, s') = pop_event s in (some e, s'))
    else (none, record s { waiting_task = some me })
