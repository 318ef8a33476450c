-- ===== src/Vfs/Tty.antt =====
-- fs/vfs.cpp: the terminal, `tty_push_seq`, `tty_pb_pop` and `tty_read`. The events are those that
-- `keyboard::read_event` will return, one a call; a read that waits for one more has no result.
use knail.Types.{KResult, ok, err, KError}
use knail.Prelude.{
  ℕ, zero, suc, ◌+◌, ◌-◌, ◌%◌, Bool, false, ◌||◌, Option, none, some, ◌>>=◌, List, [], ◌∷◌, ◌++◌,
  ltb, ◌==◌, if◌then◌else◌, get_or, set, length,
}
use knail.Keyboard.{KeyEvent}

-- `tty_pushback`, `tty_pb_len` and `tty_pb_head`.
pub record Tty : Type 0 where
  pub pushback : List ℕ
  pub pb_len : ℕ
  pub pb_head : ℕ

unfoldable pub tty_push_seq : List ℕ → Tty → Tty
tty_push_seq [] t = t
tty_push_seq (c ∷ cs) t =
    let slot = (t.pb_head + t.pb_len) % 8 in
    let rest =
      tty_push_seq cs (record t { pushback = set t.pushback slot c; pb_len = t.pb_len + 1 }) in
    if ltb t.pb_len 8 then rest else t

unfoldable pub tty_pb_pop : Tty → ℕ × Tty
tty_pb_pop t = (
  get_or t.pushback t.pb_head 0,
  record t { pb_head = (t.pb_head + 1) % 8; pb_len = t.pb_len - 1 },
)

-- The inner loop of `tty_read`, by the room left in the caller's buffer.
unfoldable pub drain : ℕ → Tty → List ℕ × Tty
drain zero t = ([], t)
drain (suc room) t =
    let (c, t1) = tty_pb_pop t in
    let (more, t2) = drain room t1 in if t.pb_len == 0 then ([], t) else (c ∷ more, t2)

-- The escape sequence of a key without a character.
unfoldable pub seq_of : ℕ → List ℕ
seq_of scancode =
    let csi : List ℕ → List ℕ = λ rest. 0x1B ∷ b'[' ∷ rest in
    if scancode == 0xC8
    then csi (b'A' ∷ [])
    else if scancode == 0xD0
    then csi (b'B' ∷ [])
    else if scancode == 0xCD
    then csi (b'C' ∷ [])
    else if scancode == 0xCB
    then csi (b'D' ∷ [])
    else if scancode == 0xC7
    then csi (b'H' ∷ [])
    else if scancode == 0xCF
    then csi (b'F' ∷ [])
    else if scancode == 0xD3
    then csi (b'3' ∷ b'~' ∷ [])
    else if scancode == 0xC9
    then csi (b'5' ∷ b'~' ∷ [])
    else if scancode == 0xD1
    then csi (b'6' ∷ b'~' ∷ [])
    else []

-- What an event puts into the buffer, whether it ends the line, and the terminal behind it.
unfoldable pub on_event : KeyEvent → Tty → List ℕ × Bool × Tty
on_event e t =
    if e.pressed
    then (if e.ascii == 0
        then ([], false, tty_push_seq (seq_of e.scancode) t)
        else (e.ascii ∷ [], (e.ascii == 10) || (e.ascii == 13), t))
    else ([], false, t)

-- The outer loop, on the events to come and the room left: the bytes, the terminal, and the events
-- that are left.
unfoldable pub tty_loop : List KeyEvent → ℕ → Tty → Option (List ℕ × Tty × List KeyEvent)
tty_loop [] room t =
    let (drained, t1) = drain room t in
    if room - length drained == 0 then some (drained, t1, []) else none
tty_loop (e ∷ es) room t =
    let (drained, t1) = drain room t in
    let left = room - length drained in
    let (typed, ended, t2) = on_event e t1 in
    let rest = tty_loop es (left - length typed) t2 in
    if left == 0
    then some (drained, t1, e ∷ es)
    else if ended
    then some (drained ++ typed, t2, es)
    else rest >>= (λ r. some (drained ++ typed ++ r.0, r.1, r.2))

-- `buf` is not null.
unfoldable pub tty_read :
    List KeyEvent → ℕ → Tty → Option (KResult ℕ × List ℕ × Tty × List KeyEvent)
tty_read events len t =
    if len == 0
    then some (err KError.invalid_argument, [], t, events)
    else tty_loop events len t >>= (λ r. some (ok (length r.0), r.0, r.1, r.2))
