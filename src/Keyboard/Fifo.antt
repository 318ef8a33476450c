-- ===== src/Keyboard/Fifo.antt =====
-- drivers/keyboard.cpp: the ring of events is a first-in first-out queue of at most 63 events.
use knail.Prelude.{
  ℕ, zero, suc, ◌+◌, ◌-◌, ◌%◌, ◌<◌, ◌≤◌, ◌≡◌, refl, ap, ap₂, ◌∙◌, Option, none, some, List, [], ◌∷◌,
  ◌++◌, arith, ltb, ◌==◌, if◌then◌else◌, length, get_or, set, length-set, get_or-set_self,
  get_or-set_ne, Bool-cases, inl, inr, true, ◌⊎◌,
}
use knail.Keyboard.{
  Keyboard, KeyEvent, no_event, buf_size, push_event, wake_reader, pop_event, has_event, read_round,
}

-- The `n` events from cell `h` on, going round at the end of the ring.
abbrev window : List KeyEvent → ℕ → ℕ → List KeyEvent
window buf h zero = []
window buf h (suc n) = get_or buf (h % buf_size) no_event ∷ window buf (h + 1) n

abbrev pub waiting : Keyboard → ℕ
waiting s = (s.buf_head + buf_size - s.buf_tail) % buf_size

-- The events that were not read yet, oldest first.
abbrev pub events : Keyboard → List KeyEvent
events s = window s.buf s.buf_tail (waiting s)

pub record IsValid (s : Keyboard) : Type 0 where
  pub sized : length s.buf ≡ buf_size
  pub head_in : s.buf_head < buf_size
  pub tail_in : s.buf_tail < buf_size

length-window : (buf : List KeyEvent) (n h : ℕ) → length (window buf h n) ≡ n
length-window buf zero h = refl
length-window buf (suc n) h = ap suc (length-window buf n (h + 1))

-- At most 63 events wait.
pub length-events : (s : Keyboard) → length (events s) < buf_size
length-events s = omega (arith, length-window s.buf (waiting s) s.buf_tail)

window-mod :
    (buf : List KeyEvent) (n h k : ℕ)
    → h % buf_size ≡ k % buf_size
    → window buf h n ≡ window buf k n
window-mod buf zero h k e = refl
window-mod buf (suc n) h k e =
    ap₂ (λ (x : KeyEvent) (l : List KeyEvent). x ∷ l) (ap (λ (i : ℕ). get_or buf i no_event) e)
      (window-mod buf n (h + 1) (k + 1) (omega arith))

window-set :
    (buf : List KeyEvent) (x : KeyEvent) (n h k : ℕ)
    → h + n ≤ k
    → k < h + buf_size
    → window (set buf (k % buf_size) x) h n ≡ window buf h n
window-set buf x zero h k le lt = refl
window-set buf x (suc n) h k le lt =
    ap₂ (λ (y : KeyEvent) (l : List KeyEvent). y ∷ l)
      (get_or-set_ne buf (k % buf_size) (h % buf_size) x no_event (omega arith))
      (window-set buf x n (h + 1) k (omega arith) (omega arith))

window-snoc :
    (buf : List KeyEvent) (n h : ℕ)
    → window buf h (suc n) ≡ window buf h n ++ (get_or buf ((h + n) % buf_size) no_event ∷ [])
window-snoc buf zero h = ap (λ (i : ℕ). get_or buf (i % buf_size) no_event ∷ []) (omega arith)
window-snoc buf (suc n) h =
    ap (λ (l : List KeyEvent). get_or buf (h % buf_size) no_event ∷ l)
      (window-snoc buf n (h + 1)
        ∙ ap (λ (i : ℕ). window buf (h + 1) n ++ (get_or buf (i % buf_size) no_event ∷ []))
            (omega arith))

-- A write right behind a window extends it.
window-set_snoc :
    (buf : List KeyEvent) (x : KeyEvent) (n h i : ℕ)
    → length buf ≡ buf_size
    → n < buf_size
    → i ≡ (h + n) % buf_size
    → window (set buf i x) h (suc n) ≡ window buf h n ++ (x ∷ [])
window-set_snoc buf x n h i sized lt e =
    ap (λ (j : ℕ). window (set buf j x) h (suc n)) e
    ∙ (window-snoc (set buf ((h + n) % buf_size) x) n h
        ∙ ap₂ (λ (l : List KeyEvent) (y : KeyEvent). l ++ (y ∷ []))
            (window-set buf x n h (h + n) (omega arith) (omega arith))
            (get_or-set_self buf ((h + n) % buf_size) x no_event (omega arith)))

wake_reader-events :
    (t : Option ℕ) (s : Keyboard)
    → (events (wake_reader t s) ≡ events s) × (IsValid s → IsValid (wake_reader t s))
unfolding wake_reader
wake_reader-events none s = (refl, λ v. v)
wake_reader-events (some t) s =
    (refl, λ v. record { sized = v.sized; head_in = v.head_in; tail_in = v.tail_in })

-- On a valid keyboard `push_event` appends the event when fewer than 63 wait, and drops it
-- otherwise; the keyboard stays valid.
pub push_event_lem :
    (e : KeyEvent) {s : Keyboard}
    → IsValid s
    → (events (push_event e s)
        ≡ (if ltb (length (events s)) 63 then events s ++ (e ∷ []) else events s))
      × IsValid (push_event e s)
unfolding push_event
push_event_lem e {s} v =
    let n : ℕ = waiting s in
    let size : length (events s) ≡ n = length-window s.buf n s.buf_tail in
    elim (Bool-cases ((s.buf_head + 1) % buf_size == s.buf_tail)) [
      | inl full ↦ (rw full (ground (arith, size)), rw full v)
      | inr room ↦
          let s' : Keyboard = record s {
            buf = set s.buf s.buf_head e;
            buf_head = (s.buf_head + 1) % buf_size;
          } in
          let kept = wake_reader-events s.waiting_task s' in
          let less : ltb (length (events s)) 63 ≡ true = ground (arith, size, v) in
          let more : waiting s' ≡ suc n = ground (arith, v) in
          let grown : events s' ≡ events s ++ (e ∷ []) =
            ap (window s'.buf s.buf_tail) more
            ∙ window-set_snoc s.buf e n s.buf_tail s.buf_head v.sized (omega arith)
                (omega (arith, v)) in
          (
            rw (room, less) (kept.0 ∙ grown),
            rw room (
                kept.1 (record {
                  sized = length-set s.buf s.buf_head e ∙ v.sized;
                  head_in = omega arith;
                  tail_in = v.tail_in;
                })),
          )
    ]

-- On a valid keyboard one round of `read_event` takes the oldest event when one waits, and leaves
-- the keyboard valid; otherwise it takes nothing and changes nothing but the waiting task.
read_round_lem :
    (me : ℕ) {s : Keyboard}
    → IsValid s
    → ((e : KeyEvent) × ((read_round me s).0 ≡ some e)
        × (events s ≡ e ∷ events (read_round me s).1)
        × IsValid (read_round me s).1)
      ⊎ (((read_round me s).0 ≡ none)
          × (events s ≡ [])
          × ((read_round me s).1 ≡ record s { waiting_task = some me }))
unfolding read_round has_event pop_event
read_round_lem me {s} v = elim (Bool-cases (s.buf_head == s.buf_tail)) [
  | inl empty ↦
      let none_wait : waiting s ≡ 0 = ground arith in
      inr (rw empty refl, ap (window s.buf s.buf_tail) none_wait, rw empty refl)
  | inr more ↦
      let t' : ℕ = (s.buf_tail + 1) % buf_size in
      let n' : ℕ = (s.buf_head + buf_size - t') % buf_size in
      let less : waiting s ≡ suc n' = ground (arith, v) in
      inl (
        get_or s.buf s.buf_tail no_event,
        rw more refl,
        rw more (
            ap (window s.buf s.buf_tail) less
            ∙ ap₂ (λ (i : ℕ) (l : List KeyEvent). get_or s.buf i no_event ∷ l) (omega (arith, v))
                (window-mod s.buf n' (s.buf_tail + 1) t' (omega arith))),
        rw more (record { sized = v.sized; head_in = v.head_in; tail_in = omega arith }),
      )
]
