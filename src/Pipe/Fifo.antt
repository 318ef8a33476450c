-- ===== src/Pipe/Fifo.antt =====
-- fs/vfs.cpp: a pipe behaves as a first-in first-out queue of at most 4096 bytes.
use knail.Types.{ok, err, KError}
use knail.Prelude.{
  ℕ, zero, suc, ◌+◌, ◌-◌, ◌%◌, ◌^◌, ◌<◌, ◌≤◌, ◌≡◌, refl, ap, ap₂, sym, ◌∙◌, min, some, List, [],
  ◌∷◌, ◌++◌, arith, ltb, ◌==◌, if◌then◌else◌, length, get_or, set, take, drop, length-set,
  length-take, take-min, get_or-set_self, get_or-set_ne, append-nil, append_assoc,
}
use knail.Pipe.{PipeBuffer, pipe_buf_size, read_loop, write_loop, pipe_read, pipe_write}

-- The `n` bytes from position `h` on, going round at the end of the buffer.
abbrev pub window : List ℕ → ℕ → ℕ → List ℕ
window buf h zero = []
window buf h (suc n) = get_or buf (h % pipe_buf_size) 0 ∷ window buf (h + 1) n

-- The bytes that a pipe holds, oldest first.
abbrev pub contents : PipeBuffer → List ℕ
contents pb = window pb.buf pb.read_pos pb.used

pub record IsValid (pb : PipeBuffer) : Type 0 where
  pub sized : length pb.buf ≡ pipe_buf_size
  pub read_in : pb.read_pos < pipe_buf_size
  pub write_at : pb.write_pos ≡ (pb.read_pos + pb.used) % pipe_buf_size
  pub used_in : pb.used ≤ pipe_buf_size

window-mod :
    (buf : List ℕ) (n h k : ℕ)
    → h % pipe_buf_size ≡ k % pipe_buf_size
    → window buf h n ≡ window buf k n
window-mod buf zero h k e = refl
window-mod buf (suc n) h k e =
    ap₂ (λ (x : ℕ) (l : List ℕ). x ∷ l) (ap (λ (i : ℕ). get_or buf i 0) e)
      (window-mod buf n (h + 1) (k + 1) (omega arith))

pub length-window : (buf : List ℕ) (n h : ℕ) → length (window buf h n) ≡ n
length-window buf zero h = refl
length-window buf (suc n) h = ap suc (length-window buf n (h + 1))

window_of : (buf : List ℕ) (h k n m : ℕ) → h ≡ k → n ≡ m → window buf h n ≡ window buf k m
window_of buf h k n m p q = ap₂ (window buf) p q

take-window : (buf : List ℕ) (n m h : ℕ) → take n (window buf h m) ≡ window buf h (min n m)
take-window buf zero m h = window_of buf h h 0 (min 0 m) refl (omega arith)
take-window buf (suc n) zero h = window_of buf h h 0 (min (suc n) 0) refl (omega arith)
take-window buf (suc n) (suc m) h =
    ap (λ (l : List ℕ). get_or buf (h % pipe_buf_size) 0 ∷ l) (take-window buf n m (h + 1))
    ∙ window_of buf h h (suc (min n m)) (min (suc n) (suc m)) refl (omega arith)

drop-window :
    (buf : List ℕ) (n m h : ℕ) → drop n (window buf h m) ≡ window buf (h + min n m) (m - n)
drop-window buf zero m h = window_of buf h (h + min 0 m) m (m - 0) (omega arith) (omega arith)
drop-window buf (suc n) zero h =
    window_of buf h (h + min (suc n) 0) 0 (0 - suc n) (omega arith) (omega arith)
drop-window buf (suc n) (suc m) h =
    drop-window buf n m (h + 1)
    ∙ window_of buf (h + 1 + min n m) (h + min (suc n) (suc m)) (m - n) (suc m - suc n)
        (omega arith) (omega arith)

-- A write past a window, and before its next round, does not show in it.
window-set :
    (buf : List ℕ) (x n h k : ℕ)
    → h + n ≤ k
    → k < h + pipe_buf_size
    → window (set buf (k % pipe_buf_size) x) h n ≡ window buf h n
window-set buf x zero h k le lt = refl
window-set buf x (suc n) h k le lt =
    ap₂ (λ (y : ℕ) (l : List ℕ). y ∷ l)
      (get_or-set_ne buf (k % pipe_buf_size) (h % pipe_buf_size) x 0 (omega arith))
      (window-set buf x n (h + 1) k (omega arith) (omega arith))

window-snoc :
    (buf : List ℕ) (n h : ℕ)
    → window buf h (suc n) ≡ window buf h n ++ (get_or buf ((h + n) % pipe_buf_size) 0 ∷ [])
window-snoc buf zero h = ap (λ (i : ℕ). get_or buf (i % pipe_buf_size) 0 ∷ []) (omega arith)
window-snoc buf (suc n) h =
    ap (λ (l : List ℕ). get_or buf (h % pipe_buf_size) 0 ∷ l)
      (window-snoc buf n (h + 1)
        ∙ ap (λ (i : ℕ). window buf (h + 1) n ++ (get_or buf (i % pipe_buf_size) 0 ∷ []))
            (omega arith))

-- A write right behind a window extends it.
window-set_snoc :
    (buf : List ℕ) (x n h i : ℕ)
    → length buf ≡ pipe_buf_size
    → n < pipe_buf_size
    → i ≡ (h + n) % pipe_buf_size
    → window (set buf i x) h (suc n) ≡ window buf h n ++ (x ∷ [])
window-set_snoc buf x n h i sized lt e =
    ap (λ (j : ℕ). window (set buf j x) h (suc n)) e
    ∙ (window-snoc (set buf ((h + n) % pipe_buf_size) x) n h
        ∙ ap₂ (λ (l : List ℕ) (y : ℕ). l ++ (y ∷ []))
            (window-set buf x n h (h + n) (omega arith) (omega arith))
            (get_or-set_self buf ((h + n) % pipe_buf_size) x 0 (omega arith)))

-- The loop of `pipe_read` copies a window and moves the reading position past it.
read_loop_lem :
    (n : ℕ) (pb : PipeBuffer)
    → pb.read_pos < pipe_buf_size
    → read_loop n pb
      ≡ (window pb.buf pb.read_pos n, record pb { read_pos = (pb.read_pos + n) % pipe_buf_size })
unfolding read_loop
read_loop_lem zero pb lt = ap (λ (r : ℕ). ([], record pb { read_pos = r })) (omega arith)
read_loop_lem (suc n) pb lt =
    let r : ℕ = pb.read_pos in
    ground (
      arith,
      read_loop_lem n (record pb { read_pos = (r + 1) % pipe_buf_size }) (omega arith),
      window-mod pb.buf n ((r + 1) % pipe_buf_size) (r + 1) (omega arith),
    )

-- The loop of `pipe_write` appends its bytes to a window that ends at the writing position.
write_loop_lem :
    (bs : List ℕ) (n h : ℕ) (pb : PipeBuffer)
    → length pb.buf ≡ pipe_buf_size
    → pb.write_pos ≡ (h + n) % pipe_buf_size
    → n + length bs ≤ pipe_buf_size
    → (window (write_loop bs pb).buf h (n + length bs) ≡ window pb.buf h n ++ bs)
      × (length (write_loop bs pb).buf ≡ pipe_buf_size)
      × ((write_loop bs pb).write_pos ≡ (h + (n + length bs)) % pipe_buf_size)
      × ((write_loop bs pb).read_pos ≡ pb.read_pos)
      × ((write_loop bs pb).used ≡ pb.used)
      × ((write_loop bs pb).refcount ≡ pb.refcount)
unfolding write_loop
write_loop_lem [] n h pb sized at fits = (
  ap (window pb.buf h) (omega arith) ∙ sym (append-nil (window pb.buf h n)),
  sized,
  omega arith,
  refl,
  refl,
  refl,
)
write_loop_lem (b ∷ bs) n h pb sized at fits =
    let rest =
      write_loop_lem bs (suc n) h
        (record pb {
          buf = set pb.buf pb.write_pos b;
          write_pos = (pb.write_pos + 1) % pipe_buf_size;
        })
        (length-set pb.buf pb.write_pos b ∙ sized) (omega arith) (omega arith) in
    (
      ap (window (write_loop (b ∷ bs) pb).buf h) (omega arith)
          ∙ rest.0
          ∙ ap (λ (l : List ℕ). l ++ bs)
              (window-set_snoc pb.buf b n h pb.write_pos sized (omega arith) at)
          ∙ append_assoc (window pb.buf h n) (b ∷ []) bs,
      rest.1,
      omega (arith, rest.2),
      rest.3,
      rest.4,
      rest.5,
    )

-- What `pipe_read` does with a valid pipe: it returns the oldest `min len used` bytes in order,
-- their number as the reply, keeps the others, and leaves the pipe valid.
pub pipe_read_lem :
    (pb : PipeBuffer) (len : ℕ)
    → IsValid pb
    → (pb' : PipeBuffer) × (pipe_read (some pb) len
        ≡ (ok (min len pb.used), take len (contents pb), some pb'))
      × (contents pb' ≡ drop len (contents pb))
      × IsValid pb'
unfolding pipe_read
pipe_read_lem pb len v =
    let n : ℕ = min len pb.used in
    let h : ℕ = pb.read_pos in
    (
      record pb { read_pos = (h + n) % pipe_buf_size; used = pb.used - n },
      ground (
        arith,
        read_loop_lem len pb v.read_in,
        read_loop_lem pb.used pb v.read_in,
        take-window pb.buf len pb.used h,
      ),
      window-mod pb.buf (pb.used - n) ((h + n) % pipe_buf_size) (h + n) (omega arith)
          ∙ window_of pb.buf (h + n) (h + n) (pb.used - n) (pb.used - len) refl (omega arith)
          ∙ sym (drop-window pb.buf len pb.used h),
      omega arith,
    )

-- What `pipe_write` does with a valid pipe: to a full one, and for an empty buffer, it answers
-- `NoSpace` and changes nothing; otherwise it appends as many bytes as fit, in order, replies
-- their number, and leaves the pipe valid.
pub pipe_write_lem :
    (pb : PipeBuffer) (src : List ℕ)
    → IsValid pb
    → (pb' : PipeBuffer) × (pipe_write (some pb) src ≡ (
        if min (length src) (pipe_buf_size - pb.used) == 0
        then (err KError.no_space, some pb)
        else (ok (min (length src) (pipe_buf_size - pb.used)), some pb')))
      × (contents pb' ≡ contents pb ++ take (pipe_buf_size - pb.used) src)
      × IsValid pb'
unfolding pipe_write
pipe_write_lem pb src v =
    let space : ℕ = pipe_buf_size - pb.used in
    let n : ℕ = min (length src) space in
    let h : ℕ = pb.read_pos in
    let wrapped : ℕ = (pipe_buf_size + 2 ^ 64 - pb.used) % 2 ^ 64 in
    let chosen : (if ltb (length src) wrapped then length src else wrapped) ≡ n = ground arith in
    let size : length (take n src) ≡ n = omega (arith, length-take n src) in
    let done =
      write_loop_lem (take n src) pb.used h pb v.sized v.write_at (omega (arith, v.used_in)) in
    (
      record (write_loop (take n src) pb) { used = pb.used + n },
      rw chosen (ground arith),
      ap₂ (window (write_loop (take n src) pb).buf) done.3 (ap (λ (k : ℕ). pb.used + k) (sym size))
          ∙ done.0
          ∙ ap (λ (l : List ℕ). window pb.buf h pb.used ++ l) (take-min space src),
      omega (arith, done, size),
    )
