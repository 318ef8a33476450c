-- ===== src/Pipe/Run.antt =====
-- fs/vfs.cpp: histories of reads and writes of a pipe, against a queue of bytes.
use knail.Types.{KResult, ok, err, KError}
use knail.Prelude.{
  ℕ, ◌-◌, ◌≡◌, refl, ap, ◌∙◌, min, Option, none, some, List, [], ◌∷◌, ◌++◌, arith, ◌==◌,
  if◌then◌else◌, length, take, drop, append-nil, Bool-cases, sym, take-min, inl, inr,
}
use knail.Pipe.{PipeBuffer, pipe_buf_size, pipe_read, pipe_write}
use knail.Pipe.Fifo.{IsValid, contents, pipe_read_lem, pipe_write_lem, length-window}

pub data Op : Type 0 where
  reads : ℕ → Op
  writes : List ℕ → Op

-- What a call gives back: the reply, and the bytes that a read hands over.
abbrev pub Reply : Type 0
Reply = KResult ℕ × List ℕ

abbrev next : Option PipeBuffer → PipeBuffer → PipeBuffer
next none pb = pb
next (some pb') pb = pb'

pub run : PipeBuffer → List Op → List Reply
run pb [] = []
run pb (reads len ∷ ops) =
    let (reply, bytes, pb') = pipe_read (some pb) len in (reply, bytes) ∷ run (next pb' pb) ops
run pb (writes src ∷ ops) =
    let (reply, pb') = pipe_write (some pb) src in (reply, []) ∷ run (next pb' pb) ops

-- The same calls on a bounded queue, oldest byte first.
pub queue_run : List ℕ → List Op → List Reply
queue_run q [] = []
queue_run q (reads len ∷ ops) = (ok (min len (length q)), take len q) ∷ queue_run (drop len q) ops
queue_run q (writes src ∷ ops) =
    let space = pipe_buf_size - length q in
    (if min (length src) space == 0 then err KError.no_space else ok (min (length src) space), [])
    ∷ queue_run (q ++ take space src) ops

length-contents : (pb : PipeBuffer) → length (contents pb) ≡ pb.used
length-contents pb = length-window pb.buf pb.used pb.read_pos

-- Where nothing fits, nothing is appended.
nothing_fits : (q src : List ℕ) (space : ℕ) → min (length src) space ≡ 0 → q ++ take space src ≡ q
nothing_fits q src space e =
    ap (λ (l : List ℕ). q ++ l) (sym (take-min space src) ∙ ap (λ (k : ℕ). take k src) e)
    ∙ append-nil q

-- No sequence of reads and writes tells a valid pipe from the queue of the bytes that it holds.
pub run-queue_run :
    (ops : List Op) {pb : PipeBuffer} → IsValid pb → run pb ops ≡ queue_run (contents pb) ops
unfolding run queue_run
run-queue_run [] v = refl
run-queue_run (reads len ∷ ops) {pb} v =
    let (pb', done, held, v') = pipe_read_lem pb len v in
    rw (done, length-contents pb, ← held)
      (ap (λ (l : List Reply). (ok (min len pb.used), take len (contents pb)) ∷ l)
        (run-queue_run ops v'))
run-queue_run (writes src ∷ ops) {pb} v =
    let (pb', done, held, v') = pipe_write_lem pb src v in
    rw (length-contents pb) (elim (Bool-cases (min (length src) (pipe_buf_size - pb.used) == 0)) [
      | inl nothing ↦
          rw
            (done, nothing, nothing_fits (contents pb) src (pipe_buf_size - pb.used) (ground arith))
            (ap (λ (l : List Reply). (err KError.no_space, []) ∷ l) (run-queue_run ops v))
      | inr something ↦
          rw (done, something, ← held)
            (ap (λ (l : List Reply). (ok (min (length src) (pipe_buf_size - pb.used)), []) ∷ l)
              (run-queue_run ops v'))
    ])
