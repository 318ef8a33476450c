-- ===== src/Pipe/Tests.antt =====
-- Runs of the pipe, whose two bytes stand round the end of the buffer.
use knail.Prelude.{ℕ, ◌≡◌, refl, [], ◌∷◌, arith, length-replicate}
use knail.Pipe.{PipeBuffer, fresh}
use knail.Pipe.Run.{reads, writes, run, queue_run, run-queue_run}
use knail.Pipe.Fifo.{IsValid}

abbrev near_end : PipeBuffer
near_end = record fresh { read_pos = 4095; write_pos = 1; used = 2 }

near_end-IsValid : IsValid near_end
near_end-IsValid = record {
  sized = length-replicate {A = ℕ} 4096 0;
  read_in = omega arith;
  write_at = refl;
  used_in = omega arith;
}

run-queue_run_example :
    run near_end (reads 1 ∷ writes (7 ∷ []) ∷ reads 9 ∷ [])
    ≡ queue_run (0 ∷ 0 ∷ []) (reads 1 ∷ writes (7 ∷ []) ∷ reads 9 ∷ [])
run-queue_run_example = run-queue_run (reads 1 ∷ writes (7 ∷ []) ∷ reads 9 ∷ []) near_end-IsValid
