-- ===== src/Timer.antt =====
-- kernel/timer.cpp: the tick count and the set-up of the interval timer. The registration of the
-- handler at the interrupt table is left out.
use knail.Prelude.{ℕ, ◌+◌, ◌*◌, ◌/◌, ◌%◌, ◌^◌, Option, none, some, ltb, ◌==◌, if◌then◌else◌, ◌>>=◌}
use knail.Pic.{Pic, outb, enable_irq, eoi}
use knail.Scheduler.{Sched}
use knail.Scheduler.Switch.{tick}

pub record Timer : Type 0 where
  pub tick_count : ℕ
  pub tick_hz : ℕ

abbrev pub pit_base_hz : ℕ
pit_base_hz = 1193182

-- The divisor of `init`, for a frequency that is not 0.
unfoldable pub divisor_of : ℕ → ℕ
divisor_of hz =
    let divisor = pit_base_hz / hz in
    let low = if ltb 0xFFFF divisor then 0xFFFF else divisor in if ltb low 1 then 1 else low

-- `none` is the division by 0.
unfoldable pub init : ℕ → Pic → Option (Timer × Pic)
init hz p =
    if hz == 0
    then none
    else let divisor = divisor_of hz in
      let p1 = outb 0x40 (divisor % 256) (outb 0x43 0x36 p) in
      some
        (record { tick_count = 0; tick_hz = hz }, enable_irq 0 (outb 0x40 (divisor / 256 % 256) p1))

-- The handler counts, ends the interrupt, and lets the scheduler work.
unfoldable pub timer_handler : ℕ → Timer → Pic → Sched → Option (Timer × Pic × Sched)
timer_handler fuel t p s = do
  s1 ← tick fuel s
  some (record t { tick_count = (t.tick_count + 1) % 2 ^ 64 }, eoi 0 p, s1)

-- `ms`, for a frequency that is not 0.
unfoldable pub ms : Timer → ℕ
ms t = t.tick_count * 1000 % 2 ^ 64 / t.tick_hz
