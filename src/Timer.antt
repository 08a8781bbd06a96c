-- ===== src/Timer.antt =====
-- source/kernel/timer.c. The loop of sleep waits for the interrupts of the timer to set `unlock`;
-- here `ticks n` is what `n` of them do, one after the other. switch_task, which
-- timer_callback calls last, changes none of these variables.
pub mod Sleep
use balloon.Base.{
  ℕ, zero, suc, ◌+◌, ◌/◌, List, [], ◌∷◌, leb, ◌==◌, if◌then◌else◌, bit_and, add32, ◌>>◌,
}
use balloon.Arch.Idt.{Event, Idt, out_byte, register_interrupt_handler}

pub record Timer : Type 0 where
  pub tick : ℕ
  pub wait_till : ℕ
  pub unlock : ℕ

unfoldable pub timer_callback : Timer → Timer
timer_callback t =
    let tick : ℕ = add32 t.tick 1 in
    record t { tick = tick; unlock = if leb t.wait_till tick then 1 else t.unlock }

-- sleep, up to its loop
unfoldable pub start_sleep : Timer → (msec : ℕ) → Timer
start_sleep t msec = record t { wait_till = add32 t.tick msec; unlock = 0 }

unfoldable pub ticks : ℕ → Timer → Timer
ticks zero t = t
ticks (suc n) t = timer_callback (ticks n t)

-- `callback` is the address of timer_callback; IRQ0 is interrupt 32.
unfoldable pub init_timer : (callback : ℕ) → Idt → (freq : ℕ) → Idt × List Event
init_timer callback idt freq =
    let divisor = 1193180 / freq in
    (
      register_interrupt_handler idt 32 callback,
      out_byte 0x43 0x36
          ∷ out_byte 0x40 (bit_and divisor 0xff)
          ∷ out_byte 0x40 (bit_and (divisor >> 8) 0xff)
          ∷ [],
    )
