-- ===== src/Timer/Sleep.antt =====
-- When sleep wakes, and what init_timer programs.
use balloon.Base.{
  ℕ, zero, suc, ◌+◌, ◌/◌, ◌≤◌, ◌<◌, ◌≡◌, ◌&&◌, [], ◌∷◌, ◌%◌, arith, leb, if◌then◌else◌,
}
use balloon.Base.Bits.{bit_and_low}
use native.Mathlib.Nat.{le-div_iff_mul-le}
use balloon.Arch.Idt.{Idt, out_byte, register_interrupt_handler}
use balloon.Timer.{Timer, timer_callback, start_sleep, ticks, init_timer}

ticks_lem :
    (t : Timer) (msec n : ℕ)
    → t.tick + msec < 0x1_0000_0000
    → t.tick + n < 0x1_0000_0000
    → ((ticks n (start_sleep t msec)).tick ≡ t.tick + n)
      × ((ticks n (start_sleep t msec)).wait_till ≡ t.tick + msec)
      × ((ticks n (start_sleep t msec)).unlock ≡ (if leb 1 n && leb msec n then 1 else 0))
unfolding ticks timer_callback start_sleep
ticks_lem t msec zero h h' = ground arith
ticks_lem t msec (suc n) h h' = ground (arith, ticks_lem t msec n)

-- While the count of ticks does not wrap, sleep(msec) wakes at the tick `msec` and not before, and
-- sleep(0) at the first: its argument counts ticks.
pub sleep_wakes :
    (t : Timer) (msec n : ℕ)
    → t.tick + msec < 0x1_0000_0000
    → t.tick + n < 0x1_0000_0000
    → (ticks n (start_sleep t msec)).unlock ≡ (if leb 1 n && leb msec n then 1 else 0)
sleep_wakes t msec n h h' = (ticks_lem t msec n h h').2

divisor_small : (freq : ℕ) → 19 ≤ freq → 1193180 / freq / 0x100 < 0x100
divisor_small freq h =
    ground (arith, le-div_iff_mul-le {k = freq} {x = 0x1_0000} {y = 1193180} (omega arith))

-- From 19 Hz on init_timer sends the divisor 1193180 / freq as two bytes, the low one first, with
-- nothing lost of it; and the interrupt 32 calls the handler.
pub init_timer_lem :
    (callback : ℕ) (idt : Idt) (freq : ℕ)
    → 19 ≤ freq
    → ((init_timer callback idt freq).1
        ≡ out_byte 0x43 0x36
          ∷ out_byte 0x40 (1193180 / freq % 0x100)
          ∷ out_byte 0x40 (1193180 / freq / 0x100)
          ∷ [])
      × (1193180 / freq / 0x100 < 0x100)
      × ((init_timer callback idt freq).0.handlers 32 ≡ callback)
unfolding init_timer register_interrupt_handler
init_timer_lem callback idt freq h = (
  ground (
    arith,
    bit_and_low 8 (1193180 / freq),
    bit_and_low 8 (1193180 / freq / 0x100),
    divisor_small freq h,
  ),
  divisor_small freq h,
  ground arith,
)
