-- ===== src/Arch/Idt/Dispatch.antt =====
-- The gates that init_idt sets, and what an interrupt leads to.
use balloon.Base.{
  ℕ, zero, suc, ◌+◌, ◌*◌, ◌/◌, ◌<◌, ◌≡◌, ◌≢◌, ◌⊎◌, arith, ◌&&◌, [], ◌∷◌, ◌++◌, leb, ltb, ◌==◌,
  if◌then◌else◌,
}
use balloon.Base.Bits.{bit_and_low}
use balloon.Arch.Idt.{
  IdtEntry, Idt, out_byte, call, unhandled, cleared_entry, idt_set_gate, set_gates, init_idt,
  register_interrupt_handler, idt_handler, irq_handler,
}

abbrev pub base_of : IdtEntry → ℕ
base_of e = e.base_lo + e.base_hi * 0x1_0000

set_gates_lem :
    (isr : ℕ → ℕ) (n left i : ℕ) (entries : ℕ → IdtEntry)
    → set_gates isr n left entries i ≡ (
        if leb n i && ltb i (n + left)
        then idt_set_gate entries i (isr i) 0x08 0x8e i
        else entries i)
unfolding set_gates idt_set_gate
set_gates_lem isr n zero i entries = ground arith
set_gates_lem isr n (suc left) i entries =
    ground (arith, set_gates_lem isr (n + 1) left i (idt_set_gate entries n (isr n) 0x08 0x8e))

-- After init_idt the gates 0 to 47 and 255 lead to their entry points, in the kernel's code
-- segment, as interrupt gates of ring 0.
pub init_idt_gates :
    (isr : ℕ → ℕ) (t : Idt) (n : ℕ)
    → (n < 48) ⊎ (n ≡ 255)
    → isr n < 0x1_0000_0000
    → let e = (init_idt isr t).0.entries n in
      (base_of e ≡ isr n) × (e.sel ≡ 0x08) × (e.flags ≡ 0x8e) × (e.always0 ≡ 0)
unfolding init_idt idt_set_gate
init_idt_gates isr t n which h =
    let cleared : ℕ → IdtEntry = λ i. if leb 255 i then t.entries i else cleared_entry in
    ground (
      arith,
      set_gates_lem isr 0 48 n cleared,
      bit_and_low 16 (isr n),
      bit_and_low 16 (isr n / 0x1_0000),
    )

-- After init_idt no handler is registered, and a registered one is called for its interrupt alone:
-- a hardware interrupt is acknowledged at the second controller if it came from there, then at the
-- first, and only then handled.
pub irq_handler_registered :
    (isr : ℕ → ℕ) (t : Idt) (n handler int_no : ℕ)
    → int_no < 256
    → handler ≢ 0
    → irq_handler (register_interrupt_handler (init_idt isr t).0 n handler) int_no
      ≡ (if leb 40 int_no then out_byte 0xa0 0x20 ∷ [] else [])
        ++ out_byte 0x20 0x20 ∷ (if int_no == n then call handler int_no ∷ [] else [])
unfolding irq_handler register_interrupt_handler init_idt
irq_handler_registered isr t n handler int_no small nonzero = ground arith

-- An exception calls the handler that was registered last for it, and is reported if there is none.
pub idt_handler_registered :
    (t : Idt) (n handler int_no : ℕ)
    → handler ≢ 0
    → t.handlers int_no ≡ 0
    → idt_handler (register_interrupt_handler t n handler) int_no
      ≡ (if int_no == n then call handler int_no ∷ [] else unhandled int_no ∷ [])
unfolding idt_handler register_interrupt_handler
idt_handler_registered t n handler int_no nonzero none_yet = ground arith
