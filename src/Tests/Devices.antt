-- ===== src/Tests/Devices.antt =====
-- Descriptors, interrupts, the timer and the PCI bus.
use balloon.Base.{ℕ, ◌+◌, ◌*◌, ◌/◌, ◌%◌, ◌≡◌, [], ◌∷◌, arith, ◌==◌, if◌then◌else◌}
use balloon.Arch.Gdt.{GdtEntry, gdt_set_gate}
use balloon.Arch.Gdt.Decode.{base_of, limit_of, flags_of, gdt_set_gate_lem}
use balloon.Arch.Idt.{
  Idt, out_byte, call, cleared_entry, init_idt, register_interrupt_handler, irq_handler,
}
use balloon.Arch.Idt.Dispatch
use balloon.Timer.{Timer}

abbrev no_entries : ℕ → GdtEntry
no_entries i = record {
  limit_low = 0;
  base_low = 0;
  base_middle = 0;
  access = 0;
  granularity = 0;
  base_high = 0;
}

gdt_set_gate_lem_example :
    let e = gdt_set_gate no_entries 2 0x1234_5678 0xffff_ffff 0x92 0xcf in
    (base_of (e 2) ≡ 0x1234_5678)
    × (limit_of (e 2) ≡ 0xffff_ffff % 0x10_0000)
    × ((e 2).access ≡ 0x92)
    × (flags_of (e 2) ≡ 0xcf / 16)
    × (gdt_set_gate no_entries 2 0x1234_5678 0xffff_ffff 0x92 0xcf 3
        ≡ (if 3 == 2 then e 2 else no_entries 3))
gdt_set_gate_lem_example =
    gdt_set_gate_lem no_entries 2 0x1234_5678 0xffff_ffff 0x92 0xcf 3 (omega arith) (omega arith)

abbrev entry_point : ℕ → ℕ
entry_point n = 0x10_0000 + 16 * n

abbrev blank_idt : Idt
blank_idt = record { entries = λ _. cleared_entry; handlers = λ _. 7 }

irq_handler_registered_example :
    irq_handler (register_interrupt_handler (init_idt entry_point blank_idt).0 46 0x20_0000) 46
    ≡ out_byte 0xa0 0x20 ∷ out_byte 0x20 0x20 ∷ call 0x20_0000 46 ∷ []
irq_handler_registered_example =
    Dispatch.irq_handler_registered entry_point blank_idt 46 0x20_0000 46 (omega arith)
      (λ e. omega (arith, e))

abbrev timer : Timer
timer = record { tick = 10; wait_till = 0; unlock = 1 }

-- The vendor is 0x8086 and the device 0x1237 on every address.
abbrev bridge : ℕ → ℕ
bridge address = 0x1237_8086
