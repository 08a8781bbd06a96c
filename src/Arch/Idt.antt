-- ===== src/Arch/Idt.antt =====
-- source/kernel/arch/idt.c: interrupt gates, handlers, and the dispatch of an interrupt. The
-- entry points isr0 to irq15 are assembly: `isr n` is the address of the one for the gate n. The
-- load of the table, idt_flush, is assembly too.
pub mod Dispatch
use balloon.Base.{
  ℕ, zero, suc, ◌+◌, ◌*◌, Option, none, some, List, [], ◌∷◌, ◌++◌, bit_and, leb, ◌==◌,
  if◌then◌else◌, ◌>>◌,
}

pub record IdtEntry : Type 0 where
  pub base_lo : ℕ
  pub sel : ℕ
  pub always0 : ℕ
  pub flags : ℕ
  pub base_hi : ℕ

-- What the code does outside its tables, in order: a byte to a port, the call of a handler (by
-- its address) with the number of the interrupt, the message about an unhandled interrupt.
pub data Event : Type 0 where
  out_byte : (port data_byte : ℕ) → Event
  call : (handler int_no : ℕ) → Event
  unhandled : (int_no : ℕ) → Event

-- A handler is an address, and 0 is none.
pub record Idt : Type 0 where
  pub entries : ℕ → IdtEntry
  pub handlers : ℕ → ℕ

unfoldable pub idt_set_gate : (ℕ → IdtEntry) → (num base sel flags : ℕ) → ℕ → IdtEntry
idt_set_gate entries num base sel flags i =
    if i == num
    then record {
      base_lo = bit_and base 0xffff;
      base_hi = bit_and (base >> 16) 0xffff;
      sel = sel;
      always0 = 0;
      flags = flags;
    }
    else entries i

-- The calls of init_idt for the gates from `n` on, `left` of them, in the order of their numbers.
unfoldable pub set_gates : (isr : ℕ → ℕ) → (n left : ℕ) → (ℕ → IdtEntry) → ℕ → IdtEntry
set_gates isr n zero entries = entries
set_gates isr n (suc left) entries =
    set_gates isr (n + 1) left (idt_set_gate entries n (isr n) 0x08 0x8e)

abbrev pub cleared_entry : IdtEntry
cleared_entry = record { base_lo = 0; sel = 0; always0 = 0; flags = 0; base_hi = 0 }

-- The bytes that set the two interrupt controllers up.
abbrev pub remap : List Event
remap =
    out_byte 0x20 0x11
    ∷ out_byte 0xa0 0x11
    ∷ out_byte 0x21 0x20
    ∷ out_byte 0xa1 0x28
    ∷ out_byte 0x21 0x04
    ∷ out_byte 0xa1 0x02
    ∷ out_byte 0x21 0x01
    ∷ out_byte 0xa1 0x01
    ∷ out_byte 0x21 0x0
    ∷ out_byte 0xa1 0x0
    ∷ []

-- The memset of the gates covers 255 of the 256; the last one is set below.
unfoldable pub init_idt : (isr : ℕ → ℕ) → Idt → Idt × List Event
init_idt isr t =
    let cleared : ℕ → IdtEntry = λ i. if leb 255 i then t.entries i else cleared_entry in
    (
      record {
        handlers = λ i. if leb 256 i then t.handlers i else 0;
        entries = idt_set_gate (set_gates isr 0 48 cleared) 255 (isr 255) 0x08 0x8e;
      },
      remap,
    )

unfoldable pub register_interrupt_handler : Idt → (n handler : ℕ) → Idt
register_interrupt_handler t n handler = record t {
  handlers = λ i. if i == n then handler else t.handlers i;
}

unfoldable pub idt_handler : Idt → (int_no : ℕ) → List Event
idt_handler t int_no =
    if t.handlers int_no == 0 then unhandled int_no ∷ [] else call (t.handlers int_no) int_no ∷ []

unfoldable pub irq_handler : Idt → (int_no : ℕ) → List Event
irq_handler t int_no =
    (if leb 40 int_no then out_byte 0xa0 0x20 ∷ [] else [])
    ++ out_byte 0x20 0x20
      ∷ (if t.handlers int_no == 0 then [] else call (t.handlers int_no) int_no ∷ [])
