-- ===== src/Drivers/Atapi/Detect.antt =====
-- ide_initialize of source/drivers/disc/atapi.c: the ports of the two channels, and the drives that
-- answer there.
use balloon.Base.{
  ℕ, zero, suc, ◌+◌, ◌*◌, ◌&&◌, ◌||◌, not, Option, none, some, List, [], ◌∷◌, bit_and, bit_or, ◌==◌,
  if◌then◌else◌, u8, u16, ◌<<◌,
}
use balloon.Heap.Skip.{◌>>=◌}
use balloon.Arch.Idt.{Idt, register_interrupt_handler}
use balloon.Drivers.Atapi.{
  Device, Ide, IdeDevice, checking, found, first_byte, sleep, shown, event, ide_write, ide_read,
  ide_read_buffer,
}
use balloon.Drivers.Atapi.Sectors.{atapi_read}

-- (BAR & 0xFFFFFFFC) + legacy * (!BAR), as an unsigned short
unfoldable pub bar_port : (bar legacy : ℕ) → ℕ
bar_port bar legacy = u16 (bit_and bar 0xffff_fffc + legacy * (if bar == 0 then 1 else 0))

unfoldable pub set_channels : Ide → (bar0 bar1 bar2 bar3 bar4 : ℕ) → Ide
set_channels s bar0 bar1 bar2 bar3 bar4 =
    let old = s.channels in
    record s {
      channels = λ c.
          if c == 0
          then record {
            base = bar_port bar0 0x1f0;
            ctrl = bar_port bar1 0x3f4;
            bmide = bar_port bar4 0;
            nien = (old 0).nien;
          }
          else if c == 1
          then record {
            base = bar_port bar2 0x170;
            ctrl = bar_port bar3 0x374;
            bmide = u16 (bit_and bar4 0xffff_fffc + 8);
            nien = (old 1).nien;
          }
          else old c;
    }

-- The loop of step (III): it ends with err = 1, or with 0 once the drive has data. `none`: neither
-- came in `fuel` reads.
unfoldable pub await_identify : (fuel : ℕ) → Device → Ide → (channel : ℕ) → Option (ℕ × Ide)
await_identify zero dev s channel = none
await_identify (suc fuel) dev s channel =
    let (status, s') = ide_read dev s channel 0x07 in
    let rest = await_identify fuel dev s' channel in
    if bit_and status 0x01 == 0
    then (if bit_and status 0x80 == 0 && not (bit_and status 0x08 == 0) then some (0, s') else rest)
    else some (1, s')

-- Step (IV). `none`: the signature of neither kind.
unfoldable pub probe_atapi : Device → Ide → (channel : ℕ) → Option ℕ × Ide
probe_atapi dev s channel =
    let (cl, s₁) = ide_read dev s channel 0x04 in
    let (ch, s₂) = ide_read dev s₁ channel 0x05 in
    if (cl == 0x14 && ch == 0xeb) || (cl == 0x69 && ch == 0x96)
    then (some 1, event dev (ide_write dev s₂ channel 0x07 0xa1) (sleep 1))
    else (none, s₂)

unfoldable pub word16 : (ℕ → ℕ) → (a : ℕ) → ℕ
word16 buf a = buf a + 0x100 * buf (a + 1)

unfoldable pub word32 : (ℕ → ℕ) → (a : ℕ) → ℕ
word32 buf a = word16 buf a + 0x1_0000 * word16 buf (a + 2)

-- The loop of step (VIII) from `k` on, `pairs` rounds, and the 0 behind the name.
unfoldable pub model_name : (pairs : ℕ) → (ℕ → ℕ) → (k : ℕ) → List ℕ
model_name zero buf k = 0 ∷ []
model_name (suc pairs) buf k = buf (54 + k + 1) ∷ buf (54 + k) ∷ model_name pairs buf (k + 2)

-- Steps (VI) to (VIII), from the identification in ide_buf.
unfoldable pub identified : (buf : ℕ → ℕ) → (type i j : ℕ) → IdeDevice
identified buf type i j =
    let command_sets = word32 buf 164 in
    record {
      reserved = 1;
      type = type;
      channel = i;
      drive = j;
      signature = word16 buf 0;
      capabilities = word16 buf 98;
      command_sets = command_sets;
      size = if bit_and command_sets (1 << 26) == 0 then word32 buf 120 else word32 buf 200;
      model = model_name 20 buf 0;
    }

abbrev pub set_device : Ide → (count : ℕ) → IdeDevice → Ide
set_device s count d =
    let old = s.devices in record s { devices = λ n. if n == count then d else old n }

-- Step (V) and those behind it.
unfoldable pub add_device : Device → Ide → (count type i j : ℕ) → ℕ × Ide
add_device dev s count type i j =
    let s' = ide_read_buffer dev s i 0x00 128 in
    (count + 1, set_device s' count (identified s'.buf type i j))

-- Steps (V) to (VIII) for a drive of a known kind; otherwise the loop goes on.
unfoldable pub with_kind : Device → (count i j : ℕ) → Option ℕ → Ide → ℕ × Ide
with_kind dev count i j none s = (count, s)
with_kind dev count i j (some type) s = add_device dev s count type i j

-- The kind of the drive on a channel that answers: step (III) and step (IV).
unfoldable pub kind_of : (fuel : ℕ) → Device → Ide → (channel : ℕ) → Option (Option ℕ × Ide)
kind_of fuel dev s channel = await_identify fuel dev s channel >>= λ (err, s').
    some (if err == 0 then (some 0, s') else probe_atapi dev s' channel)

-- Steps (I) and (II), and the status that is read then.
unfoldable pub select : Device → Ide → (count i j : ℕ) → ℕ × Ide
select dev s count i j =
    let s₁ = event dev s (shown (checking i j)) in
    let s₂ = set_device s₁ count (record (s₁.devices count) { reserved = 0 }) in
    let s₃ = event dev (ide_write dev s₂ i 0x06 (u8 (bit_or 0xa0 (j << 4)))) (sleep 1) in
    ide_read dev (event dev (ide_write dev s₃ i 0x07 0xec) (sleep 1)) i 0x07

-- The body of the two loops.
unfoldable pub detect : (fuel : ℕ) → Device → (count : ℕ) → Ide → (i j : ℕ) → Option (ℕ × Ide)
detect fuel dev count s i j =
    let (status, s₁) = select dev s count i j in
    let known = kind_of fuel dev s₁ i >>= λ (kind, s₂). some (with_kind dev count i j kind s₂) in
    if status == 0 then some (count, s₁) else known

-- The four rounds of the two loops.
unfoldable pub detect_all : (fuel : ℕ) → Device → Ide → Option (ℕ × Ide)
detect_all fuel dev s = detect fuel dev 0 s 0 0 >>= λ (n₁, s₁).
    (detect fuel dev n₁ s₁ 0 1 >>= λ (n₂, s₂).
    (detect fuel dev n₂ s₂ 1 0 >>= λ (n₃, s₃). detect fuel dev n₃ s₃ 1 1))

-- for (; i < i + left; i++): the summary
unfoldable pub summary : (left : ℕ) → Device → Ide → (i : ℕ) → Ide
summary zero dev s i = s
summary (suc left) dev s i =
    let d = s.devices i in
    summary left dev
      (if d.reserved == 1 then event dev s (shown (found d.type i d.size d.model)) else s) (i + 1)

-- `handler` is the address of ide_irq; IRQ14 and IRQ15 are the interrupts 46 and 47.
unfoldable pub ide_initialize :
    (fuel : ℕ)
    → Device
    → (handler : ℕ) → Idt
    → Ide
    → (bar0 bar1 bar2 bar3 bar4 : ℕ) → Option (Idt × Ide)
ide_initialize fuel dev handler idt s bar0 bar1 bar2 bar3 bar4 =
    let idt' = register_interrupt_handler (register_interrupt_handler idt 46 handler) 47 handler in
    let s₁ = set_channels s bar0 bar1 bar2 bar3 bar4 in
    let s₂ = ide_write dev (ide_write dev s₁ 0 0x0c 2) 1 0x0c 2 in
    detect_all fuel dev s₂ >>= λ (count, s₃).
    (atapi_read fuel dev (summary 4 dev s₃ 0) 0 0x10 1 >>= λ (err, s₄).
    some (idt', event dev s₄ (shown (first_byte (s₄.buf 0)))))
