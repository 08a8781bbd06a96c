-- ===== src/Arch/Gdt/Decode.antt =====
-- What the processor reads in a descriptor that gdt_set_gate wrote.
use balloon.Base.{
  ℕ, ◌+◌, ◌*◌, ◌/◌, ◌%◌, ◌<◌, ◌≡◌, arith, bit_and, bit_or, ◌==◌, if◌then◌else◌, ◌>>◌,
}
use balloon.Base.Bits.{bit_and_low, bit_and_high, bit_or_fields, bit_or_comm}
use balloon.Arch.Gdt.{GdtEntry, gdt_set_gate}

-- The base, the limit and the flags in the fields where the processor looks for them.
abbrev pub base_of : GdtEntry → ℕ
base_of e = e.base_low + e.base_middle * 0x1_0000 + e.base_high * 0x100_0000

abbrev pub limit_of : GdtEntry → ℕ
limit_of e = e.limit_low + e.granularity % 16 * 0x1_0000

abbrev pub flags_of : GdtEntry → ℕ
flags_of e = e.granularity / 16

granularity_lem :
    (limit gran : ℕ)
    → gran < 0x100
    → bit_or (bit_and (limit >> 16) 0xf) (bit_and gran 0xf0)
      ≡ gran / 16 * 16 + limit / 0x1_0000 % 16
granularity_lem limit gran h =
    let low : bit_and (limit >> 16) 0xf ≡ limit / 0x1_0000 % 16 =
      bit_and_low 4 (limit / 0x1_0000) in
    let high : bit_and gran 0xf0 ≡ gran / 16 * 16 =
      omega (arith, bit_and_high 4 gran 0xf, bit_and_low 4 (gran / 16)) in
    rw (low, high, bit_or_comm (limit / 0x1_0000 % 16) (gran / 16 * 16))
      (bit_or_fields 4 (gran / 16) (limit / 0x1_0000 % 16) (omega arith))

-- A descriptor holds the 32 bits of the base, the low 20 bits of the limit, the access byte and
-- the high half of the granularity byte; the other descriptors stay.
pub gdt_set_gate_lem :
    (entries : ℕ → GdtEntry) (num base limit access gran i : ℕ)
    → base < 0x1_0000_0000
    → gran < 0x100
    → let e = gdt_set_gate entries num base limit access gran in
      (base_of (e num) ≡ base)
      × (limit_of (e num) ≡ limit % 0x10_0000)
      × ((e num).access ≡ access)
      × (flags_of (e num) ≡ gran / 16)
      × (gdt_set_gate entries num base limit access gran i
          ≡ (if i == num then e num else entries i))
unfolding gdt_set_gate
gdt_set_gate_lem entries num base limit access gran i hb hg = ground (
  arith,
  bit_and_low 16 base,
  bit_and_low 8 (base / 0x1_0000),
  bit_and_low 8 (base / 0x100_0000),
  bit_and_low 16 limit,
  granularity_lem limit gran hg,
)
