-- ===== src/Arch/Gdt.antt =====
-- source/kernel/arch/gdt.c: segment descriptors. The load of the table, gdt_flush, is assembly.
pub mod Decode
use balloon.Base.{ℕ, ◌*◌, ◌-◌, bit_and, bit_or, ◌==◌, if◌then◌else◌, ◌>>◌, u8}

pub record GdtEntry : Type 0 where
  pub limit_low : ℕ
  pub base_low : ℕ
  pub base_middle : ℕ
  pub access : ℕ
  pub granularity : ℕ
  pub base_high : ℕ

unfoldable pub gdt_set_gate : (ℕ → GdtEntry) → (num base limit access gran : ℕ) → ℕ → GdtEntry
gdt_set_gate entries num base limit access gran i =
    let granularity = bit_and (limit >> 16) 0xf in
    if i == num
    then record {
      base_low = bit_and base 0xffff;
      base_middle = bit_and (base >> 16) 0xff;
      base_high = bit_and (base >> 24) 0xff;
      limit_low = bit_and limit 0xffff;
      granularity = bit_or granularity (bit_and gran 0xf0);
      access = access;
    }
    else entries i

-- The table behind init_gdt, and gdt_ptr.limit.
unfoldable pub init_gdt : (ℕ → GdtEntry) → ℕ → GdtEntry
init_gdt entries =
    let e₀ = gdt_set_gate entries 0 0 0 0 0 in
    let e₁ = gdt_set_gate e₀ 1 0 0xffff_ffff 0x9a 0xcf in
    let e₂ = gdt_set_gate e₁ 2 0 0xffff_ffff 0x92 0xcf in
    let e₃ = gdt_set_gate e₂ 3 0 0xffff_ffff 0xfa 0xcf in gdt_set_gate e₃ 4 0 0xffff_ffff 0xf2 0xcf

abbrev pub gdt_limit : ℕ
gdt_limit = 8 * 5 - 1
