-- ===== src/Elf.antt =====
-- elf_lookup_symbol of source/kernel/elf.c. An entry of the symbol table has 16 bytes: name at 0,
-- value at 4, size at 8, info at 12. The loop recurs on the entries that are left.
pub mod Lookup
pub mod Sections
use balloon.Base.{
  ℕ, zero, suc, ◌+◌, ◌*◌, ◌/◌, Bool, ◌&&◌, Option, none, some, bit_and, leb, ltb, ◌==◌,
  if◌then◌else◌, add32,
}
use balloon.Ram.Access.{Ram, load32}

pub record Elf : Type 0 where
  pub symtab : ℕ
  pub symtabsz : ℕ
  pub strtab : ℕ
  pub strtabsz : ℕ

-- The entry is a function's, and the address lies in the function.
unfoldable pub matches : Ram → (addr entry : ℕ) → Bool
matches m addr entry =
    bit_and (m (entry + 12)) 0xf == 2
    && leb (load32 m (entry + 4)) addr
    && ltb addr (add32 (load32 m (entry + 4)) (load32 m (entry + 8)))

unfoldable pub search_symbols : Ram → Elf → (addr i left : ℕ) → Option ℕ
search_symbols m elf addr i zero = none
search_symbols m elf addr i (suc left) =
    let rest = search_symbols m elf addr (i + 1) left in
    if matches m addr (elf.symtab + 16 * i)
    then some (add32 elf.strtab (load32 m (elf.symtab + 16 * i)))
    else rest

-- `none`: the end of the function is reached, which has no return there.
unfoldable pub elf_lookup_symbol : Ram → (addr : ℕ) → Elf → Option ℕ
elf_lookup_symbol m addr elf = search_symbols m elf addr 0 (elf.symtabsz / 16)
