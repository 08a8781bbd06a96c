-- ===== src/Elf/Sections.antt =====
-- elf_from_multiboot of source/kernel/elf.c. In multiboot_t num is at 28, addr at 36 and shndx at
-- 40; a section header has 40 bytes: name at 0, addr at 12, size at 20.
pub mod Found
use balloon.Base.{ℕ, zero, suc, ◌+◌, ◌*◌, Option, some, ◌==◌, if◌then◌else◌, add32}
use balloon.Ram.Access.{Ram, load32}
use balloon.Heap.Skip.{◌>>=◌}
use balloon.Libc.Strings.{strcmp}
use balloon.Elf.{Elf}

-- &sh[i] and its fields
abbrev pub section_at : (sh i : ℕ) → ℕ
section_at sh i = sh + 40 * i

abbrev pub section_addr : Ram → ℕ → ℕ
section_addr m section = load32 m (section + 12)

abbrev pub section_size : Ram → ℕ → ℕ
section_size m section = load32 m (section + 20)

-- the address of the section's name, from the section `sh[mb->shndx]`
abbrev pub section_name : Ram → (shstrtab section : ℕ) → ℕ
section_name m shstrtab section = add32 shstrtab (load32 m section)

abbrev pub set_strtab : Ram → ℕ → Elf → Elf
set_strtab m section elf = record elf {
  strtab = section_addr m section;
  strtabsz = section_size m section;
}

abbrev pub set_symtab : Ram → ℕ → Elf → Elf
set_symtab m section elf = record elf {
  symtab = section_addr m section;
  symtabsz = section_size m section;
}

-- One turn of the loop. `strtab` and `symtab` are the addresses of the strings ".strtab" and
-- ".symtab".
unfoldable pub visit_section :
    (fuel : ℕ) → Ram → (shstrtab strtab symtab section : ℕ) → Elf → Option Elf
visit_section fuel m shstrtab strtab symtab section elf =
    strcmp fuel m (section_name m shstrtab section) strtab >>= λ c.
    let elf₁ : Elf = if c == 0 then set_strtab m section elf else elf in
    strcmp fuel m (section_name m shstrtab section) symtab >>= λ d.
    some (if d == 0 then set_symtab m section elf₁ else elf₁)

-- for (; i < i + left; i++)
unfoldable pub visit_sections :
    (fuel : ℕ) → Ram → (shstrtab strtab symtab sh i left : ℕ) → Elf → Option Elf
visit_sections fuel m shstrtab strtab symtab sh i zero elf = some elf
visit_sections fuel m shstrtab strtab symtab sh i (suc left) elf =
    visit_section fuel m shstrtab strtab symtab (section_at sh i) elf >>= λ elf'.
    visit_sections fuel m shstrtab strtab symtab sh (i + 1) left elf'

-- mb->addr, mb->num, and the address of the section names
abbrev pub sections_of : Ram → (mb : ℕ) → ℕ
sections_of m mb = load32 m (mb + 36)

abbrev pub sections_num : Ram → (mb : ℕ) → ℕ
sections_num m mb = load32 m (mb + 28)

abbrev pub section_names : Ram → (mb : ℕ) → ℕ
section_names m mb = section_addr m (section_at (sections_of m mb) (load32 m (mb + 40)))

-- `elf` is the local variable, which has no value at first.
unfoldable pub elf_from_multiboot :
    (fuel : ℕ) → Ram → (mb strtab symtab : ℕ) → (elf : Elf) → Option Elf
elf_from_multiboot fuel m mb strtab symtab elf =
    visit_sections fuel m (section_names m mb) strtab symtab (sections_of m mb) 0
      (sections_num m mb) elf
