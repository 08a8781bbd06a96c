-- ===== src/Elf/Sections/Found.antt =====
-- Which sections elf_from_multiboot takes.
use balloon.Base.{
  ℕ, zero, suc, ◌+◌, ◌<◌, ◌≡◌, refl, sym, ◌∙◌, ap, true, false, some, leb, ◌==◌, if◌then◌else◌,
  arith,
}
use balloon.Ram.Access.{Ram}
use balloon.Libc.Strings.{strcmp}
use balloon.Elf.{Elf}
use balloon.Elf.Sections.{
  section_at, section_addr, section_size, section_name, set_strtab, set_symtab, visit_section,
  visit_sections, sections_of, sections_num, section_names, elf_from_multiboot,
}

-- strcmp takes the section `s` alone for ".strtab", and the section `t` alone for ".symtab".
abbrev pub Named : (fuel : ℕ) → Ram → (shstrtab strtab symtab sh n s t : ℕ) → Type 0
Named fuel m shstrtab strtab symtab sh n s t =
    (i : ℕ)
    → i < n
    → (c : ℕ) × (d : ℕ) × (strcmp fuel m (section_name m shstrtab (section_at sh i)) strtab
        ≡ some c)
      × (strcmp fuel m (section_name m shstrtab (section_at sh i)) symtab ≡ some d)
      × ((c == 0) ≡ (i == s))
      × ((d == 0) ≡ (i == t))

module _ (fuel : ℕ) (m : Ram) (shstrtab strtab symtab sh n s t : ℕ)
    (named : Named fuel m shstrtab strtab symtab sh n s t) where
  -- what the sections from `i` on leave
  abbrev after : (i : ℕ) → Elf → Elf
  after i elf = record {
    symtab = if leb i t then section_addr m (section_at sh t) else elf.symtab;
    symtabsz = if leb i t then section_size m (section_at sh t) else elf.symtabsz;
    strtab = if leb i s then section_addr m (section_at sh s) else elf.strtab;
    strtabsz = if leb i s then section_size m (section_at sh s) else elf.strtabsz;
  }

  abbrev visited : (i : ℕ) → Elf → Elf
  visited i elf =
      let elf₁ : Elf = if i == s then set_strtab m (section_at sh i) elf else elf in
      if i == t then set_symtab m (section_at sh i) elf₁ else elf₁

  visit_section_lem :
      (i : ℕ) (elf : Elf)
      → i < n
      → visit_section fuel m shstrtab strtab symtab (section_at sh i) elf ≡ some (visited i elf)
  unfolding visit_section
  visit_section_lem i elf lt =
      let (c, d, first, second, is_strtab, is_symtab) = named i lt in
      rw (first, second, is_strtab, is_symtab) refl

  after-visited : (i : ℕ) (elf : Elf) → after (i + 1) (visited i elf) ≡ after i elf
  after-visited i elf =
      let new = after (i + 1) (visited i elf) in
      let old = after i elf in
      let symtab_eq : new.symtab ≡ old.symtab = ground arith in
      let symtabsz_eq : new.symtabsz ≡ old.symtabsz = ground arith in
      let strtab_eq : new.strtab ≡ old.strtab = ground arith in
      let strtabsz_eq : new.strtabsz ≡ old.strtabsz = ground arith in
      λ k. record {
        symtab = symtab_eq k;
        symtabsz = symtabsz_eq k;
        strtab = strtab_eq k;
        strtabsz = strtabsz_eq k;
      }

  after_all : (i : ℕ) (elf : Elf) → s < i → t < i → after i elf ≡ elf
  after_all i elf hs ht =
      let below_s : leb i s ≡ false = ground arith in
      let below_t : leb i t ≡ false = ground arith in rw (below_s, below_t) refl

  visit_sections_lem :
      (i left : ℕ) (elf : Elf)
      → i + left ≡ n
      → s < n
      → t < n
      → visit_sections fuel m shstrtab strtab symtab sh i left elf ≡ some (after i elf)
  unfolding visit_sections
  visit_sections_lem i zero elf end hs ht =
      ap (λ e. some e) (sym (after_all i elf (omega arith) (omega arith)))
  visit_sections_lem i (suc left) elf end hs ht =
      let rest = visit_sections_lem (i + 1) left (visited i elf) (omega arith) hs ht in
      rw (visit_section_lem i elf (omega arith)) (rest ∙ ap (λ e. some e) (after-visited i elf))

-- Where strcmp takes one section of the table for ".strtab" and one for ".symtab",
-- elf_from_multiboot returns the addresses and the sizes of these two, whatever its local variable
-- held before.
pub elf_from_multiboot_lem :
    (fuel : ℕ) (m : Ram) (mb strtab symtab s t : ℕ) (elf : Elf)
    → Named fuel m (section_names m mb) strtab symtab (sections_of m mb) (sections_num m mb) s t
    → s < sections_num m mb
    → t < sections_num m mb
    → elf_from_multiboot fuel m mb strtab symtab elf
      ≡ some record {
        symtab = section_addr m (section_at (sections_of m mb) t);
        symtabsz = section_size m (section_at (sections_of m mb) t);
        strtab = section_addr m (section_at (sections_of m mb) s);
        strtabsz = section_size m (section_at (sections_of m mb) s);
      }
unfolding elf_from_multiboot
elf_from_multiboot_lem fuel m mb strtab symtab s t elf named hs ht =
    let first_s : leb 0 s ≡ true = ground arith in
    let first_t : leb 0 t ≡ true = ground arith in
    visit_sections_lem fuel m (section_names m mb) strtab symtab (sections_of m mb)
      (sections_num m mb) s t named 0 (sections_num m mb) elf (omega arith) hs ht
    ∙ rw (first_s, first_t) refl
