-- ===== src/Tests/Multiboot.antt =====
-- elf_from_multiboot on a table of two sections.
use balloon.Base.{ℕ, zero, suc, ◌+◌, ◌≡◌, refl, some, List, [], ◌∷◌, arith}
use balloon.Ram.Access.{Ram, load32, store8, store32}
use balloon.Libc.Strings.{skip_common, strcmp_result, strcmp}
use balloon.Elf.{Elf}
use balloon.Elf.Sections.{elf_from_multiboot}
use balloon.Elf.Sections.Found.{Named, elf_from_multiboot_lem}
use balloon.Tests.States.{zeros}

abbrev put_text : Ram → (p : ℕ) → List ℕ → Ram
put_text m p [] = m
put_text m p (c ∷ cs) = put_text (store8 m p c) (p + 1) cs

abbrev strtab_text : List ℕ
strtab_text = b'.' ∷ b's' ∷ b't' ∷ b'r' ∷ b't' ∷ b'a' ∷ b'b' ∷ []

abbrev symtab_text : List ℕ
symtab_text = b'.' ∷ b's' ∷ b'y' ∷ b'm' ∷ b't' ∷ b'a' ∷ b'b' ∷ []

-- The texts of the kernel at 0x6100 and 0x6110, and the names of the sections at 0x6000.
abbrev texts : Ram
texts =
    put_text
      (put_text (put_text (put_text zeros 0x6000 strtab_text) 0x6010 symtab_text) 0x6100
        strtab_text)
      0x6110 symtab_text

-- The multiboot structure at 0x5000 and the headers of the two sections at 0x7000.
abbrev loaded_ram : Ram
loaded_ram =
    store32
      (store32
        (store32
          (store32 (store32 (store32 (store32 texts 0x501c 2) 0x5024 0x7000) 0x700c 0x6000) 0x7014
            0x40)
          0x7028 0x10)
        0x7034 0x8000)
      0x703c 0x200

abbrev unset : Elf
unset = record { symtab = 1; symtabsz = 2; strtab = 3; strtabsz = 4 }

loaded_names : Named 9 loaded_ram 0x6000 0x6100 0x6110 0x7000 2 0 1
unfolding strcmp skip_common strcmp_result load32 store32 store8
loaded_names zero lt = (0, 1, refl, refl, refl, refl)
loaded_names (suc zero) lt = (1, 0, refl, refl, refl, refl)
loaded_names (suc (suc i)) lt = absurd (omega arith)

elf_from_multiboot_lem_example :
    elf_from_multiboot 9 loaded_ram 0x5000 0x6100 0x6110 unset
    ≡ some record { symtab = 0x8000; symtabsz = 0x200; strtab = 0x6000; strtabsz = 0x40 }
unfolding load32 store32 store8
elf_from_multiboot_lem_example =
    elf_from_multiboot_lem 9 loaded_ram 0x5000 0x6100 0x6110 0 1 unset loaded_names (omega arith)
      (omega arith)
