-- ===== src/Elf/Lookup.antt =====
-- Which symbol elf_lookup_symbol finds.
use balloon.Base.{
  ◌%◌, inl, inr, Bool-cases, ℕ, zero, suc, ◌+◌, ◌*◌, ◌/◌, ◌≤◌, ◌<◌, ◌≡◌, true, false, none, some,
  arith, add32,
}
use balloon.Base.Bits.{bit_and_low}
use balloon.Ram.Access.{Ram, load32}
use balloon.Elf.{Elf, matches, search_symbols, elf_lookup_symbol}

-- The entry is of a function, type 2 in the low half of its info, and the address is one of the
-- `size` bytes from `value` on, at 32 bits.
abbrev pub InFunction : Ram → (addr entry : ℕ) → Type 0
InFunction m addr entry =
    (m (entry + 12) % 16 ≡ 2)
    × (load32 m (entry + 4) ≤ addr)
    × (addr < (load32 m (entry + 4) + load32 m (entry + 8)) % 0x1_0000_0000)

matches-InFunction :
    (m : Ram) (addr entry : ℕ) → InFunction m addr entry → matches m addr entry ≡ true
unfolding matches
matches-InFunction m addr entry (kind, from, to) =
    ground (arith, bit_and_low 4 (m (entry + 12)), kind, from, to)

no_match : (m : Ram) (addr entry : ℕ) → ¬ InFunction m addr entry → matches m addr entry ≡ false
unfolding matches
no_match m addr entry outside = elim (Bool-cases (matches m addr entry)) [
  | inl matched ↦ absurd (outside (ground (arith, bit_and_low 4 (m (entry + 12)), matched)))
  | inr not_matched ↦ not_matched
]

search_symbols_found :
    (m : Ram) (elf : Elf) (addr i left n : ℕ)
    → i ≤ n
    → n < i + left
    → matches m addr (elf.symtab + 16 * n) ≡ true
    → ((j : ℕ) → i ≤ j → j < n → matches m addr (elf.symtab + 16 * j) ≡ false)
    → search_symbols m elf addr i left ≡ some (add32 elf.strtab (load32 m (elf.symtab + 16 * n)))
unfolding search_symbols
search_symbols_found m elf addr i zero n from to found before = ground arith
search_symbols_found m elf addr i (suc left) n from to found before = ground (
  arith,
  before i,
  search_symbols_found m elf addr (i + 1) left n,
  λ (j : ℕ) (h : i + 1 ≤ j) (h' : j < n). before j (omega arith) h',
)

search_symbols-none :
    (m : Ram) (elf : Elf) (addr i left : ℕ)
    → ((j : ℕ) → i ≤ j → j < i + left → matches m addr (elf.symtab + 16 * j) ≡ false)
    → search_symbols m elf addr i left ≡ none
unfolding search_symbols
search_symbols-none m elf addr i zero h = ground arith
search_symbols-none m elf addr i (suc left) h = ground (
  arith,
  h i (omega arith) (omega arith),
  search_symbols-none m elf addr (i + 1) left (λ j from to. h j (omega arith) (omega arith)),
)

-- The name is that of the first entry of the table that is a function around the address: its type
-- is 2, and the address is at least its value and below the sum of value and size at 32 bits.
pub elf_lookup_symbol_first :
    (m : Ram) (elf : Elf) (addr n : ℕ)
    → n < elf.symtabsz / 16
    → InFunction m addr (elf.symtab + 16 * n)
    → ((j : ℕ) → j < n → ¬ InFunction m addr (elf.symtab + 16 * j))
    → elf_lookup_symbol m addr elf ≡ some (add32 elf.strtab (load32 m (elf.symtab + 16 * n)))
unfolding elf_lookup_symbol
elf_lookup_symbol_first m elf addr n inside found before =
    search_symbols_found m elf addr 0 (elf.symtabsz / 16) n (omega arith) (omega arith)
      (matches-InFunction m addr (elf.symtab + 16 * n) found)
      (λ j from to. no_match m addr (elf.symtab + 16 * j) (before j to))

-- If no entry is a function around the address, nothing is returned.
pub elf_lookup_symbol-none :
    (m : Ram) (elf : Elf) (addr : ℕ)
    → ((j : ℕ) → j < elf.symtabsz / 16 → matches m addr (elf.symtab + 16 * j) ≡ false)
    → elf_lookup_symbol m addr elf ≡ none
unfolding elf_lookup_symbol
elf_lookup_symbol-none m elf addr h =
    search_symbols-none m elf addr 0 (elf.symtabsz / 16) (λ j from to. h j (omega arith))
