-- ===== src/Tests/Services.antt =====
-- Memory and strings, files, symbols and the stack of a new process.
use balloon.Base.{ℕ, ◌+◌, ◌-◌, if◌then◌else◌, ◌%◌, ◌≡◌, refl, inl, inr, some, [], arith}
use balloon.Ram.Access.{Ram, load32, store8, store32}
use balloon.Ram.Frame.{IsBytes, store32-IsBytes}
use balloon.Machine.{Kernel}
use balloon.Libc.Memory.{memmove}
use balloon.Libc.Memory.Copy.{within, memmove_lem}
use balloon.Libc.Strings.{strcmp}
use balloon.Libc.Strings.Text.{IsText, strcmp_last_ignored}
use balloon.Drivers.Ramfs.{ramfs_read}
use balloon.Drivers.Ramfs.Read.{ramfs_read_bytes}
use balloon.Elf.{Elf, elf_lookup_symbol}
use balloon.Elf.Lookup.{InFunction, elf_lookup_symbol_first}
use balloon.Task.{fork_stack}
use balloon.Task.Stack.{fork_stack_lem}
use balloon.Tests.States.{zeros, zeros-IsBytes, empty_heap}

-- Each cell holds the low byte of its address.
abbrev counting : Ram
counting a = a % 0x100

counting-IsBytes : IsBytes counting
counting-IsBytes a = omega arith

-- Up by two, into the source's own range.
memmove_lem_example : memmove counting 0x102 0x100 8 0x105 ≡ 3
memmove_lem_example = memmove_lem counting 0x102 0x100 8 0x105 counting-IsBytes

-- "a" at 0x100 and at 0x200, "b" at 0x300
abbrev texts : Ram
texts = store32 (store32 (store32 zeros 0x100 b'a') 0x200 b'a') 0x300 b'b'

strcmp_last_ignored_example : strcmp 2 texts 0x100 0x300 ≡ some 0
unfolding IsText store32 store8
strcmp_last_ignored_example =
    strcmp_last_ignored 2 texts 0x100 0x300 b'a' b'b' [] (refl, (λ e. omega (arith, e)), refl)
      (refl, (λ e. omega (arith, e)), refl) (omega arith)

-- One file of 20 bytes at 0x4000; its header is at 0x1000, and the node at 0x2000 names inode 0.
abbrev disk : Ram
disk = store32 (store32 zeros 0x1041 0x4000) 0x1045 20

disk-IsBytes : IsBytes disk
disk-IsBytes = store32-IsBytes _ 0x1045 20 (store32-IsBytes _ 0x1041 0x4000 zeros-IsBytes)

ramfs_read_bytes_example :
    ((ramfs_read disk 0x1000 0x2000 15 10 0x8000).0 ≡ 5)
    × ((x : ℕ)
        → (ramfs_read disk 0x1000 0x2000 15 10 0x8000).1 x
          ≡ (if within 0x8000 5 x then disk (0x400f + (x - 0x8000)) else disk x))
unfolding load32 store32 store8
ramfs_read_bytes_example =
    ramfs_read_bytes disk 0x1000 0x2000 15 10 0x8000 disk-IsBytes (omega arith) (omega arith)
      (inr (omega arith))

-- A table at 0x1000 with a data symbol and then the function at 0x5000, 16 bytes long.
abbrev symbols : Ram
symbols = store32 (store32 (store32 (store32 zeros 0x1010 9) 0x1014 0x5000) 0x1018 16) 0x101c 2

abbrev elf : Elf
elf = record { symtab = 0x1000; symtabsz = 32; strtab = 0x3000; strtabsz = 64 }

data_symbol : ¬ InFunction symbols 0x5008 0x1000
unfolding load32 store32 store8
data_symbol (kind, from, to) = omega (arith, kind)

elf_lookup_symbol_first_example : elf_lookup_symbol symbols 0x5008 elf ≡ some 0x3009
unfolding load32 store32 store8
elf_lookup_symbol_first_example =
    elf_lookup_symbol_first symbols elf 0x5008 1 (omega arith) (refl, omega arith, omega arith)
      (λ j lt. let first : j ≡ 0 = omega arith in rw first data_symbol)

-- Two processes, at 0x1000 and at 0x1100, with their stacks below 0x20000 and below 0x50000.
abbrev forked : Kernel
forked = record empty_heap { ram = store32 (store32 zeros 0x10a8 0x2_0000) 0x11a8 0x5_0000 }

fork_stack_lem_example :
    (fork_stack forked 0x1000 0x1100 0x1_ff00 0x1_ff20 0x10_0000).ram 0x4_ff00 ≡ forked.ram 0x1_ff00
unfolding load32 store32 store8
fork_stack_lem_example =
    fork_stack_lem forked 0x1000 0x1100 0x1_ff00 0x1_ff20 0x10_0000 0x2_0000 0x5_0000 0x100
      (store32-IsBytes _ 0x11a8 0x5_0000 (store32-IsBytes _ 0x10a8 0x2_0000 zeros-IsBytes)) refl
      refl (omega arith) (omega arith) (inr (omega arith)) (inl (omega arith)) (inl (omega arith))
      (omega arith) (omega arith)
