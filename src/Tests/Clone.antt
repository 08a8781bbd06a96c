-- ===== src/Tests/Clone.antt =====
-- The copies of a directory and of a table while there is no heap yet.
use balloon.Base.{ℕ, ◌+◌, ◌≤◌, ◌<◌, ◌≡◌, ◌≢◌, ◌⊎◌, refl, inl, inr, some, arith}
use balloon.Ram.Access.{Ram, load32, store32}
use balloon.Ram.Frame.{store32-IsBytes}
use balloon.Machine.{Kernel, get}
use balloon.Heap.Place.{aligned_pointer, place, kmalloc_raw, kmalloc_aligned_physical}
use balloon.Paging.Entry.{tables, tables_physical, physical_addr}
use balloon.Task.Clone.{clone_table, clone_directory}
use balloon.Task.Clone.Shared.{clone_directory_shares}
use balloon.Task.Clone.Overrun.{clone_table_overrun}
use balloon.Tests.States.{zeros, zeros-IsBytes, early_kernel}

-- The kernel's directory at 0x102000 has one table, at 0x105000.
abbrev one_table : Ram
one_table = store32 (store32 zeros 0x10_2000 0x10_5000) 0x10_3000 0x10_5007

abbrev before : Kernel
before = record early_kernel { ram = one_table }

abbrev no_copy : Ram → (from to : ℕ) → Ram
no_copy m from to = m

clone_directory_shares_example :
    (k' : Kernel) × (clone_directory 0 no_copy before 0x10_2000 ≡ some (0x10_9000, k'))
    × ((j : ℕ) → j < 1024 → get k' (tables 0x10_9000 j) ≡ get before (tables 0x10_2000 j))
    × ((j : ℕ)
        → j < 1024
        → get before (tables 0x10_2000 j) ≢ 0
        → get k' (tables_physical 0x10_9000 j) ≡ get before (tables_physical 0x10_2000 j))
    × (get k' (physical_addr 0x10_9000) ≡ 0x10_a000)
unfolding kmalloc_aligned_physical kmalloc_raw place aligned_pointer
clone_directory_shares_example =
    clone_directory_shares 0 no_copy before (record before { placement_pointer = 0x10_b004 })
      0x10_2000 0x10_9000 0x10_9000 refl refl (inr (omega arith))
      (store32-IsBytes _ 0x10_3000 0x10_5007 (store32-IsBytes _ 0x10_2000 0x10_5000 zeros-IsBytes))

clone_table_overrun_example :
    (k' : Kernel) × (clone_table 0 no_copy early_kernel 0x6000
      ≡ some (0x10_9000, some 0x10_9000, k'))
    × ((x : ℕ) → 0x10_9000 ≤ x → x < 0x10_9000 + 0x2004 → k'.ram x ≡ 0)
    × ((x : ℕ) → (x < 0x10_9000) ⊎ (0x10_9000 + 0x2004 ≤ x) → k'.ram x ≡ 0)
unfolding kmalloc_aligned_physical kmalloc_raw place aligned_pointer load32
clone_table_overrun_example =
    clone_table_overrun 0 no_copy early_kernel
      (record early_kernel { placement_pointer = 0x10_a000 }) 0x6000 0x10_9000 (some 0x10_9000) refl
      (λ j lt. refl) (inl (omega arith))
