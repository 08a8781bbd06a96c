-- ===== src/Task/Clone.antt =====
-- clone_table, clone_directory and getpid of source/kernel/task.c. `copy` is copy_page_physical, which
-- is assembly: it changes memory, given two physical addresses.
pub mod Overrun
pub mod Shared
use balloon.Base.{
  ℕ, zero, suc, ◌+◌, ◌*◌, false, Option, none, some, bit_or, ◌==◌, if◌then◌else◌, add32,
}
use balloon.Ram.Access.{Ram}
use balloon.Machine.{Kernel, get, put}
use balloon.Libc.Memory.{memset}
use balloon.Heap.Skip.{◌>>=◌}
use balloon.Heap.Place.{kmalloc_aligned_physical}
use balloon.Paging.Entry.{
  field, frame, set_page, tables, tables_physical, physical_addr, directory_size,
}
use balloon.Paging.Tables.{alloc_frame}
use balloon.Task.{Tasks}

-- if (src->pages[i].bit) table->pages[i].bit = 1;
unfoldable pub copy_flag : Kernel → (from to bit : ℕ) → Kernel
copy_flag k from to bit = if field (get k from) bit 1 == 0 then k else set_page k to bit 1 1

-- present, rw, user, accessed and dirty
unfoldable pub copy_flags : Kernel → (from to : ℕ) → Kernel
copy_flags k from to =
    copy_flag
      (copy_flag (copy_flag (copy_flag (copy_flag k from to 0) from to 1) from to 2) from to 3) from
      to 4

-- The body of the loop for an entry with a frame.
unfoldable pub clone_page :
    (copy : Ram → (from to : ℕ) → Ram) → Kernel → (from to : ℕ) → Option Kernel
clone_page copy k from to = alloc_frame k to false false >>= λ k₁.
    let k₂ = copy_flags k₁ from to in
    some (record k₂ { ram = copy k₂.ram (frame k₂ from * 0x1000) (frame k₂ to * 0x1000) })

-- The loop from the entry `i` on, with `left` of them.
unfoldable pub clone_pages :
    (copy : Ram → (from to : ℕ) → Ram) → Kernel → (src table i left : ℕ) → Option Kernel
clone_pages copy k src table i zero = some k
clone_pages copy k src table i (suc left) =
    let rest = λ (k' : Kernel). clone_pages copy k' src table (i + 1) left in
    if frame k (src + 4 * i) == 0
    then rest k
    else (clone_page copy k (src + 4 * i) (table + 4 * i) >>= rest)

-- The table, its physical address and the state. The memset has the size of a directory.
unfoldable pub clone_table :
    (fuel : ℕ)
    → (copy : Ram → (from to : ℕ) → Ram) → Kernel
    → (src : ℕ) → Option (ℕ × Option ℕ × Kernel)
clone_table fuel copy k src = kmalloc_aligned_physical fuel k 0x1000 >>= λ (table, phys, k₁).
    (clone_pages copy (record k₁ { ram = memset k₁.ram table 0 directory_size }) src table 0 1024
      >>= λ k₂. some (table, phys, k₂))

-- What kmalloc_aligned_physical writes through its pointer.
abbrev pub written : Option ℕ → ℕ
written none = 0
written (some phys) = phys

-- The body of the loop over the tables.
unfoldable pub clone_entry :
    (fuel : ℕ) (copy : Ram → (from to : ℕ) → Ram) → Kernel → (src dir i : ℕ) → Option Kernel
clone_entry fuel copy k src dir i =
    let table : ℕ = get k (tables src i) in
    let shared = put k (tables dir i) table in
    if table == 0
    then some k
    else if get k (tables k.kernel_directory i) == table
    then some (put shared (tables_physical dir i) (get shared (tables_physical src i)))
    else (clone_table fuel copy k table >>= λ (t, phys, k₁).
        some (put (put k₁ (tables dir i) t) (tables_physical dir i) (bit_or (written phys) 7)))

unfoldable pub clone_entries :
    (fuel : ℕ) (copy : Ram → (from to : ℕ) → Ram) → Kernel → (src dir i left : ℕ) → Option Kernel
clone_entries fuel copy k src dir i zero = some k
clone_entries fuel copy k src dir i (suc left) =
    clone_entry fuel copy k src dir i >>= λ k'. clone_entries fuel copy k' src dir (i + 1) left

-- `none`: the kernel panicked or ended in first_frame for want of a frame, or kmalloc ran out of fuel.
unfoldable pub clone_directory :
    (fuel : ℕ) (copy : Ram → (from to : ℕ) → Ram) → Kernel → (src : ℕ) → Option (ℕ × Kernel)
clone_directory fuel copy k src =
    kmalloc_aligned_physical fuel k directory_size >>= λ (dir, phys, k₁).
    let k₂ = record k₁ { ram = memset k₁.ram dir 0 directory_size } in
    let k₃ = put k₂ (physical_addr dir) (add32 (written phys) 0x1000) in
    (clone_entries fuel copy k₃ src dir 0 1024 >>= λ k₄. some (dir, k₄))

unfoldable pub getpid : Tasks → ℕ
getpid t = get t.kernel t.current_process
