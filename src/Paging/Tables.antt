-- ===== src/Paging/Tables.antt =====
-- alloc_frame, free_frame, get_page and switch_page_directory.
pub mod Distinct
pub mod Free
pub mod Make
pub mod Map
use balloon.Base.{
  ℕ, ◌+◌, ◌*◌, ◌/◌, ◌%◌, Bool, true, false, Option, none, some, bit_or, ◌==◌, if◌then◌else◌,
}
use balloon.Machine.{Kernel, get, put}
use balloon.Libc.Memory.{memset}
use balloon.Heap.Skip.{◌>>=◌}
use balloon.Heap.Place.{kmalloc_aligned_physical}
use balloon.Paging.Entry.{
  frame, set_page, tables, tables_physical, table_index, page_in, lookup_page,
}
use balloon.Paging.Frames.{set_frame, clear_frame, first_frame}

abbrev pub flag : Bool → ℕ
flag true = 1
flag false = 0

-- The fields of the entry, in the order of the source.
unfoldable pub fill_page : Kernel → (page idx : ℕ) → (is_kernel is_writeable : Bool) → Kernel
fill_page k page idx is_kernel is_writeable =
    let k₁ = set_page k page 0 1 1 in
    let k₂ = set_page k₁ page 1 1 (flag is_writeable) in
    let k₃ = set_page k₂ page 2 1 (if is_kernel then 0 else 1) in set_page k₃ page 12 20 idx

-- `none`: first_frame returned nothing, or the kernel panicked for want of a frame.
unfoldable pub alloc_frame : Kernel → (page : ℕ) → (is_kernel is_writeable : Bool) → Option Kernel
alloc_frame k page is_kernel is_writeable =
    if frame k page == 0
    then (first_frame k >>= λ idx.
        if idx == 0xffff_ffff
        then none
        else some (fill_page (set_frame k (idx * 0x1000)) page idx is_kernel is_writeable))
    else some k

unfoldable pub free_frame : Kernel → (page : ℕ) → Kernel
free_frame k page =
    let f = frame k page in if f == 0 then k else set_page (clear_frame k f) page 12 20 0

-- A new table for the address, entered in the directory.
unfoldable pub make_table : (fuel : ℕ) → Kernel → (address dir : ℕ) → Option (ℕ × Kernel)
make_table fuel k address dir = kmalloc_aligned_physical fuel k 0x1000 >>= λ (table, phys, k₁).
    let k₂ = put k₁ (tables dir (table_index address)) table in
    let table' = get k₂ (tables dir (table_index address)) in
    let k₃ = record k₂ { ram = memset k₂.ram table' 0 0x1000 } in
    let tmp : ℕ = elim phys [ some p ↦ p | none ↦ 0 ] in
    let k₄ = put k₃ (tables_physical dir (table_index address)) (bit_or tmp 7) in
    some (page_in (get k₄ (tables dir (table_index address))) address, k₄)

-- `make` stands for the C integer: false is 0. The address 0 is NULL.
unfoldable pub get_page :
    (fuel : ℕ) → Kernel → (address : ℕ) → (make : Bool) → (dir : ℕ) → Option (ℕ × Kernel)
get_page fuel k address make dir =
    if get k (tables dir (table_index address)) == 0
    then (if make then make_table fuel k address dir else some (0, k))
    else some (lookup_page k address dir, k)

-- The directory whose physical address is loaded into cr3, and the one that the kernel notes.
unfoldable pub switch_page_directory : Kernel → (dir : ℕ) → Kernel
switch_page_directory k dir = record k { current_directory = dir }
