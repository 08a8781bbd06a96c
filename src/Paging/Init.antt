-- ===== src/Paging/Init.antt =====
-- init_paging of source/kernel/paging.c. The loops that allocate frames take rounds: the end of the
-- one is the placement pointer, which the loop itself moves.
pub mod Reserve
use balloon.Base.{
  ℕ, zero, suc, ◌+◌, ◌/◌, Bool, true, false, ◌||◌, Option, none, some, leb, ltb, if◌then◌else◌,
  add32,
}
use balloon.Ram.Access.{Ram}
use balloon.Machine.{Kernel, put}
use balloon.Libc.Memory.{memset}
use balloon.Heap.Skip.{◌>>=◌}
use balloon.Heap.Place.{kmalloc, kmalloc_aligned}
use balloon.Paging.Entry.{physical_addr, directory_size}
use balloon.Paging.Frames.{index_from_bit}
use balloon.Paging.Tables.{alloc_frame, get_page, switch_page_directory}
use balloon.Task.Clone.{clone_directory}
use balloon.Arch.Idt.{Idt, register_interrupt_handler}

abbrev pub kheap_start : ℕ
kheap_start = 0xc000_0000

abbrev pub kheap_initial_size : ℕ
kheap_initial_size = 0x10_0000

abbrev pub kheap_end : ℕ
kheap_end = 0x200_0000

-- for (; i < i + 0x1000 * n; i += 0x1000) get_page(i, 1, kernel_directory);
unfoldable pub reserve_pages : (fuel : ℕ) → Kernel → (dir i n : ℕ) → Option Kernel
reserve_pages fuel k dir i zero = some k
reserve_pages fuel k dir i (suc n) =
    get_page fuel k i true dir >>= λ (page, k'). reserve_pages fuel k' dir (i + 0x1000) n

-- alloc_frame(get_page(i, 1, kernel_directory), 1, 0)
unfoldable pub map_page : (fuel : ℕ) → Kernel → (dir i : ℕ) → Option Kernel
map_page fuel k dir i = get_page fuel k i true dir >>= λ (page, k'). alloc_frame k' page true false

-- while (i < placement_pointer + 0x1000), where `i` is compared as an unsigned number
unfoldable pub map_placed : (fuel rounds : ℕ) → Kernel → (dir i : ℕ) → Option Kernel
map_placed fuel zero k dir i = none
map_placed fuel (suc rounds) k dir i =
    let rest = map_page fuel k dir i >>= λ k'. map_placed fuel rounds k' dir (add32 i 0x1000) in
    if ltb i (add32 k.placement_pointer 0x1000) then rest else some k

-- for (; i < KHEAP_END; i += 0x1000), where `i` is compared as a signed number
unfoldable pub map_rest : (fuel rounds : ℕ) → Kernel → (dir i : ℕ) → Option Kernel
map_rest fuel zero k dir i = none
map_rest fuel (suc rounds) k dir i =
    let rest = map_page fuel k dir i >>= λ k'. map_rest fuel rounds k' dir (add32 i 0x1000) in
    if leb 0x8000_0000 i || ltb i kheap_end then rest else some k

-- The bitmap of the frames and the directory, both cleared.
unfoldable pub paging_tables : (fuel : ℕ) → Kernel → Option Kernel
paging_tables fuel k =
    let k₁ : Kernel = record k { nframes = 0x1000 } in
    kmalloc fuel k₁ (index_from_bit 0x1000) >>= λ (frames, _, k₂).
    let k₃ : Kernel = record k₂ {
      frames = frames;
      ram = memset k₂.ram frames 0 (index_from_bit 0x1000);
    } in
    kmalloc_aligned fuel k₃ directory_size >>= λ (dir, _, k₄).
    some record k₄ { kernel_directory = dir; ram = memset k₄.ram dir 0 directory_size }

-- `copy` is copy_page_physical, and `page_fault` the address of the handler. The value -1 of
-- first_frame and its end without a value make alloc_frame `none`.
unfoldable pub init_paging :
    (fuel rounds : ℕ) (copy : Ram → (from to : ℕ) → Ram) (page_fault : ℕ)
    → Kernel
    → Idt
    → Option (Kernel × Idt)
init_paging fuel rounds copy page_fault k t = paging_tables fuel k >>= λ k₁.
    let dir = k₁.kernel_directory in
    reserve_pages fuel k₁ dir kheap_start (kheap_initial_size / 0x1000) >>= λ k₂.
    map_placed fuel rounds k₂ dir 0 >>= λ k₃.
    let k₄ = put k₃ (physical_addr dir) (add32 dir 0x1000) in
    map_rest fuel rounds k₄ dir k₄.placement_pointer >>= λ k₅.
    clone_directory fuel copy (switch_page_directory k₅ dir) dir >>= λ (dir', k₆).
    some (switch_page_directory k₆ dir', register_interrupt_handler t 14 page_fault)
