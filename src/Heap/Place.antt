-- ===== src/Heap/Place.antt =====
-- kmalloc_raw and its kin: the placement allocator before init_heap, the slab allocator after.
pub mod Bump
use balloon.Base.{
  ℕ, ◌+◌, ◌*◌, ◌/◌, ◌%◌, Bool, true, false, not, ◌&&◌, Option, none, some, bit_and, ◌==◌,
  if◌then◌else◌, add32, not32,
}
use balloon.Machine.{Kernel}
use balloon.Paging.Entry.{frame, lookup_page}
use balloon.Heap.Skip.{◌>>=◌}
use balloon.Heap.Alloc.{malloc, valloc, free}

-- placement_pointer moved to a page, as for `align == 1`
unfoldable pub aligned_pointer : ℕ → ℕ
aligned_pointer pointer =
    if bit_and pointer 0xffff_f000 == 0 then pointer else add32 (bit_and pointer 0xffff_f000) 0x1000

-- The branch for `heap_end == 0`: the address, the physical address if it is asked for, the state.
unfoldable pub place : Kernel → (size : ℕ) → (align phys : Bool) → ℕ × Option ℕ × Kernel
place k size align phys =
    let pointer = if align then aligned_pointer k.placement_pointer else k.placement_pointer in
    (
      pointer,
      (if phys then some pointer else none),
      record k { placement_pointer = add32 pointer size },
    )

-- `phys` says whether the caller passes a pointer for the physical address.
unfoldable pub kmalloc_raw :
    (fuel : ℕ) → Kernel → (size : ℕ) → (align phys : Bool) → Option (ℕ × Option ℕ × Kernel)
kmalloc_raw fuel k size align phys =
    if k.heap_end == 0
    then some (place k size align phys)
    else ((if align then valloc fuel k size else malloc fuel k size) >>= λ (address, k').
        let page = lookup_page k' address k'.kernel_directory in
        some (
          address,
          (if phys then some (add32 (frame k' page * 0x1000) (bit_and address 0xfff)) else none),
          k',
        ))

unfoldable pub kmalloc : (fuel : ℕ) → Kernel → (size : ℕ) → Option (ℕ × Option ℕ × Kernel)
kmalloc fuel k size = kmalloc_raw fuel k size false false

unfoldable pub kmalloc_aligned : (fuel : ℕ) → Kernel → (size : ℕ) → Option (ℕ × Option ℕ × Kernel)
kmalloc_aligned fuel k size = kmalloc_raw fuel k size true false

unfoldable pub kmalloc_physical : (fuel : ℕ) → Kernel → (size : ℕ) → Option (ℕ × Option ℕ × Kernel)
kmalloc_physical fuel k size = kmalloc_raw fuel k size false true

unfoldable pub kmalloc_aligned_physical :
    (fuel : ℕ) → Kernel → (size : ℕ) → Option (ℕ × Option ℕ × Kernel)
kmalloc_aligned_physical fuel k size = kmalloc_raw fuel k size true true

unfoldable pub kfree : (fuel : ℕ) → Kernel → ℕ → Option Kernel
kfree fuel k p = free fuel k p

-- heap_end = (placement_pointer + 0x1000) & ~0xFFF
unfoldable pub init_heap : Kernel → Kernel
init_heap k = record k { heap_end = bit_and (add32 k.placement_pointer 0x1000) (not32 0xfff) }
