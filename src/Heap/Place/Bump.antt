-- ===== src/Heap/Place/Bump.antt =====
-- The placement allocator and the start of the heap.
use balloon.Base.{
  ℕ, ◌+◌, ◌*◌, ◌%◌, ◌≤◌, ◌<◌, ◌≡◌, refl, ◌⊎◌, inl, inr, Bool, true, false, none, some, arith,
  if◌then◌else◌, add32,
}
use balloon.Ram.Frame.{IsBytes}
use balloon.Machine.{Kernel}
use balloon.Heap.Header.{page_size}
use balloon.Heap.Slab.Free.{page_of_lem}
use balloon.Heap.Slab.Fresh.{HasPage}
use balloon.Heap.Place.{aligned_pointer, place, kmalloc_raw, init_heap}

-- Past the first page, the pointer moves to the start of a later page, at most a page on.
pub aligned_pointer_lem :
    (p : ℕ)
    → page_size ≤ p
    → p + page_size < 0x1_0000_0000
    → (aligned_pointer p % page_size ≡ 0)
      × (p < aligned_pointer p)
      × (aligned_pointer p ≤ p + page_size)
unfolding aligned_pointer
aligned_pointer_lem p lo hi = ground (arith, page_of_lem p)

-- Before init_heap, kmalloc_raw hands out the memory from placement_pointer on. The block lies
-- behind all that was handed out, the next one will lie behind it, an aligned block starts at a
-- page, and the physical address is the address itself.
pub kmalloc_raw-place :
    (fuel : ℕ) (k : Kernel) (size : ℕ) (align phys : Bool)
    → k.heap_end ≡ 0
    → page_size ≤ k.placement_pointer
    → k.placement_pointer + page_size + size < 0x1_0000_0000
    → (a : ℕ) × (k' : Kernel) × (kmalloc_raw fuel k size align phys
        ≡ some (a, (if phys then some a else none), k'))
      × (k.placement_pointer ≤ a)
      × (k'.placement_pointer ≡ a + size)
      × ((align ≡ false) ⊎ (a % page_size ≡ 0))
      × (k'.heap_end ≡ 0)
unfolding kmalloc_raw place
kmalloc_raw-place fuel k size false phys before lo hi = (
  k.placement_pointer,
  (place k size false phys).2,
  placed before,
  omega arith,
  omega arith,
  inl refl,
  before,
)
  where
    placed : k.heap_end ≡ 0 → kmalloc_raw fuel k size false phys ≡ some (place k size false phys)
    placed e = ground arith
kmalloc_raw-place fuel k size true phys before lo hi =
    let moved = aligned_pointer_lem k.placement_pointer lo (omega arith) in
    (
      aligned_pointer k.placement_pointer,
      (place k size true phys).2,
      placed before,
      omega (arith, moved),
      omega (arith, moved),
      inr moved.0,
      before,
    )
  where
    placed : k.heap_end ≡ 0 → kmalloc_raw fuel k size true phys ≡ some (place k size true phys)
    placed e = ground arith

-- init_heap ends the placement allocator: the heap starts at a page behind all that was handed out.
pub init_heap_lem :
    (k : Kernel)
    → k.placement_pointer + 2 * page_size < 0x1_0000_0000
    → IsBytes k.ram
    → HasPage (init_heap k)
      × (k.placement_pointer < (init_heap k).heap_end)
      × ((init_heap k).heap_end ≤ k.placement_pointer + page_size)
unfolding init_heap
init_heap_lem k hi bytes =
    let rounded = page_of_lem (k.placement_pointer + page_size) (omega arith) in
    let whole : add32 k.placement_pointer 0x1000 ≡ k.placement_pointer + page_size = omega arith in
    rw whole (
      record {
        bytes = bytes;
        aligned = omega (arith, rounded);
        positive = omega (arith, rounded);
        in_range = omega (arith, rounded);
      },
      omega (arith, rounded),
      omega (arith, rounded),
    )
