-- ===== src/Tests/Heap.antt =====
-- The allocators on small heaps.
use balloon.Base.{
  ℕ, ◌+◌, ◌*◌, ◌%◌, ◌^◌, ◌≤◌, ◌<◌, ◌≡◌, refl, ◌⊎◌, inl, inr, true, false, some, [], ◌∷◌, arith, u32,
}
use balloon.Ram.Access.{load32, store8, store32}
use balloon.Machine.{Kernel}
use balloon.Heap.Header.{page_size, header_size}
use balloon.Heap.Bins.{adjust_bin, bit_length, clz, bin_size, big_bin}
use balloon.Heap.Bins.Fit.{bin_size_tightest}
use balloon.Heap.Alloc.{klmalloc, klfree}
use balloon.Heap.Slab.{IsSlab, IsListed}
use balloon.Heap.Slab.Free.{klmalloc-klfree}
use balloon.Heap.Slab.Spaced.{spaced}
use balloon.Heap.Slab.Fresh.{HasPage, klmalloc_fresh}
use balloon.Heap.Place.{kmalloc_raw}
use balloon.Heap.Place.Bump.{kmalloc_raw-place}
use balloon.Tests.States.{zeros-IsBytes, empty_heap, early_kernel, slab_ram-IsBytes, slab_kernel}

two_free : IsSlab slab_kernel 0x1000 (bin_size 16) (0x1010 ∷ 0x1020 ∷ [])
unfolding bin_size adjust_bin clz bit_length load32 store32 store8
two_free = record {
  bytes = slab_ram-IsBytes;
  aligned = refl;
  positive = omega arith;
  in_range = omega arith;
  small = omega arith;
  size = refl;
  magic = refl;
  cells =
      ((omega arith, omega arith), (inl (omega arith), tt), ((omega arith, omega arith), tt, tt));
  free = (refl, (refl, refl));
}

klmalloc-klfree_example :
    (k' : Kernel) × (k'' : Kernel) × (klfree 0 slab_kernel 0x1030 ≡ some k')
    × (klmalloc 0 k' 16 ≡ some (0x1030, k''))
    × IsSlab k'' 0x1000 (bin_size 16) (0x1010 ∷ 0x1020 ∷ [])
    × IsListed k'' 0x1000 (bin_size 16) (0x1010 ∷ 0x1020 ∷ [])
unfolding bin_size adjust_bin clz bit_length
klmalloc-klfree_example =
    klmalloc-klfree 0 slab_kernel 16 0x1000 0x1030 (0x1010 ∷ 0x1020 ∷ []) (omega arith) two_free
      (inr refl) (omega arith, omega arith) (inr (omega arith), (inr (omega arith), tt))

empty_heap-HasPage : HasPage empty_heap
empty_heap-HasPage = record {
  bytes = zeros-IsBytes;
  aligned = refl;
  positive = omega arith;
  in_range = omega arith;
}

klmalloc_fresh_example :
    (k' : Kernel) × (step : ℕ) × (others : ℕ) × (klmalloc 0 empty_heap 16 ≡ some (0x20_0010, k'))
    × (16 ≤ step)
    × (step ≡ 4 * 2 ^ bin_size 16)
    × (header_size + (others + 1) * step ≤ page_size)
    × (page_size < header_size + (others + 2) * step)
    × IsSlab k' 0x20_0000 (bin_size 16) (spaced (0x20_0010 + step) step others)
    × IsListed k' 0x20_0000 (bin_size 16) (spaced (0x20_0010 + step) step others)
    × (k'.heap_end ≡ u32 (0x20_0000 + page_size))
klmalloc_fresh_example =
    klmalloc_fresh 0 empty_heap 16 (omega arith) (omega arith) empty_heap-HasPage refl

bin_size_tightest_example :
    (bin_size 100 < big_bin)
    × (100 ≤ 4 * 2 ^ bin_size 100)
    × ((bin_size 100 ≡ 0) ⊎ (2 * 2 ^ bin_size 100 < 100))
bin_size_tightest_example = bin_size_tightest 100 (omega arith) (omega arith)

kmalloc_raw-place_example :
    (a : ℕ) × (k' : Kernel) × (kmalloc_raw 0 early_kernel 100 true true ≡ some (a, some a, k'))
    × (0x10_8010 ≤ a)
    × (k'.placement_pointer ≡ a + 100)
    × ((true ≡ false) ⊎ (a % page_size ≡ 0))
    × (k'.heap_end ≡ 0)
kmalloc_raw-place_example =
    kmalloc_raw-place 0 early_kernel 100 true true refl (omega arith) (omega arith)
