-- ===== src/Heap/Slab/Free.antt =====
-- klfree and klmalloc at a small bin: the page of a cell, and the stack discipline.
use balloon.Base.{
  ℕ, ◌+◌, ◌*◌, ◌/◌, ◌%◌, ◌≤◌, ◌<◌, ◌≡◌, refl, inl, inr, some, List, [], ◌∷◌, arith, ◌∙◌, ap,
}
use balloon.Base.Bits.{bit_and_high, bit_and_low}
use balloon.Machine.{Kernel}
use balloon.Heap.Header.{page_size, set_bin_head, list_decouple, list_insert, list_head}
use balloon.Heap.Bins.{bin_size}
use balloon.Heap.Stack.{stack_pop, stack_push}
use balloon.Heap.Alloc.{page_of, inner, take_cell, malloc_small, free_small, klmalloc, klfree}
use balloon.Heap.Slab.{Apart, InPage, IsSlab, IsListed}
use balloon.Heap.Slab.Ops.{
  header-Apart, put-IsSlab, stack_pop-IsSlab, stack_push-IsSlab, stack_empty_lem,
}

-- The mask by ~PAGE_MASK rounds an address down to its page.
pub page_of_lem : (a : ℕ) → a < 0x1_0000_0000 → page_of a ≡ a / page_size * page_size
page_of_lem a h = omega (arith, bit_and_high 12 a 0xf_ffff, bit_and_low 20 (a / 0x1000))

-- A cell of a page leads back to the page's header.
pub page_of_cell :
    (header c : ℕ)
    → header % page_size ≡ 0
    → header + page_size ≤ 0x1_0000_0000
    → InPage header c
    → (inner c ≡ c) × (page_of c ≡ header)
page_of_cell header c aligned range inside = (ground arith, omega (arith, page_of_lem c))

set_bin_head-IsSlab :
    (k : Kernel) (header bucket b v : ℕ) (cs : List ℕ)
    → IsSlab k header bucket cs
    → IsSlab (set_bin_head k b v) header bucket cs
set_bin_head-IsSlab k header bucket b v cs s = record {
  bytes = s.bytes;
  aligned = s.aligned;
  positive = s.positive;
  in_range = s.in_range;
  small = s.small;
  size = s.size;
  magic = s.magic;
  cells = s.cells;
  free = s.free;
}

list_insert-IsSlab :
    (k : Kernel) (header bucket : ℕ) (cs : List ℕ)
    → IsSlab k header bucket cs
    → IsSlab (list_insert k bucket header) header bucket cs
unfolding list_insert
list_insert-IsSlab k header bucket cs s = set_bin_head-IsSlab _ header bucket bucket header cs (
    put-IsSlab k header bucket header _ cs (inl (omega arith))
      (header-Apart header header cs (omega arith) s.cells) s)

list_decouple-IsSlab :
    (k : Kernel) (header bucket : ℕ) (cs : List ℕ)
    → IsSlab k header bucket cs
    → IsSlab (list_decouple k bucket header) header bucket cs
unfolding list_decouple
list_decouple-IsSlab k header bucket cs s =
    put-IsSlab _ header bucket header 0 cs (inl (omega arith))
      (header-Apart header header cs (omega arith) s.cells)
      (set_bin_head-IsSlab k header bucket bucket _ cs s)

bin_head-list_insert :
    (k : Kernel) (bucket node : ℕ) → (list_insert k bucket node).bin_head bucket ≡ node
unfolding list_insert
bin_head-list_insert k bucket node = ground arith

bin_head-stack_push :
    (k : Kernel) (header c b : ℕ) → (stack_push k header c).bin_head b ≡ k.bin_head b
unfolding stack_push
bin_head-stack_push k header c b = refl

bin_head-stack_pop : (k : Kernel) (header b : ℕ) → (stack_pop k header).1.bin_head b ≡ k.bin_head b
unfolding stack_pop
bin_head-stack_pop k header b = refl

pub heap_end-take_cell :
    (k : Kernel) (header bucket : ℕ) → (take_cell header bucket k).1.heap_end ≡ k.heap_end
unfolding take_cell stack_pop list_decouple
heap_end-take_cell k header bucket = ground (arith)

module _ (k : Kernel) (header bucket c : ℕ) where
  free_small-IsSlab :
      (cs : List ℕ)
      → IsSlab k header bucket cs
      → IsListed k header bucket cs
      → InPage header c
      → Apart c cs
      → IsSlab (free_small k header bucket c) header bucket (c ∷ cs)
        × ((free_small k header bucket c).bin_head bucket ≡ header)
  unfolding free_small
  free_small-IsSlab [] s listed inside apart = rw (stack_empty_lem k header bucket [] s) (
    stack_push-IsSlab (list_insert k bucket header) header bucket c []
        (list_insert-IsSlab k header bucket [] s) inside apart,
    bin_head-stack_push (list_insert k bucket header) header c bucket
        ∙ bin_head-list_insert k bucket header,
  )
  free_small-IsSlab (d ∷ cs) s listed inside apart =
      rw (stack_empty_lem k header bucket (d ∷ cs) s) (
        stack_push-IsSlab k header bucket c (d ∷ cs) s inside apart,
        bin_head-stack_push k header c bucket ∙ ground arith,
      )

  pub take_cell-IsSlab :
      (cs : List ℕ)
      → IsSlab k header bucket (c ∷ cs)
      → k.bin_head bucket ≡ header
      → ((take_cell header bucket k).0 ≡ c)
        × IsSlab (take_cell header bucket k).1 header bucket cs
        × IsListed (take_cell header bucket k).1 header bucket cs
  unfolding take_cell
  take_cell-IsSlab [] s first =
      let popped = stack_pop-IsSlab k header bucket c [] s in
      rw (stack_empty_lem (stack_pop k header).1 header bucket [] popped.1)
        (popped.0, list_decouple-IsSlab (stack_pop k header).1 header bucket [] popped.1, inl refl)
  take_cell-IsSlab (d ∷ cs) s first =
      let popped = stack_pop-IsSlab k header bucket c (d ∷ cs) s in
      rw (stack_empty_lem (stack_pop k header).1 header bucket (d ∷ cs) popped.1)
        (popped.0, popped.1, inr (bin_head-stack_pop k header bucket ∙ first))

  klfree-free_small :
      (fuel : ℕ) (cs : List ℕ)
      → IsSlab k header bucket cs
      → InPage header c
      → klfree fuel k c ≡ some (free_small k header bucket c)
  unfolding klfree
  klfree-free_small fuel cs s inside =
      let (same, page) = page_of_cell header c s.aligned s.in_range inside in
      rw (same, page) (ground (arith, s.size, s.magic, s.small))

klmalloc-take_cell :
    (fuel : ℕ) (k : Kernel) (size header : ℕ) (cs : List ℕ)
    → 0 < size
    → IsSlab k header (bin_size size) cs
    → k.bin_head (bin_size size) ≡ header
    → klmalloc fuel k size ≡ some (take_cell header (bin_size size) k)
unfolding klmalloc malloc_small list_head
klmalloc-take_cell fuel k size header cs pos s first = ground (arith, s.small, s.positive)

-- Freeing a cell of a small bin puts it on top of the bin's stack, and makes the bin the first of
-- its list, whether the bin was full or not. It needs no fuel.
pub klfree_small :
    (fuel : ℕ) (k : Kernel) (header bucket c : ℕ) (cs : List ℕ)
    → IsSlab k header bucket cs
    → IsListed k header bucket cs
    → InPage header c
    → Apart c cs
    → (k' : Kernel) × (klfree fuel k c ≡ some k')
      × IsSlab k' header bucket (c ∷ cs)
      × (k'.bin_head bucket ≡ header)
klfree_small fuel k header bucket c cs s listed inside apart =
    let (slab, first) = free_small-IsSlab k header bucket c cs s listed inside apart in
    (
      free_small k header bucket c,
      klfree-free_small k header bucket c fuel cs s inside,
      slab,
      first,
    )

-- If the bin for a size has a free cell, klmalloc returns the top one, with no fuel; a bin with no
-- cell left is no longer promised to be in the list.
pub klmalloc_small :
    (fuel : ℕ) (k : Kernel) (size header c : ℕ) (cs : List ℕ)
    → 0 < size
    → IsSlab k header (bin_size size) (c ∷ cs)
    → k.bin_head (bin_size size) ≡ header
    → (k' : Kernel) × (klmalloc fuel k size ≡ some (c, k'))
      × IsSlab k' header (bin_size size) cs
      × IsListed k' header (bin_size size) cs
klmalloc_small fuel k size header c cs pos s first =
    let (item, slab, listed) = take_cell-IsSlab k header (bin_size size) c cs s first in
    let k' = (take_cell header (bin_size size) k).1 in
    (
      k',
      klmalloc-take_cell fuel k size header (c ∷ cs) pos s first ∙ ap (λ i. some (i, k')) item,
      slab,
      listed,
    )

-- A cell that is freed to a small bin which is full or the first of its list is the next one to be
-- handed out for a size of that bin, and the bin then has the free cells it had before. A bin with
-- free cells behind another one in the list is not spoken of.
pub klmalloc-klfree :
    (fuel : ℕ) (k : Kernel) (size header c : ℕ) (cs : List ℕ)
    → 0 < size
    → IsSlab k header (bin_size size) cs
    → IsListed k header (bin_size size) cs
    → InPage header c
    → Apart c cs
    → (k' : Kernel) × (k'' : Kernel) × (klfree fuel k c ≡ some k')
      × (klmalloc fuel k' size ≡ some (c, k''))
      × IsSlab k'' header (bin_size size) cs
      × IsListed k'' header (bin_size size) cs
klmalloc-klfree fuel k size header c cs pos s listed inside apart =
    let (k', freed, slab, first) =
      klfree_small fuel k header (bin_size size) c cs s listed inside apart in
    let (k'', given, slab', listed') = klmalloc_small fuel k' size header c cs pos slab first in
    (k', k'', freed, given, slab', listed')
