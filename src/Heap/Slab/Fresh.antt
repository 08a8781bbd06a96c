-- ===== src/Heap/Slab/Fresh.antt =====
-- The bin that klmalloc makes where the list of a size is empty.
use mathlib.Core.Path.{subst}
use balloon.Base.{
  ◌*◌, ◌^◌, ℕ, suc, ◌+◌, ◌%◌, ◌≤◌, ◌<◌, ◌≡◌, refl, inl, inr, some, ◌∷◌, arith, true, false, ◌==◌,
  ◌∙◌, ap, ltb, u32,
}
use balloon.Ram.Access.{Ram, store32}
use balloon.Ram.Frame.{IsBytes, load32-store32_self, load32-store32_apart, store32-IsBytes}
use balloon.Libc.Memory.{memset}
use balloon.Libc.Memory.Copy.{memset_lem}
use balloon.Machine.{Kernel, get, put}
use balloon.Heap.Header.{
  page_size, header_size, bin_magic, head_of, size_of, magic_of, list_insert, list_head, sbrk,
}
use balloon.Heap.Bins.{bin_size, big_bin}
use balloon.Heap.Bins.Fit.{bin_size_tightest}
use balloon.Heap.Alloc.{cell, available, link_cells, grow_bin, take_cell, malloc_small, klmalloc}
use balloon.Heap.Slab.{Cells, FreeList, IsSlab, IsListed}
use balloon.Heap.Slab.Link.{
  cells_from, build, build_lem, build_below, build-IsBytes, build-FreeList, cells_from-Cells,
  available_room, build_globals,
}
use balloon.Heap.Slab.Spaced.{spaced, cells_from-spaced, fills_lem}
use balloon.Heap.Slab.Free.{take_cell-IsSlab, heap_end-take_cell}
use balloon.Heap.Slab.Ops.{FreeList-store32, header-Apart}

memset-IsBytes : (m : Ram) (dest val len : ℕ) → IsBytes m → IsBytes (memset m dest val len)
memset-IsBytes m dest val len b x = ground (arith, memset_lem m dest val len x, b x)

-- What klmalloc finds at the end of the heap before it makes a bin there.
pub record HasPage (k : Kernel) : Type 0 where
  pub bytes : IsBytes k.ram
  pub aligned : k.heap_end % page_size ≡ 0
  pub positive : 0 < k.heap_end
  pub in_range : k.heap_end + page_size ≤ 0x1_0000_0000

-- the state in which grow_bin links the cells
with_header : Kernel → ℕ → Kernel
with_header k bucket =
    let (header, k₁) = sbrk k page_size in
    list_insert (put (put k₁ (magic_of header) bin_magic) (head_of header) (header + header_size))
      bucket header

module _ (k : Kernel) (bucket : ℕ) (small : bucket < big_bin) (p : HasPage k) where
  abbrev header : ℕ
  header = k.heap_end

  abbrev base : ℕ
  base = header + header_size

  linked : Kernel
  linked = build (with_header k bucket) base bucket 0 (available bucket)

  with_header-IsBytes : IsBytes (with_header k bucket).ram
  unfolding with_header list_insert sbrk
  with_header-IsBytes = store32-IsBytes _ header _ (
      store32-IsBytes _ (header + 4) base (
        store32-IsBytes _ (header + 12) bin_magic
          (memset-IsBytes k.ram header 0 page_size p.bytes)))

  with_header_words :
      (get (with_header k bucket) (head_of header) ≡ base)
      × (get (with_header k bucket) (magic_of header) ≡ bin_magic)
  unfolding with_header list_insert sbrk
  with_header_words =
      let m = memset k.ram header 0 page_size in
      let m₁ = store32 m (header + 12) bin_magic in
      let m₂ = store32 m₁ (header + 4) base in
      (
        load32-store32_apart m₂ header (k.bin_head bucket) (header + 4) (inr (omega arith))
            ∙ load32-store32_self m₁ (header + 4) base (omega (arith, p.in_range)),
        load32-store32_apart m₂ header (k.bin_head bucket) (header + 12) (inr (omega arith))
            ∙ load32-store32_apart m₁ (header + 4) base (header + 12) (inr (omega arith))
            ∙ load32-store32_self m (header + 12) bin_magic (omega arith),
      )

  linked_words : (get linked (head_of header) ≡ base) × (get linked (magic_of header) ≡ bin_magic)
  unfolding linked
  linked_words =
      let room = available_room bucket small in
      (
        build_below base bucket (available bucket) 0 (header + 4) (with_header k bucket)
              (omega (arith, room)) (omega arith)
            ∙ with_header_words.0,
        build_below base bucket (available bucket) 0 (header + 12) (with_header k bucket)
              (omega (arith, room)) (omega arith)
            ∙ with_header_words.1,
      )

  linked_eq :
      put
        (link_cells (with_header k bucket) base bucket 0 (available bucket))
        (cell base bucket (available bucket))
        0
      ≡ linked
  unfolding linked
  linked_eq =
      build_lem base bucket (available bucket) 0 (available bucket) (with_header k bucket)
        (omega arith)

  grow_bin_staged : grow_bin k bucket ≡ (
      let at = get (with_header k bucket) (head_of header) in
      (
        header,
        put
            (put
              (link_cells (with_header k bucket) at bucket 0 (available bucket))
              (cell at bucket (available bucket))
              0)
            (size_of header)
            bucket,
      ))
  unfolding grow_bin with_header sbrk
  grow_bin_staged = refl

  grow_bin_lem : grow_bin k bucket ≡ (header, put linked (size_of header) bucket)
  grow_bin_lem =
      grow_bin_staged
      ∙ rw with_header_words.0
          (ap (λ (q : Kernel). (header, put q (size_of header) bucket)) linked_eq)

  linked-FreeList : FreeList linked.ram base (cells_from base bucket 0 (suc (available bucket)))
  unfolding linked
  linked-FreeList =
      let start : cell base bucket 0 ≡ base = omega arith in
      subst (λ a. FreeList linked.ram a (cells_from base bucket 0 (suc (available bucket)))) start
        (build-FreeList base bucket (available bucket) 0 (with_header k bucket)
          (omega (arith, available_room bucket small)) (omega (arith, p.in_range)))

  linked-IsBytes : IsBytes linked.ram
  unfolding linked
  linked-IsBytes =
      build-IsBytes base bucket (available bucket) 0 (with_header k bucket) with_header-IsBytes

  fresh-Cells : Cells header (cells_from base bucket 0 (suc (available bucket)))
  fresh-Cells =
      cells_from-Cells base bucket (available bucket) 0 header
        (omega (arith, available_room bucket small)) refl

  fresh-IsSlab :
      IsSlab
        (put linked (size_of header) bucket)
        header
        bucket
        (cell base bucket 0 ∷ cells_from base bucket 1 (available bucket))
  unfolding cells_from
  fresh-IsSlab = record {
    bytes = store32-IsBytes linked.ram (header + 8) bucket linked-IsBytes;
    aligned = p.aligned;
    positive = p.positive;
    in_range = p.in_range;
    small = small;
    size = load32-store32_self linked.ram (header + 8) bucket (omega (arith, small));
    magic =
        load32-store32_apart linked.ram (header + 8) bucket (header + 12) (inr (omega arith))
        ∙ linked_words.1;
    cells = fresh-Cells;
    free =
        rw
          (
            load32-store32_apart linked.ram (header + 8) bucket (header + 4) (inl (omega arith)),
            linked_words.0,
          )
          (FreeList-store32 linked.ram (header + 8) bucket base
            (cells_from base bucket 0 (suc (available bucket)))
            (header-Apart header (header + 8) (cells_from base bucket 0 (suc (available bucket)))
              (omega arith) fresh-Cells)
            linked-FreeList);
  }

  linked_globals : (linked.heap_end ≡ u32 (header + page_size)) × (linked.bin_head bucket ≡ header)
  unfolding linked with_header list_insert sbrk
  linked_globals =
      let (end, heads) = build_globals base bucket (available bucket) 0 (with_header k bucket) in
      (end, heads bucket ∙ ground arith)

klmalloc-grow_bin :
    (fuel : ℕ) (k q : Kernel) (size header : ℕ)
    → 0 < size
    → bin_size size < big_bin
    → k.bin_head (bin_size size) ≡ 0
    → grow_bin k (bin_size size) ≡ (header, q)
    → klmalloc fuel k size ≡ some (take_cell header (bin_size size) q)
unfolding klmalloc malloc_small list_head
klmalloc-grow_bin fuel k q size header pos small none_free grown =
    let positive : (size == 0) ≡ false = ground arith in
    let is_small : ltb (bin_size size) big_bin ≡ true = ground arith in
    rw (positive, is_small, none_free, grown) refl

-- Where no bin of the list of a size from 1 to 2048 has a free cell, klmalloc makes a bin of the
-- page at the end of the heap. The cells of the bin have `step` bytes each, enough for the size, and
-- lie one behind the other from the end of the header on, as many as the page has room for. klmalloc
-- returns the first of them, the other `others` are free in the order of their addresses, and the
-- heap grew by a page.
pub klmalloc_fresh :
    (fuel : ℕ) (k : Kernel) (size : ℕ)
    → 0 < size
    → size ≤ 2048
    → HasPage k
    → k.bin_head (bin_size size) ≡ 0
    → (k' : Kernel) × (step : ℕ) × (others : ℕ) × (klmalloc fuel k size
        ≡ some (k.heap_end + header_size, k'))
      × (size ≤ step)
      × (step ≡ 4 * 2 ^ bin_size size)
      × (header_size + (others + 1) * step ≤ page_size)
      × (page_size < header_size + (others + 2) * step)
      × IsSlab k' k.heap_end (bin_size size) (spaced (k.heap_end + header_size + step) step others)
      × IsListed k' k.heap_end
          (bin_size size)
          (spaced (k.heap_end + header_size + step) step others)
      × (k'.heap_end ≡ u32 (k.heap_end + page_size))
klmalloc_fresh fuel k size pos le p none_free =
    let bucket = bin_size size in
    let (small, enough, tight) = bin_size_tightest size pos le in
    let base = k.heap_end + header_size in
    let grown = grow_bin_lem k bucket small p in
    let q = put (linked k bucket small p) (size_of k.heap_end) bucket in
    let start : cell base bucket 0 ≡ base = omega arith in
    let (item, slab, listed) =
      take_cell-IsSlab q k.heap_end bucket (cell base bucket 0)
        (cells_from base bucket 1 (available bucket)) (fresh-IsSlab k bucket small p)
        (linked_globals k bucket small p).1 in
    let k' = (take_cell k.heap_end bucket q).1 in
    let (fits, full) = fills_lem bucket small in
    let laid_out =
      cells_from-spaced base bucket (available bucket) 1 (base + 4 * 2 ^ bucket)
        (grind (arith, available_room bucket small)) (omega arith) in
    (
      k',
      4 * 2 ^ bucket,
      available bucket,
      klmalloc-grow_bin fuel k q size k.heap_end pos small none_free grown
          ∙ ap (λ i. some (i, k')) (item ∙ start),
      enough,
      refl,
      fits,
      full,
      subst (λ cs. IsSlab k' k.heap_end bucket cs) laid_out slab,
      subst (λ cs. IsListed k' k.heap_end bucket cs) laid_out listed,
      heap_end-take_cell q k.heap_end bucket ∙ (linked_globals k bucket small p).0,
    )
