-- ===== src/Heap/Alloc.antt =====
-- klmalloc, klfree and what is made of them. A result `none` says that a loop over the skip list
-- ran out of fuel; the small bins need none. The spin locks of the source are empty macros.
use balloon.Base.{
  ℕ, zero, suc, ◌+◌, ◌-◌, ◌*◌, ◌/◌, ◌%◌, Option, some, bit_and, ltb, leb, ◌==◌, if◌then◌else◌,
  add32, sub32, mul32, ◌<<◌, ◌>>◌,
}
use balloon.Machine.{Kernel, get, put}
use balloon.Libc.Memory.{memcpy, memset}
use balloon.Heap.Bins.{smallest_bin_log, num_bins, big_bin, bin_size}
use balloon.Heap.Header.{
  page_size, bin_magic, header_size, big_header_size, next_of, head_of, size_of, magic_of, prev_of,
  list_decouple, list_insert, list_head, sbrk,
}
use balloon.Heap.Skip.{◌>>=◌, skip_list_findbest, skip_list_insert, skip_list_delete}
use balloon.Heap.Stack.{stack_pop, stack_push, stack_empty}

-- (uint32_t)ptr & (uint32_t)~PAGE_MASK
abbrev pub page_of : ℕ → ℕ
page_of ptr = bit_and ptr 0xffff_f000

-- &base[i << bucket], for a `uint32_t**`
abbrev pub cell : (base bucket i : ℕ) → ℕ
cell base bucket i = base + 4 * (i << bucket)

-- for (; i < i + n; ++i) base[i << bucket] = (uint32_t *)&base[(i + 1) << bucket];
unfoldable pub link_cells : Kernel → (base bucket i n : ℕ) → Kernel
link_cells k base bucket i zero = k
link_cells k base bucket i (suc n) =
    link_cells (put k (cell base bucket i) (cell base bucket (i + 1))) base bucket (i + 1) n

abbrev pub available : ℕ → ℕ
available bucket = ((page_size - header_size) >> (smallest_bin_log + bucket)) - 1

-- A new page for the bin, with its cells linked and its header in the bin's list.
unfoldable pub grow_bin : Kernel → ℕ → ℕ × Kernel
grow_bin k bucket =
    let (header, k₁) = sbrk k page_size in
    let k₂ = put k₁ (magic_of header) bin_magic in
    let k₃ = put k₂ (head_of header) (header + header_size) in
    let k₄ = list_insert k₃ bucket header in
    let base = get k₄ (head_of header) in
    let k₅ = link_cells k₄ base bucket 0 (available bucket) in
    let k₆ = put k₅ (cell base bucket (available bucket)) 0 in
    (header, put k₆ (size_of header) bucket)

-- klmalloc from the test of `bin_header` on, at a small bin
unfoldable pub take_cell : (header bucket : ℕ) → Kernel → ℕ × Kernel
take_cell header bucket k =
    let (item, k') = stack_pop k header in
    (item, if stack_empty k' header then list_decouple k' bucket header else k')

unfoldable pub malloc_small : Kernel → ℕ → ℕ × Kernel
malloc_small k bucket =
    let header = list_head k bucket in
    if header == 0
    then (let (fresh, k') = grow_bin k bucket in take_cell fresh bucket k')
    else take_cell header bucket k

-- a block of whole pages at the end of the heap
unfoldable pub grow_big : Kernel → ℕ → ℕ × Kernel
grow_big k size =
    let pages = add32 size big_header_size / page_size + 1 in
    let (header, k₁) = sbrk k (mul32 page_size pages) in
    let k₂ = put k₁ (magic_of header) bin_magic in
    let k₃ = put k₂ (size_of header) (sub32 (mul32 pages page_size) big_header_size) in
    let k₄ = put k₃ (prev_of header) k₃.newest_big in
    let prev = get k₄ (prev_of header) in
    let k₅ = if prev == 0 then k₄ else put k₄ (next_of prev) header in
    let k₆ = put (record k₅ { newest_big = header }) (next_of header) 0 in
    (header + big_header_size, put k₆ (head_of header) 0)

unfoldable pub malloc_big : (fuel : ℕ) → Kernel → ℕ → Option (ℕ × Kernel)
malloc_big fuel k size = skip_list_findbest fuel k size >>= λ header.
    if header == 0
    then some (grow_big k size)
    else (skip_list_delete fuel k header >>= λ k'. some (stack_pop k' header))

unfoldable pub klmalloc : (fuel : ℕ) → Kernel → ℕ → Option (ℕ × Kernel)
klmalloc fuel k size =
    if size == 0
    then some (0, k)
    else if ltb (bin_size size) big_bin
    then some (malloc_small k (bin_size size))
    else malloc_big fuel k size

-- a page-aligned pointer belongs to the page before it
abbrev pub inner : ℕ → ℕ
inner ptr = if ptr % page_size == 0 then ptr - 1 else ptr

unfoldable pub free_big : (fuel : ℕ) → Kernel → ℕ → Option Kernel
free_big fuel k header =
    skip_list_insert fuel (stack_push k header (header + big_header_size)) header

unfoldable pub free_small : Kernel → (header bucket ptr : ℕ) → Kernel
free_small k header bucket ptr =
    stack_push (if stack_empty k header then list_insert k bucket header else k) header ptr

unfoldable pub klfree : (fuel : ℕ) → Kernel → ℕ → Option Kernel
klfree fuel k ptr =
    let header = page_of (inner ptr) in
    let bucket = get k (size_of header) in
    if ptr == 0
    then some k
    else if get k (magic_of header) == bin_magic
    then (if ltb num_bins bucket
        then free_big fuel k header
        else some (free_small k header bucket (inner ptr)))
    else some k

unfoldable pub klvalloc : (fuel : ℕ) → Kernel → ℕ → Option (ℕ × Kernel)
klvalloc fuel k size =
    klmalloc fuel k (sub32 (add32 size page_size) big_header_size) >>= λ (result, k').
    some (add32 result (page_size - big_header_size), k')

unfoldable pub malloc : (fuel : ℕ) → Kernel → ℕ → Option (ℕ × Kernel)
malloc fuel k size = klmalloc fuel k size

unfoldable pub valloc : (fuel : ℕ) → Kernel → ℕ → Option (ℕ × Kernel)
valloc fuel k size = klvalloc fuel k size

unfoldable pub free : (fuel : ℕ) → Kernel → ℕ → Option Kernel
free fuel k ptr = if ltb k.placement_pointer ptr then klfree fuel k ptr else some k

unfoldable pub block_size : Kernel → ℕ → ℕ
block_size k header =
    let size = get k (size_of header) in
    if ltb size big_bin then 1 << (smallest_bin_log + size) else size

unfoldable pub klrealloc : (fuel : ℕ) → Kernel → (ptr size : ℕ) → Option (ℕ × Kernel)
klrealloc fuel k ptr size =
    if ptr == 0
    then malloc fuel k size
    else if size == 0
    then (free fuel k ptr >>= λ k'. some (0, k'))
    else if get k (magic_of (page_of ptr)) == bin_magic
    then (let old_size = block_size k (page_of ptr) in
        if leb size old_size
        then some (ptr, k)
        else (klmalloc fuel k size >>= λ (newptr, k').
            if newptr == 0
            then some (0, k')
            else (klfree fuel (record k' { ram = memcpy k'.ram newptr ptr old_size }) ptr >>= λ k''.
                some (newptr, k''))))
    else some (0, k)

unfoldable pub realloc : (fuel : ℕ) → Kernel → (ptr size : ℕ) → Option (ℕ × Kernel)
realloc fuel k ptr size = klrealloc fuel k ptr size

unfoldable pub klcalloc : (fuel : ℕ) → Kernel → (nmemb size : ℕ) → Option (ℕ × Kernel)
klcalloc fuel k nmemb size = klmalloc fuel k (mul32 nmemb size) >>= λ (ptr, k').
    if ptr == 0
    then some (ptr, k')
    else some (ptr, record k' { ram = memset k'.ram ptr 0 (mul32 nmemb size) })

unfoldable pub calloc : (fuel : ℕ) → Kernel → (nmemb size : ℕ) → Option (ℕ × Kernel)
calloc fuel k nmemb size = klcalloc fuel k nmemb size
