-- ===== src/Heap/Big.antt =====
-- Blocks of whole pages: what klmalloc lays out at the end of the heap.
pub mod New
pub mod Reuse
use balloon.Base.{
  ℕ, ◌+◌, ◌-◌, ◌*◌, ◌/◌, ◌%◌, ◌≤◌, ◌<◌, ◌≡◌, refl, ◌⊎◌, inl, inr, false, some, [], arith, ◌==◌,
  if◌then◌else◌, ◌∙◌, ap, add32, sub32, mul32,
}
use balloon.Ram.Access.{Ram, store32}
use balloon.Ram.Frame.{load32-store32_self, load32-store32_apart}
use balloon.Libc.Memory.{memset}
use balloon.Libc.Memory.Copy.{load32-memset_apart}
use balloon.Machine.{Kernel, get, put}
use balloon.Heap.Header.{
  page_size, bin_magic, big_header_size, next_of, head_of, size_of, magic_of, prev_of, sbrk,
}
use balloon.Heap.Bins.Fit.{bin_size_of_large}
use balloon.Heap.Alloc.{grow_big, malloc_big, klmalloc, klvalloc}

-- The bytes of the pages that a block of `size` bytes takes: one more page than the size and the
-- header fill, so there is always room.
abbrev pub pages_for : ℕ → ℕ
pages_for size = (size + big_header_size) / page_size * page_size + page_size

-- What klmalloc finds before it lays out a block of `size` bytes: the end of the heap at a page,
-- the address space not used up, and the newest block, if any, below.
pub record HasPages (k : Kernel) (size : ℕ) : Type 0 where
  pub aligned : k.heap_end % page_size ≡ 0
  pub positive : 0 < k.heap_end
  pub in_range : k.heap_end + pages_for size < 0x1_0000_0000
  pub newest : (k.newest_big ≡ 0) ⊎ (k.newest_big + big_header_size ≤ k.heap_end)

-- `header` heads an allocated block of `bytes` bytes behind the block `before`.
pub record IsBlock (k : Kernel) (header bytes before : ℕ) : Type 0 where
  pub size : get k (size_of header) ≡ bytes
  pub magic : get k (magic_of header) ≡ bin_magic
  pub head : get k (head_of header) ≡ 0
  pub next : get k (next_of header) ≡ 0
  pub prev : get k (prev_of header) ≡ before
  pub newest : k.newest_big ≡ header

-- the store of the last block's `next`
link_newest : Kernel → (prev header : ℕ) → Kernel
link_newest k prev header = if prev == 0 then k else put k (next_of prev) header

link_newest_apart :
    (k : Kernel) (prev header a : ℕ)
    → header ≤ a
    → (prev ≡ 0) ⊎ (prev + big_header_size ≤ header)
    → get (link_newest k prev header) a ≡ get k a
unfolding link_newest
link_newest_apart k prev header a le h = ground (arith, load32-store32_apart k.ram prev header a)

link_newest_end : (k : Kernel) (prev header : ℕ) → (link_newest k prev header).heap_end ≡ k.heap_end
unfolding link_newest
link_newest_end k prev header = ground arith

-- klmalloc's state when the magic, the size and `prev` of the new block are written
stage : Kernel → (increment end bytes : ℕ) → Kernel
stage k increment end bytes =
    let header = k.heap_end in
    put
      (put
        (put (record k { heap_end = end; ram = memset k.ram header 0 increment }) (magic_of header)
          bin_magic)
        (size_of header) bytes)
      (prev_of header) k.newest_big

-- the stores behind
finish : Kernel → (header prev : ℕ) → Kernel
finish k header prev =
    put (put (record (link_newest k prev header) { newest_big = header }) (next_of header) 0)
      (head_of header) 0

grow_big_staged :
    (k : Kernel) (size : ℕ)
    → grow_big k size ≡ (
        let pages = add32 size big_header_size / page_size + 1 in
        let k₄ =
          stage k
            (mul32 page_size pages)
            (add32 k.heap_end (mul32 page_size pages))
            (sub32 (mul32 pages page_size) big_header_size) in
        (k.heap_end + big_header_size, finish k₄ k.heap_end (get k₄ (prev_of k.heap_end))))
unfolding grow_big sbrk stage finish link_newest
grow_big_staged k size = refl

module _ (k : Kernel) (size : ℕ) (p : HasPages k size) where
  abbrev header : ℕ
  header = k.heap_end

  abbrev cleared : Ram
  cleared = memset k.ram header 0 (pages_for size)

  pub with_prev : Kernel
  with_prev = stage k (pages_for size) (header + pages_for size) (pages_for size - big_header_size)

  pub laid_out : Kernel
  laid_out = finish with_prev header k.newest_big

  with_prev_words :
      (get with_prev (size_of header) ≡ pages_for size - big_header_size)
      × (get with_prev (magic_of header) ≡ bin_magic)
      × (get with_prev (prev_of header) ≡ k.newest_big)
  unfolding with_prev stage
  with_prev_words =
      let m₁ = store32 cleared (header + 12) bin_magic in
      let m₂ = store32 m₁ (header + 8) (pages_for size - big_header_size) in
      (
        load32-store32_apart m₂ (header + 16) k.newest_big (header + 8) (inl (omega arith))
            ∙ load32-store32_self m₁ (header + 8) (pages_for size - big_header_size)
                (omega (arith, p.in_range)),
        load32-store32_apart m₂ (header + 16) k.newest_big (header + 12) (inl (omega arith))
            ∙ load32-store32_apart m₁ (header + 8) (pages_for size - big_header_size) (header + 12)
                (inr (omega arith))
            ∙ load32-store32_self cleared (header + 12) bin_magic (omega arith),
        load32-store32_self m₂ (header + 16) k.newest_big (omega (arith, p.in_range, p.newest)),
      )

  -- The last two stores leave the words behind them.
  pub laid_out_word : (a : ℕ) → header + 8 ≤ a → get laid_out a ≡ get with_prev a
  unfolding laid_out finish
  laid_out_word a h =
      let linked = (link_newest with_prev k.newest_big header).ram in
      load32-store32_apart (store32 linked header 0) (header + 4) 0 a (inr (omega arith))
      ∙ load32-store32_apart linked header 0 a (inr (omega arith))
      ∙ link_newest_apart with_prev k.newest_big header a (omega arith) p.newest

  with_prev_apart : (a : ℕ) → a + 4 ≤ header → get with_prev a ≡ get k a
  unfolding with_prev stage
  with_prev_apart a below =
      let m₁ = store32 cleared (header + 12) bin_magic in
      let m₂ = store32 m₁ (header + 8) (pages_for size - big_header_size) in
      load32-store32_apart m₂ (header + 16) k.newest_big a (inl (omega arith))
      ∙ load32-store32_apart m₁ (header + 8) (pages_for size - big_header_size) a
          (inl (omega arith))
      ∙ load32-store32_apart cleared (header + 12) bin_magic a (inl (omega arith))
      ∙ load32-memset_apart k.ram header 0 (pages_for size) a (inl below)

  -- The words below the block stay, but for `next` of the newest block.
  pub laid_out_apart :
      (a : ℕ)
      → a + 4 ≤ header
      → (k.newest_big ≡ 0) ⊎ (a + 4 ≤ k.newest_big) ⊎ (k.newest_big + 4 ≤ a)
      → get laid_out a ≡ get k a
  unfolding laid_out finish link_newest
  laid_out_apart a below apart =
      let linked = (link_newest with_prev k.newest_big header).ram in
      load32-store32_apart (store32 linked header 0) (header + 4) 0 a (inl (omega arith))
      ∙ load32-store32_apart linked header 0 a (inl below)
      ∙ ground (arith, load32-store32_apart with_prev.ram k.newest_big header a)
      ∙ with_prev_apart a below

  -- `next` of the newest block leads to the new one.
  pub laid_out_next : 0 < k.newest_big → get laid_out k.newest_big ≡ header
  unfolding laid_out finish link_newest
  laid_out_next some_block =
      let linked = (link_newest with_prev k.newest_big header).ram in
      let used : (k.newest_big == 0) ≡ false = ground arith in
      load32-store32_apart (store32 linked header 0) (header + 4) 0 k.newest_big
        (ground (arith, p.newest))
      ∙ load32-store32_apart linked header 0 k.newest_big (ground (arith, p.newest))
      ∙ rw used (load32-store32_self with_prev.ram k.newest_big header (omega (arith, p.in_range)))

  pub laid_out_list : (laid_out.big_head ≡ k.big_head) × (laid_out.level ≡ k.level)
  unfolding laid_out finish link_newest with_prev stage
  laid_out_list = ground arith

  pub laid_out-IsBlock : IsBlock laid_out header (pages_for size - big_header_size) k.newest_big
  unfolding laid_out finish
  laid_out-IsBlock =
      let linked = (link_newest with_prev k.newest_big header).ram in
      record {
        size = laid_out_word (header + 8) (omega arith) ∙ with_prev_words.0;
        magic = laid_out_word (header + 12) (omega arith) ∙ with_prev_words.1;
        head = load32-store32_self (store32 linked header 0) (header + 4) 0 (omega arith);
        next =
            load32-store32_apart (store32 linked header 0) (header + 4) 0 header (inl (omega arith))
            ∙ load32-store32_self linked header 0 (omega arith);
        prev = laid_out_word (header + 16) (omega arith) ∙ with_prev_words.2;
        newest = refl;
      }

  stage_eq :
      (let pages = add32 size big_header_size / page_size + 1 in
        stage k
          (mul32 page_size pages)
          (add32 header (mul32 page_size pages))
          (sub32 (mul32 pages page_size) big_header_size))
      ≡ with_prev
  unfolding with_prev
  stage_eq =
      let pages = add32 size big_header_size / page_size + 1 in
      let bytes : mul32 page_size pages ≡ pages_for size = omega (arith, p.in_range) in
      let end : add32 header (mul32 page_size pages) ≡ header + pages_for size =
        omega (arith, p.in_range) in
      let inside : sub32 (mul32 pages page_size) big_header_size
          ≡ pages_for size - big_header_size =
        omega (arith, p.in_range) in
      λ i. stage k (bytes i) (end i) (inside i)

  pub grow_big_lem : grow_big k size ≡ (header + big_header_size, laid_out)
  unfolding laid_out
  grow_big_lem = grow_big_staged k size ∙ rw (stage_eq, with_prev_words.2) refl

  pub laid_out_end : laid_out.heap_end ≡ header + pages_for size
  unfolding laid_out finish with_prev stage
  laid_out_end = link_newest_end _ k.newest_big header
