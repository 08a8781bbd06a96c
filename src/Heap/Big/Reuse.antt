-- ===== src/Heap/Big/Reuse.antt =====
-- klmalloc and klfree at blocks of whole pages that the skip list holds.
use mathlib.Core.Path.{subst}
use balloon.Base.{
  ℕ, ◌+◌, ◌%◌, ◌≤◌, ◌<◌, ◌≡◌, refl, sym, ◌∙◌, ap, ◌⊎◌, true, false, some, List, ◌∷◌, ◌++◌, arith,
  ltb, ◌==◌, length, length-append,
}
use balloon.Ram.Frame.{load32-store32_self, load32-store32_apart}
use balloon.Machine.{Kernel, get, put}
use balloon.Heap.Header.{page_size, bin_magic, big_header_size, head_of, size_of, magic_of}
use balloon.Heap.Bins.{num_bins}
use balloon.Heap.Bins.Fit.{bin_size_of_large}
use balloon.Heap.Stack.{stack_pop, stack_push}
use balloon.Heap.Alloc.{page_of, inner, malloc_big, free_big, klmalloc, klfree}
use balloon.Heap.Slab.Free.{page_of_lem}
use balloon.Heap.Skip.Levels.{
  Block, Every, Beside, SkipList, Every-append, Every-map, Every-both, Separate, Away, split,
  kept_sizes,
}
use balloon.Heap.Skip.Search.{findbest_cut}
use balloon.Heap.Skip.Splice.{nodes}
use balloon.Heap.Skip.Insert.{Insertable, insert-Every, insert_cut}
use balloon.Heap.Skip.Delete.{
  skip_list_delete-SkipList, Every-remove, Separate-remove, Sorted-append,
}
use balloon.Heap.Skip.Kept.{Outside, put-SameHeader, put-SkipList}

-- The block `p` is free: its stack of cells holds its contents only, whose first word ends the
-- stack and belongs to no other header.
pub record IsFree (k : Kernel) (p : ℕ) (ns : List Block) : Type 0 where
  pub head : get k (head_of p) ≡ p + big_header_size
  pub end : get k (p + big_header_size) ≡ 0
  pub content : Every (λ b. Outside (p + big_header_size) b.0) ((k.big_head, 0) ∷ ns)

-- klmalloc takes the first block of the list that is large enough.
pub klmalloc_listed :
    (fuel : ℕ) (k : Kernel) (size : ℕ) (xs : List Block) (b : Block) (ys : List Block)
    → 2048 < size
    → SkipList k (xs ++ (b ∷ ys))
    → Every (λ c. get k (size_of c.0) < size) xs
    → size ≤ get k (size_of b.0)
    → IsFree k b.0 (xs ++ (b ∷ ys))
    → length xs < fuel
    → (k' : Kernel) × (klmalloc fuel k size ≡ some (b.0 + big_header_size, k'))
      × SkipList k' (xs ++ ys)
      × (get k' (head_of b.0) ≡ 0)
unfolding klmalloc malloc_big stack_pop
klmalloc_listed fuel k size xs b ys large s small fits free lt =
    let p = b.0 in
    let enough : Every (λ c. size ≤ get k (size_of c.0)) (b ∷ ys) =
      (fits, Every-map _ _ ys (λ c le. omega (arith, le)) (Sorted-append k xs b ys s.sorted)) in
    let found = findbest_cut fuel k size xs (b ∷ ys) s small enough lt in
    let (k₁, run, s₁, frame, same) =
      skip_list_delete-SkipList fuel k b xs ys s
        (Every-map _ _ xs (λ c lt. omega (arith, lt)) small) lt in
    let (positive, _) = Every-remove _ b xs ys s.in_range in
    let (head_p, head_rest) = Every-remove (λ c. Beside k.big_head c.0) b xs ys s.apart_from_head in
    let (beside, _) = Separate-remove b xs ys s.separate in
    let around : Every (λ c. Outside (head_of p) c.0) ((k₁.big_head, 0) ∷ (xs ++ ys)) = (
      rw same (ground (arith, head_p)),
      Every-map _ _ (xs ++ ys) (λ c h. ground (arith, h)) beside,
    ) in
    let head₁ : get k₁ (head_of p) ≡ p + big_header_size =
      frame (head_of p) (ground (arith, head_p)) (
        insert-Every (λ c. Away (head_of p) c.0) b xs ys (ground arith)
          (Every-map _ _ (xs ++ ys) (λ c h. ground (arith, h)) beside))
      ∙ free.head in
    let end₁ : get k₁ (p + big_header_size) ≡ 0 =
      frame (p + big_header_size) (ground (arith, free.content.0))
        (Every-map _ _ (xs ++ (b ∷ ys)) (λ c h. ground (arith, h)) free.content.1)
      ∙ free.end in
    let nonzero : (size == 0) ≡ false = ground arith in
    let present : (p == 0) ≡ false = ground (arith, positive) in
    (
      put k₁ (head_of p) 0,
      rw (nonzero, bin_size_of_large size large, found, present, run, head₁, end₁) refl,
      put-SkipList k₁ (head_of p) 0 (xs ++ ys) around s₁,
      load32-store32_self k₁.ram (head_of p) 0 (omega arith),
    )

-- The block `p` is allocated, at a page, and beside the free blocks.
pub record IsAllocated (k : Kernel) (p : ℕ) (ns : List Block) : Type 0 where
  pub aligned : p % page_size ≡ 0
  pub in_range : p + page_size ≤ 0x1_0000_0000
  pub magic : get k (magic_of p) ≡ bin_magic
  pub large : num_bins < get k (size_of p)
  pub head : get k (head_of p) ≡ 0
  pub beside : Insertable k p ns
  pub content : Every (λ b. Outside (p + big_header_size) b.0) ((k.big_head, 0) ∷ ns)

-- klfree goes from the contents of the block to its header.
klfree_to_big :
    (fuel : ℕ) (k : Kernel) (p : ℕ) (ns : List Block)
    → IsAllocated k p ns
    → klfree fuel k (p + big_header_size) ≡ free_big fuel k p
unfolding klfree
klfree_to_big fuel k p ns a =
    let inside : inner (p + big_header_size) ≡ p + big_header_size = ground (arith, a.aligned) in
    let page : page_of (p + big_header_size) ≡ p =
      page_of_lem (p + big_header_size) (omega (arith, a.in_range))
      ∙ omega (arith, a.aligned, a.in_range) in
    let nonzero : ((p + big_header_size) == 0) ≡ false = ground arith in
    let large : ltb num_bins (get k (size_of p)) ≡ true = ground (arith, a.large) in
    rw (inside, page, nonzero, a.magic, large) refl

module _ (k : Kernel) (p : ℕ) (ns : List Block) (a : IsAllocated k p ns) where
  -- the state in which the block's stack holds the contents
  abbrev pushed : Kernel
  pushed = put (put k (p + big_header_size) 0) (head_of p) (p + big_header_size)

  pushed_eq : stack_push k p (p + big_header_size) ≡ pushed
  unfolding stack_push
  pushed_eq = rw a.head refl

  head_Outside : Every (λ b. Outside (head_of p) b.0) ((k.big_head, 0) ∷ (p, 0) ∷ ns)
  head_Outside = (
    ground (arith, a.beside.1),
    (ground arith, Every-map _ _ ns (λ b h. ground (arith, h)) a.beside.2),
  )

  pushed-SkipList : SkipList k ns → SkipList pushed ns
  pushed-SkipList s =
      put-SkipList (put k (p + big_header_size) 0) (head_of p) (p + big_header_size) ns
        (head_Outside.0, head_Outside.1.1) (put-SkipList k (p + big_header_size) 0 ns a.content s)

  pushed-size : Every (λ b. get pushed (size_of b.0) ≡ get k (size_of b.0)) ((p, 0) ∷ ns)
  pushed-size =
      Every-map _ _ ((p, 0) ∷ ns)
        (λ b h.
          (put-SameHeader (put k (p + big_header_size) 0) (head_of p) (p + big_header_size) b.0
            h.0).0
          ∙ (put-SameHeader k (p + big_header_size) 0 b.0 h.1).0)
        (Every-both _ _ ((p, 0) ∷ ns) head_Outside.1 (ground arith, a.content.1))

  freed-IsFree :
      (k' : Kernel) (h : ℕ) (xs ys : List Block)
      → Insertable k p (xs ++ ys)
      → Every (λ b. Outside (p + big_header_size) b.0) ((k.big_head, 0) ∷ (xs ++ ys))
      → ((b : ℕ)
          → Every (λ c. Away b c.0) (nodes k.big_head (p, h) xs ys)
          → get k' b ≡ get pushed b)
      → k'.big_head ≡ k.big_head
      → IsFree k' p (xs ++ ((p, h) ∷ ys))
  freed-IsFree k' h xs ys new content frame same =
      let cleared = (put k (p + big_header_size) 0).ram in
      record {
        head =
            frame (head_of p) (
              ground (arith, new.1),
              (ground arith, Every-map _ _ (xs ++ ys) (λ b q. ground (arith, q)) new.2),
            )
            ∙ load32-store32_self cleared (head_of p) (p + big_header_size)
                (omega (arith, a.in_range));
        end =
            frame (p + big_header_size) (
              ground (arith, content.0),
              (ground arith, Every-map _ _ (xs ++ ys) (λ b q. ground (arith, q)) content.1),
            )
            ∙ load32-store32_apart cleared (head_of p) (p + big_header_size) (p + big_header_size)
                (ground arith)
            ∙ load32-store32_self k.ram (p + big_header_size) 0 (omega arith);
        content = (
          rw same content.0,
          insert-Every (λ b. Outside (p + big_header_size) b.0) (p, h) xs ys (ground arith)
              content.1,
        );
      }

-- klfree puts an allocated block into the list, behind the blocks that are smaller.
pub klfree_big :
    (fuel : ℕ) (k : Kernel) (p : ℕ) (ns : List Block)
    → IsAllocated k p ns
    → SkipList k ns
    → length ns < fuel
    → (k' : Kernel) × (h : ℕ) × (xs ys : List Block) × (klfree fuel k (p + big_header_size)
        ≡ some k')
      × (ns ≡ xs ++ ys)
      × SkipList k' (xs ++ ((p, h) ∷ ys))
      × IsFree k' p (xs ++ ((p, h) ∷ ys))
      × Every (λ c. get k' (size_of c.0) < get k' (size_of p)) xs
      × Every (λ c. get k' (size_of c.0) ≡ get k (size_of c.0)) ((p, h) ∷ ns)
unfolding free_big
klfree_big fuel k p ns a s lt =
    let k₁ = pushed k p ns a in
    let s₁ = pushed-SkipList k p ns a s in
    let (xs, ys, e, small, large) = split k₁ (get k₁ (size_of p)) ns s₁.sorted in
    let new = subst (λ zs. Insertable k₁ p zs) e a.beside in
    let content =
      subst (λ zs. Every (λ b. Outside (p + big_header_size) b.0) ((k.big_head, 0) ∷ zs)) e
        a.content in
    let (k', h, run, (s', frame, same)) =
      insert_cut k₁ p xs ys (subst (λ zs. SkipList k₁ zs) e s₁) new small large fuel
        (omega (arith, lt, ap (λ (zs : List Block). length zs) e, length-append xs ys)) in
    let beside_head = subst (λ zs. Every (λ b. Beside k.big_head b.0) zs) e s.apart_from_head in
    let sizes : Every (λ b. get k' (size_of b.0) ≡ get k₁ (size_of b.0))
        (nodes k.big_head (p, h) xs ys) =
      kept_sizes k₁ k' (nodes k.big_head (p, h) xs ys)
        ((new.1, beside_head), (new.2, subst (λ zs. Separate zs) e s.separate)) frame in
    (
      k',
      h,
      xs,
      ys,
      klfree_to_big fuel k p ns a ∙ rw (pushed_eq k p ns a) run,
      e,
      s',
      freed-IsFree k p ns a k' h xs ys new content frame same,
      Every-map _ _ xs (λ c q. omega (arith, q))
          (Every-both _ _ xs small (Every-append _ xs ys sizes.1.1).0),
      Every-map _ _ ((p, h) ∷ ns) (λ c q. q.0 ∙ q.1)
          (Every-both _ _ ((p, h) ∷ ns)
            (
              sizes.1.0,
              subst (λ zs. Every (λ b. get k' (size_of b.0) ≡ get k₁ (size_of b.0)) zs) (sym e)
                  sizes.1.1,
            )
            (pushed-size k p ns a)),
    )

-- A block that is freed serves the next request that it is the best fit of: where every other free
-- block is smaller than the request or at least as large as the block, klmalloc returns the block
-- again, and the list is as before.
pub klmalloc-klfree_big :
    (fuel : ℕ) (k : Kernel) (size p : ℕ) (ns : List Block)
    → 2048 < size
    → size ≤ get k (size_of p)
    → Every (λ c. (get k (size_of c.0) < size) ⊎ (get k (size_of p) ≤ get k (size_of c.0))) ns
    → IsAllocated k p ns
    → SkipList k ns
    → length ns < fuel
    → (k' : Kernel) × (k'' : Kernel) × (klfree fuel k (p + big_header_size) ≡ some k')
      × (klmalloc fuel k' size ≡ some (p + big_header_size, k''))
      × SkipList k'' ns
      × (get k'' (head_of p) ≡ 0)
klmalloc-klfree_big fuel k size p ns large fits others a s lt =
    let (k', h, xs, ys, freed, e, s', free, smaller, sizes) = klfree_big fuel k p ns a s lt in
    let both =
      subst
        (λ zs.
          Every
            (λ c.
              (get k' (size_of c.0) ≡ get k (size_of c.0))
              × ((get k (size_of c.0) < size) ⊎ (get k (size_of p) ≤ get k (size_of c.0))))
            zs)
        e (Every-both _ _ ns sizes.1 others) in
    let small : Every (λ c. get k' (size_of c.0) < size) xs =
      Every-map _ _ xs (λ c q. ground (arith, q, sizes.0))
        (Every-both _ _ xs smaller (Every-append _ xs ys both).0) in
    let (k'', taken, s'', head) =
      klmalloc_listed fuel k' size xs (p, h) ys large s' small (omega (arith, sizes.0)) free
        (omega (arith, lt, ap (λ (zs : List Block). length zs) e, length-append xs ys)) in
    (k', k'', freed, taken, subst (λ zs. SkipList k'' zs) (sym e) s'', head)
