-- ===== src/Heap/Big/New.antt =====
-- klmalloc for more than 2048 bytes where no free block is large enough, and klvalloc.
use mathlib.Core.List.{append-nil}
use mathlib.Core.Path.{subst}
use balloon.Base.{
  Bool-cases, ℕ, ◌+◌, ◌-◌, ◌%◌, ◌≤◌, ◌<◌, ◌≡◌, ◌⊎◌, inl, inr, false, some, List, [], ◌∷◌, arith,
  ◌==◌, ap, sym, add32, sub32, length,
}
use balloon.Machine.{Kernel, get}
use balloon.Heap.Header.{page_size, big_header_size, next_of, size_of, forward_of}
use balloon.Heap.Bins.Fit.{bin_size_of_large}
use balloon.Heap.Alloc.{malloc_big, klmalloc, klvalloc}
use balloon.Heap.Big.{
  pages_for, HasPages, IsBlock, laid_out, laid_out-IsBlock, grow_big_lem, laid_out_end,
  laid_out_apart, laid_out_list, laid_out_next,
}
use balloon.Heap.Skip.Levels.{Block, Every, Placed, SkipList, Every-map, Every-both}
use balloon.Heap.Skip.Search.{findbest_cut}
use balloon.Heap.Skip.Kept.{SameHeader, kept-SkipList}

-- The free blocks and the header of their list lie below the end of the heap, and the newest block
-- is one of them or beside them.
pub record IsBelow (k : Kernel) (ns : List Block) : Type 0 where
  pub below : Every (λ b. b.0 + big_header_size ≤ k.heap_end) ((k.big_head, 0) ∷ ns)
  pub newest : (k.newest_big ≡ 0) ⊎ Every (λ b. Placed k.newest_big b.0) ((k.big_head, 0) ∷ ns)

module _ (k : Kernel) (size : ℕ) (p : HasPages k size) (ns : List Block) (s : SkipList k ns) where
  klmalloc-laid_out :
      (fuel : ℕ)
      → 2048 < size
      → Every (λ b. get k (size_of b.0) < size) ns
      → length ns < fuel
      → klmalloc fuel k size ≡ some (k.heap_end + big_header_size, laid_out k size p)
  unfolding klmalloc malloc_big
  klmalloc-laid_out fuel large small lt =
      let positive : (size == 0) ≡ false = ground arith in
      let none =
        findbest_cut fuel k size ns [] (subst (λ zs. SkipList k zs) (sym (append-nil ns)) s) small
          (record {}) lt in
      rw (positive, bin_size_of_large size large, none) (ap some (grow_big_lem k size p))

  laid_out-SameHeader :
      (q : ℕ)
      → q + big_header_size ≤ k.heap_end
      → (k.newest_big ≡ 0) ⊎ Placed k.newest_big q
      → SameHeader k (laid_out k size p) q
  laid_out-SameHeader q below newest = (
    laid_out_apart k size p (size_of q) (omega arith) (ground (arith, newest)),
    λ i hi. laid_out_apart k size p (forward_of q i) (omega arith) (ground (arith, newest)),
  )

  laid_out-SkipList : IsBelow k ns → SkipList (laid_out k size p) ns
  laid_out-SkipList b =
      let nodes : List Block = (k.big_head, 0) ∷ ns in
      let (head_eq, level_eq) = laid_out_list k size p in
      let same : Every (λ c. SameHeader k (laid_out k size p) c.0) nodes = elim b.newest [
        | inl none ↦ Every-map _ _ nodes (λ c h. laid_out-SameHeader c.0 h (inl none)) b.below
        | inr placed ↦
            Every-map _ _ nodes (λ c h. laid_out-SameHeader c.0 h.0 (inr h.1))
              (Every-both _ _ nodes b.below placed)
      ] in
      kept-SkipList k (laid_out k size p) ns head_eq level_eq same s

-- Where no free block is large enough, klmalloc lays out a block for a size past 2048 at the end
-- of the heap. The block starts at a page, holds the size, ends at the new end of the heap, is
-- allocated, and is linked with the newest block before in both directions, if there is one. The
-- free blocks stay a skip list where they lie below the end of the heap and apart from the newest
-- block.
pub klmalloc_new-IsBlock :
    (fuel : ℕ) (k : Kernel) (size : ℕ) (ns : List Block)
    → 2048 < size
    → length ns < fuel
    → HasPages k size
    → SkipList k ns
    → IsBelow k ns
    → Every (λ b. get k (size_of b.0) < size) ns
    → (k' : Kernel) × (klmalloc fuel k size ≡ some (k.heap_end + big_header_size, k'))
      × IsBlock k' k.heap_end (pages_for size - big_header_size) k.newest_big
      × ((k.newest_big ≡ 0) ⊎ (get k' (next_of k.newest_big) ≡ k.heap_end))
      × (size ≤ pages_for size - big_header_size)
      × (k'.heap_end ≡ k.heap_end + big_header_size + (pages_for size - big_header_size))
      × (k'.heap_end % page_size ≡ 0)
      × SkipList k' ns
klmalloc_new-IsBlock fuel k size ns large lt p s below small = (
  laid_out k size p,
  klmalloc-laid_out k size p ns s fuel large small lt,
  laid_out-IsBlock k size p,
  elim (Bool-cases (k.newest_big == 0)) [
    | inl none ↦ inl (ground arith)
    | inr used ↦ inr (laid_out_next k size p (ground arith))
  ],
  omega arith,
  omega (arith, laid_out_end k size p),
  omega (arith, laid_out_end k size p, p.aligned),
  laid_out-SkipList k size p ns s below,
)

-- Where no free block is large enough, klvalloc returns the address of a page, with the size's
-- bytes behind it inside the heap.
pub klvalloc_aligned :
    (fuel : ℕ) (k : Kernel) (size : ℕ) (ns : List Block)
    → size + 0x1000 < 0x1_0000_0000
    → length ns < fuel
    → HasPages k (size + 4048)
    → SkipList k ns
    → Every (λ b. get k (size_of b.0) < size + 4048) ns
    → (out : ℕ) × (k' : Kernel) × (klvalloc fuel k size ≡ some (out, k'))
      × (out % page_size ≡ 0)
      × (k.heap_end + big_header_size ≤ out)
      × (out + size ≤ k'.heap_end)
unfolding klvalloc
klvalloc_aligned fuel k size ns range lt p s small =
    let same : sub32 (add32 size page_size) big_header_size ≡ size + 4048 = omega arith in
    let big = klmalloc-laid_out k (size + 4048) p ns s fuel (omega arith) small lt in
    (
      k.heap_end + page_size,
      laid_out k (size + 4048) p,
      rw (same, big) (ap (λ a. some (a, laid_out k (size + 4048) p)) (omega (arith, p.in_range))),
      omega (arith, p.aligned),
      omega arith,
      omega (arith, laid_out_end k (size + 4048) p),
    )
