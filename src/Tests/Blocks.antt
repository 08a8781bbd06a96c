-- ===== src/Tests/Blocks.antt =====
-- The skip list and the blocks of whole pages on a small heap.
use balloon.Base.{
  ◌⊎◌, ℕ, zero, suc, ◌+◌, ◌-◌, ◌%◌, ◌≤◌, ◌≡◌, refl, inl, inr, some, List, [], ◌∷◌, arith,
}
use balloon.Ram.Access.{Ram, load32, store8, store32}
use balloon.Machine.{Kernel, get}
use balloon.Heap.Header.{page_size, big_header_size, next_of, head_of}
use balloon.Heap.Alloc.{klmalloc, klfree, klvalloc}
use balloon.Heap.Skip.{skip_list_findbest, skip_list_insert, skip_list_delete}
use balloon.Heap.Skip.Best.{best_fit}
use balloon.Heap.Skip.Levels.{Block, Every, level, Chain, SkipList, Away}
use balloon.Heap.Skip.Search.{findbest_smallest}
use balloon.Heap.Skip.Insert.{Insertable, inserted, skip_list_insert-SkipList}
use balloon.Heap.Skip.Delete.{skip_list_delete-SkipList}
use balloon.Heap.Big.{pages_for, IsBlock}
use balloon.Heap.Big.New.{klmalloc_new-IsBlock, klvalloc_aligned}
use balloon.Heap.Big.Reuse.{IsAllocated, klmalloc-klfree_big}
use balloon.Tests.States.{zeros, empty_heap}

-- The list header at 0x5000 leads to the free blocks 0x7000 of 0x1fd0 bytes and 0xa000 of 0x3fd0
-- bytes, of which the second one stands in the level 1. The block 0xe000 of 0x2fd0 bytes is
-- allocated.
abbrev block_ram : Ram
block_ram =
    store32
      (store32
        (store32
          (store32
            (store32
              (store32 (store32 (store32 (store32 zeros 0x5014 0x7000) 0x5018 0xa000) 0x7004 0x7030)
                0x7008 0x1fd0)
              0x7014 0xa000)
            0xa004 0xa030)
          0xa008 0x3fd0)
        0xe008 0x2fd0)
      0xe00c 0xdefad00d

abbrev block_kernel : Kernel
block_kernel = record empty_heap { ram = block_ram; level = 1; newest_big = 0xe000 }

abbrev free_blocks : List Block
free_blocks = (0x7000, 0) ∷ (0xa000, 1) ∷ []

at_most_six : (P : ℕ → Type 0) → P 0 → P 1 → P 2 → P 3 → P 4 → P 5 → P 6 → (i : ℕ) → i ≤ 6 → P i
at_most_six P p₀ p₁ p₂ p₃ p₄ p₅ p₆ zero le = p₀
at_most_six P p₀ p₁ p₂ p₃ p₄ p₅ p₆ (suc zero) le = p₁
at_most_six P p₀ p₁ p₂ p₃ p₄ p₅ p₆ (suc (suc zero)) le = p₂
at_most_six P p₀ p₁ p₂ p₃ p₄ p₅ p₆ (suc (suc (suc zero))) le = p₃
at_most_six P p₀ p₁ p₂ p₃ p₄ p₅ p₆ (suc (suc (suc (suc zero)))) le = p₄
at_most_six P p₀ p₁ p₂ p₃ p₄ p₅ p₆ (suc (suc (suc (suc (suc zero))))) le = p₅
at_most_six P p₀ p₁ p₂ p₃ p₄ p₅ p₆ (suc (suc (suc (suc (suc (suc zero)))))) le = p₆
at_most_six P p₀ p₁ p₂ p₃ p₄ p₅ p₆ (suc (suc (suc (suc (suc (suc (suc i))))))) le =
    absurd (omega arith)

free_blocks-SkipList : SkipList block_kernel free_blocks
unfolding level Chain load32 store32 store8
free_blocks-SkipList = record {
  in_range = ((omega arith, omega arith), ((omega arith, omega arith), tt));
  apart_from_head = (inl (omega arith), (inl (omega arith), tt));
  separate = ((inl (omega arith), tt), (tt, tt));
  sorted = ((omega arith, tt), (tt, tt));
  heights = (omega arith, (omega arith, tt));
  max_level = omega arith;
  chains =
      at_most_six (λ i. Chain block_kernel i 0x5000 (level i free_blocks)) (refl, (refl, refl))
        (refl, refl) refl refl refl refl refl;
}

findbest_smallest_example :
    skip_list_findbest 3 block_kernel 0x2000
    ≡ some (best_fit block_kernel 0x2000 (0x7000 ∷ 0xa000 ∷ []))
findbest_smallest_example =
    findbest_smallest 3 block_kernel 0x2000 free_blocks free_blocks-SkipList (omega arith)

new_block : Insertable block_kernel 0xe000 free_blocks
new_block =
    ((omega arith, omega arith), inl (omega arith), (inr (omega arith), (inr (omega arith), tt)))

skip_list_insert-SkipList_example :
    (k' : Kernel) × (h : ℕ) × (skip_list_insert 3 block_kernel 0xe000 ≡ some k')
    × SkipList k' (inserted block_kernel (0xe000, h) free_blocks)
    × ((a : ℕ)
        → Away a 0x5000
        → Away a 0xe000
        → Every (λ b. Away a b.0) free_blocks
        → get k' a ≡ get block_kernel a)
    × (k'.big_head ≡ 0x5000)
skip_list_insert-SkipList_example =
    skip_list_insert-SkipList 3 block_kernel 0xe000 free_blocks free_blocks-SkipList new_block
      (omega arith)

skip_list_delete-SkipList_example :
    (k' : Kernel) × (skip_list_delete 3 block_kernel 0xa000 ≡ some k')
    × SkipList k' ((0x7000, 0) ∷ [])
    × ((a : ℕ)
        → Away a 0x5000
        → Every (λ b. Away a b.0) free_blocks
        → get k' a ≡ get block_kernel a)
    × (k'.big_head ≡ 0x5000)
unfolding load32 store32 store8
skip_list_delete-SkipList_example =
    skip_list_delete-SkipList 3 block_kernel (0xa000, 1) ((0x7000, 0) ∷ []) [] free_blocks-SkipList
      (omega arith, tt) (omega arith)

taken_block : IsAllocated block_kernel 0xe000 free_blocks
unfolding load32 store32 store8
taken_block = record {
  aligned = refl;
  in_range = omega arith;
  magic = refl;
  large = omega arith;
  head = refl;
  beside = new_block;
  content = (inr (omega arith), (inr (omega arith), (inr (omega arith), tt)));
}

klmalloc-klfree_big_example :
    (k' : Kernel) × (k'' : Kernel) × (klfree 3 block_kernel 0xe030 ≡ some k')
    × (klmalloc 3 k' 0x2000 ≡ some (0xe030, k''))
    × SkipList k'' free_blocks
    × (get k'' (head_of 0xe000) ≡ 0)
unfolding load32 store32 store8
klmalloc-klfree_big_example =
    klmalloc-klfree_big 3 block_kernel 0x2000 0xe000 free_blocks (omega arith) (omega arith)
      (inl (omega arith), (inr (omega arith), tt)) taken_block free_blocks-SkipList (omega arith)

klmalloc_new-IsBlock_example :
    (k' : Kernel) × (klmalloc 3 block_kernel 0x5000 ≡ some (0x20_0000 + big_header_size, k'))
    × IsBlock k' 0x20_0000 (pages_for 0x5000 - big_header_size) 0xe000
    × ((◌≡◌ {A = ℕ} 0xe000 0) ⊎ (get k' (next_of 0xe000) ≡ 0x20_0000))
    × (0x5000 ≤ pages_for 0x5000 - big_header_size)
    × (k'.heap_end ≡ 0x20_0000 + big_header_size + (pages_for 0x5000 - big_header_size))
    × (k'.heap_end % page_size ≡ 0)
    × SkipList k' free_blocks
unfolding load32 store32 store8
klmalloc_new-IsBlock_example =
    klmalloc_new-IsBlock 3 block_kernel 0x5000 free_blocks (omega arith) (omega arith)
      (record {
        aligned = refl;
        positive = omega arith;
        in_range = omega arith;
        newest = inr (omega arith);
      })
      free_blocks-SkipList
      (record {
        below = (omega arith, (omega arith, (omega arith, tt)));
        newest =
            inr (inr (inr (omega arith)), (inr (inr (omega arith)), (inr (inr (omega arith)), tt)));
      })
      (omega arith, (omega arith, tt))

klvalloc_aligned_example :
    (out : ℕ) × (k' : Kernel) × (klvalloc 3 block_kernel 0x5000 ≡ some (out, k'))
    × (out % page_size ≡ 0)
    × (0x20_0000 + big_header_size ≤ out)
    × (out + 0x5000 ≤ k'.heap_end)
unfolding load32 store32 store8
klvalloc_aligned_example =
    klvalloc_aligned 3 block_kernel 0x5000 free_blocks (omega arith) (omega arith)
      (record {
        aligned = refl;
        positive = omega arith;
        in_range = omega arith;
        newest = inr (omega arith);
      })
      free_blocks-SkipList (omega arith, (omega arith, tt))
