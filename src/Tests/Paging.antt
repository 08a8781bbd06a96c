-- ===== src/Tests/Paging.antt =====
-- Frames and page tables in small memories.
use balloon.Base.{
  ℕ, ◌<◌, ◌≡◌, ◌≢◌, refl, inl, true, false, none, some, arith, ◌==◌, if◌then◌else◌, all_below,
  all_below_sound, ==_iff,
}
use balloon.Ram.Access.{load32, store8, store32}
use balloon.Machine.{Kernel, get}
use balloon.Base.Bits.{bit}
use balloon.Paging.Entry.{frame, set_page, present, rw_flag, user, tables, table_index, lookup_page}
use balloon.Paging.Frames.{set_frame, scan_word, scan_words, first_frame}
use balloon.Paging.Frames.Bitmap.{frame_bit}
use balloon.Paging.Frames.Search.{first_frame_free, first_frame_full}
use balloon.Paging.Tables.{fill_page, alloc_frame, free_frame, get_page}
use balloon.Paging.Tables.Map.{alloc_frame_lem}
use balloon.Paging.Tables.Distinct.{alloc_frame_distinct}
use balloon.Paging.Tables.Free.{free_frame_leaks}
use balloon.Paging.Tables.Make.{get_page_make}
use balloon.Paging.Init.{kheap_start, reserve_pages}
use balloon.Paging.Init.Reserve.{reserve_pages_lem}
use balloon.Tests.States.{
  zeros, zeros-IsBytes, empty_heap, early_kernel, mapped_kernel, mapped_ram-IsBytes,
}

-- The frame 0 is taken, and the frame 1 is free.
abbrev one_taken : Kernel
one_taken = record empty_heap { ram = store32 zeros 0x10_0000 1 }

first_frame_free_example : first_frame one_taken ≡ some 1
unfolding frame_bit load32 store32 store8 bit
first_frame_free_example =
    first_frame_free one_taken 1 (omega arith) refl
      (λ j lt. let first : j ≡ 0 = omega arith in rw first refl)

-- All 64 frames are taken.
abbrev all_taken : Kernel
all_taken = record empty_heap {
  ram = store32 (store32 zeros 0x10_0000 0xffff_ffff) 0x10_0004 0xffff_ffff;
}

all_taken_bits : (j : ℕ) → j < 64 → frame_bit all_taken j ≡ 1
unfolding frame_bit load32 store32 store8 bit all_below
all_taken_bits j lt =
    (==_iff _ _).0 (all_below_sound 64 (λ j. frame_bit all_taken j == 1) j refl lt)

first_frame_full_example : first_frame all_taken ≡ none
first_frame_full_example = first_frame_full all_taken all_taken_bits

alloc_frame_lem_example :
    (k' : Kernel) × (alloc_frame empty_heap 0x3000 false true ≡ some k')
    × (frame_bit empty_heap 0 ≡ 0)
    × (frame k' 0x3000 ≡ 0)
    × (present k' 0x3000 ≡ 1)
    × (rw_flag k' 0x3000 ≡ 1)
    × (user k' 0x3000 ≡ 1)
    × (frame_bit k' 7 ≡ (if 7 == 0 then 1 else frame_bit empty_heap 7))
unfolding first_frame scan_words scan_word load32
alloc_frame_lem_example =
    alloc_frame_lem empty_heap 0x3000 0 7 false true zeros-IsBytes (omega arith) (inl (omega arith))
      refl refl (omega arith)

free_frame_leaks_example :
    frame_bit (free_frame mapped_kernel 0x3000) (frame mapped_kernel 0x3000)
    ≡ frame_bit mapped_kernel (frame mapped_kernel 0x3000)
unfolding load32 store32 store8
free_frame_leaks_example =
    free_frame_leaks mapped_kernel 0x3000 mapped_ram-IsBytes (inl (omega arith)) (omega arith)
      (omega arith)

get_page_make_example :
    (page : ℕ) × (k' : Kernel) × (get_page 0 early_kernel 0x0040_5000 true 0x10_2000
      ≡ some (page, k'))
    × (0 < page)
    × (get k' page ≡ 0)
    × (lookup_page k' 0x0040_5000 0x10_2000 ≡ page)
    × (get k' (tables 0x10_2000 (table_index 0))
        ≡ get early_kernel (tables 0x10_2000 (table_index 0)))
unfolding load32
get_page_make_example =
    get_page_make 0 early_kernel 0x0040_5000 0 0x10_2000 (omega arith) (omega arith)
      (record {
        early = refl;
        positive = omega arith;
        behind = omega arith;
        past_first_page = omega arith;
        in_range = omega arith;
      })
      refl (λ e. omega (arith, e))

-- The states after the entry at 0x3000 and then that at 0x3004 was mapped.
abbrev first_mapped : Kernel
first_mapped = fill_page (set_frame empty_heap 0) 0x3000 0 false true

abbrev second_mapped : Kernel
second_mapped = fill_page (set_frame first_mapped 0x1000) 0x3004 1 false true

alloc_frame_distinct_example : frame second_mapped 0x3004 ≢ frame first_mapped 0x3000
unfolding alloc_frame fill_page set_page set_frame first_frame scan_words scan_word load32 store32
    store8
alloc_frame_distinct_example =
    alloc_frame_distinct empty_heap first_mapped second_mapped 0x3000 0x3004 0 1 false true
      zeros-IsBytes (omega arith) (inl (omega arith)) (inl (omega arith)) refl refl refl refl refl
      refl

reserve_pages_lem_example :
    (k' : Kernel) × (reserve_pages 0 early_kernel 0x10_2000 kheap_start 256 ≡ some k')
    × (0 < lookup_page k' 0xc000_1000 0x10_2000)
    × (get_page 0 k' 0xc000_1000 true 0x10_2000 ≡ some (lookup_page k' 0xc000_1000 0x10_2000, k'))
unfolding load32
reserve_pages_lem_example =
    reserve_pages_lem 0 early_kernel 0x10_2000 255 0xc000_1000
      (record {
        early = refl;
        positive = omega arith;
        behind = omega arith;
        past_first_page = omega arith;
        in_range = omega arith;
      })
      refl (omega arith) (omega arith) (omega arith)
