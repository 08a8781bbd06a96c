-- ===== src/Heap/Slab/Link.antt =====
-- The loop that links the cells of a new bin.
use native.Mathlib.Nat.{one-le-pow}
use balloon.Base.{
  ℕ, zero, suc, ◌+◌, ◌*◌, ◌^◌, ◌≤◌, ◌<◌, ◌≡◌, refl, inl, List, [], ◌∷◌, arith, true, ◌∙◌, leb,
  all_below, all_below_sound,
}
use balloon.Ram.Frame.{IsBytes, load32-store32_self, load32-store32_apart, store32-IsBytes}
use balloon.Machine.{Kernel, get, put}
use balloon.Heap.Header.{header_size}
use balloon.Heap.Bins.{big_bin}
use balloon.Heap.Alloc.{cell, available, link_cells}
use balloon.Heap.Slab.{Apart, Cells, FreeList}

-- The `n` cells of a bin from the i-th on, in the order of their addresses.
unfoldable pub cells_from : (base bucket i n : ℕ) → List ℕ
cells_from base bucket i zero = []
cells_from base bucket i (suc n) = cell base bucket i ∷ cells_from base bucket (i + 1) n

-- the loop of link_cells with the last store behind it
unfoldable pub build : Kernel → (base bucket i n : ℕ) → Kernel
build k base bucket i zero = put k (cell base bucket i) 0
build k base bucket i (suc n) =
    build (put k (cell base bucket i) (cell base bucket (i + 1))) base bucket (i + 1) n

module _ (base bucket : ℕ) where
  pub build_lem :
      (n i j : ℕ) (k : Kernel)
      → i + n ≡ j
      → put (link_cells k base bucket i n) (cell base bucket j) 0 ≡ build k base bucket i n
  unfolding build link_cells
  build_lem zero i j k e = let e' : j ≡ i = omega arith in rw e'
  build_lem (suc n) i j k e =
      build_lem n (i + 1) j (put k (cell base bucket i) (cell base bucket (i + 1))) (omega arith)

  -- The loop stores from its first cell on.
  pub build_below :
      (n i a : ℕ) (k : Kernel)
      → (i + n) * 2 ^ bucket + 2 ^ bucket ≤ 1020
      → a + 4 ≤ cell base bucket i
      → get (build k base bucket i n) a ≡ get k a
  unfolding build
  build_below zero i a k room below =
      load32-store32_apart k.ram (cell base bucket i) 0 a (inl below)
  build_below (suc n) i a k room below =
      build_below n (i + 1) a (put k (cell base bucket i) (cell base bucket (i + 1))) (omega arith)
        (omega (arith, one-le-pow bucket 2))
      ∙ load32-store32_apart k.ram (cell base bucket i) (cell base bucket (i + 1)) a (inl below)

  pub build-IsBytes : (n i : ℕ) (k : Kernel) → IsBytes k.ram → IsBytes (build k base bucket i n).ram
  unfolding build
  build-IsBytes zero i k b = store32-IsBytes k.ram (cell base bucket i) 0 b
  build-IsBytes (suc n) i k b =
      build-IsBytes n (i + 1) (put k (cell base bucket i) (cell base bucket (i + 1)))
        (store32-IsBytes k.ram (cell base bucket i) (cell base bucket (i + 1)) b)

  pub build-FreeList :
      (n i : ℕ) (k : Kernel)
      → (i + n) * 2 ^ bucket + 2 ^ bucket ≤ 1020
      → base + 0xff0 ≤ 0x1_0000_0000
      → FreeList
          (build k base bucket i n).ram
          (cell base bucket i)
          (cells_from base bucket i (suc n))
  unfolding build cells_from
  build-FreeList zero i k room range =
      (refl, load32-store32_self k.ram (cell base bucket i) 0 (omega arith))
  build-FreeList (suc n) i k room range = (
    refl,
    rw
        (
          build_below n (i + 1) (cell base bucket i)
              (put k (cell base bucket i) (cell base bucket (i + 1))) (omega arith)
              (omega (arith, one-le-pow bucket 2)),
          load32-store32_self k.ram (cell base bucket i) (cell base bucket (i + 1))
              (omega (arith, one-le-pow bucket 2)),
        )
        (build-FreeList n (i + 1) (put k (cell base bucket i) (cell base bucket (i + 1)))
          (omega arith) range),
  )

  below-Apart :
      (n i a : ℕ)
      → (i + n) * 2 ^ bucket + 2 ^ bucket ≤ 1020
      → a + 4 ≤ cell base bucket i
      → Apart a (cells_from base bucket i (suc n))
  unfolding cells_from
  below-Apart zero i a room below = (inl below, tt)
  below-Apart (suc n) i a room below =
      (inl below, below-Apart n (i + 1) a (omega arith) (omega (arith, one-le-pow bucket 2)))

  pub cells_from-Cells :
      (n i header : ℕ)
      → (i + n) * 2 ^ bucket + 2 ^ bucket ≤ 1020
      → base ≡ header + header_size
      → Cells header (cells_from base bucket i (suc n))
  unfolding cells_from
  cells_from-Cells zero i header room e =
      ((omega arith, omega (arith, one-le-pow bucket 2)), tt, tt)
  cells_from-Cells (suc n) i header room e = (
    (omega arith, omega (arith, one-le-pow bucket 2)),
    below-Apart n (i + 1) (cell base bucket i) (omega arith) (omega (arith, one-le-pow bucket 2)),
    cells_from-Cells n (i + 1) header (omega arith) e,
  )

room_table : all_below 10 (λ b. leb (available b * 2 ^ b + 2 ^ b) 1020) ≡ true
unfolding all_below
room_table = refl

pub available_room :
    (bucket : ℕ) → bucket < big_bin → available bucket * 2 ^ bucket + 2 ^ bucket ≤ 1020
available_room bucket h =
    ground
      (arith, all_below_sound 10 (λ b. leb (available b * 2 ^ b + 2 ^ b) 1020) bucket room_table h)

-- Only the memory changes in the loop.
pub build_globals :
    (base bucket n i : ℕ) (k : Kernel)
    → ((build k base bucket i n).heap_end ≡ k.heap_end)
      × ((b : ℕ) → (build k base bucket i n).bin_head b ≡ k.bin_head b)
unfolding build
build_globals base bucket zero i k = (refl, λ b. refl)
build_globals base bucket (suc n) i k =
    build_globals base bucket n (i + 1) (put k (cell base bucket i) (cell base bucket (i + 1)))
