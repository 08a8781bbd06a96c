-- ===== src/Heap/Slab/Spaced.antt =====
-- Where the cells of a new bin lie, and how many there are.
use balloon.Base.{
  zero, List, [], ◌*◌, ◌^◌, Bool, leb, ◌&&◌, all_below, all_below_sound, ℕ, suc, ◌+◌, ◌≤◌, ◌<◌, ◌≡◌,
  refl, ◌∷◌, arith, true, ltb,
}
use balloon.Heap.Header.{page_size, header_size}
use balloon.Heap.Bins.{big_bin}
use balloon.Heap.Alloc.{cell, available}
use balloon.Heap.Slab.Link.{cells_from}

-- `n` addresses from `a` on, each `step` behind the one before.
unfoldable pub spaced : (a step n : ℕ) → List ℕ
spaced a step zero = []
spaced a step (suc n) = a ∷ spaced (a + step) step n

pub cells_from-spaced :
    (base bucket n i a : ℕ)
    → (i + n) * 2 ^ bucket ≤ 1020
    → a ≡ base + 4 * (i * 2 ^ bucket)
    → cells_from base bucket i n ≡ spaced a (4 * 2 ^ bucket) n
unfolding cells_from spaced
cells_from-spaced base bucket zero i a room here = refl
cells_from-spaced base bucket (suc n) i a room here =
    let small : i * 2 ^ bucket ≤ 1020 = grind arith in
    let first : cell base bucket i ≡ a = omega (arith, small, here) in
    let rest =
      cells_from-spaced base bucket n (i + 1) (a + 4 * 2 ^ bucket) (grind (arith, room))
        (grind (arith, here)) in
    rw (first, rest) refl

abbrev fills : ℕ → Bool
fills b =
    leb (header_size + (available b + 1) * (4 * 2 ^ b)) page_size
    && ltb page_size (header_size + (available b + 2) * (4 * 2 ^ b))

fills_table : all_below 10 fills ≡ true
unfolding all_below
fills_table = refl

pub fills_lem :
    (b : ℕ)
    → b < big_bin
    → (header_size + (available b + 1) * (4 * 2 ^ b) ≤ page_size)
      × (page_size < header_size + (available b + 2) * (4 * 2 ^ b))
fills_lem b small = ground (arith, all_below_sound 10 fills b fills_table small)
