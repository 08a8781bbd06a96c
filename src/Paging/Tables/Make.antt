-- ===== src/Paging/Tables/Make.antt =====
-- get_page where the table is missing.
use balloon.Base.{
  ℕ, ◌+◌, ◌*◌, ◌%◌, ◌≤◌, ◌<◌, ◌≡◌, ◌≢◌, refl, ◌⊎◌, inl, inr, some, arith, ◌==◌, ◌∙◌, ap, true,
  false, bit_or,
}
use balloon.Ram.Frame.{load32-store32_self, load32-store32_apart}
use balloon.Libc.Memory.{memset}
use balloon.Libc.Memory.Copy.{load32-memset_apart, load32-memset_zero}
use balloon.Machine.{Kernel, get, put}
use balloon.Heap.Header.{page_size}
use balloon.Heap.Place.{aligned_pointer, place, kmalloc_raw, kmalloc_aligned_physical}
use balloon.Heap.Place.Bump.{aligned_pointer_lem}
use balloon.Paging.Entry.{
  tables, tables_physical, table_index, page_in, lookup_page, directory_size,
}
use balloon.Paging.Tables.{make_table, get_page}

-- The state in which the kernel sets up paging: no heap yet, and the directory in memory that
-- the placement allocator has handed out.
pub record IsEarly (k : Kernel) (dir : ℕ) : Type 0 where
  pub early : k.heap_end ≡ 0
  pub positive : 0 < dir
  pub behind : dir + directory_size ≤ k.placement_pointer
  pub past_first_page : page_size ≤ k.placement_pointer
  pub in_range : k.placement_pointer + 2 * page_size < 0x1_0000_0000

module _ (fuel : ℕ) (k : Kernel) (address dir : ℕ) (lt : address < 0x1_0000_0000)
    (s : IsEarly k dir) where
  abbrev table : ℕ
  table = aligned_pointer k.placement_pointer

  table_lem :
      (table % page_size ≡ 0)
      × (k.placement_pointer < table)
      × (table ≤ k.placement_pointer + page_size)
  table_lem = aligned_pointer_lem k.placement_pointer s.past_first_page (omega (arith, s.in_range))

  abbrev placed : Kernel
  placed = record k { placement_pointer = table + page_size }

  abbrev entered : Kernel
  entered = put placed (tables dir (table_index address)) table

  abbrev cleared : Kernel
  cleared = record entered { ram = memset entered.ram table 0 page_size }

  made : Kernel
  made = put cleared (tables_physical dir (table_index address)) (bit_or table 7)

  -- `made` with the table's address as the source reads it back
  made_at : ℕ → Kernel
  made_at t =
      put (record entered { ram = memset entered.ram t 0 page_size })
        (tables_physical dir (table_index address)) (bit_or table 7)

  kmalloc_table : kmalloc_aligned_physical fuel k page_size ≡ some (table, some table, placed)
  unfolding kmalloc_aligned_physical kmalloc_raw place
  kmalloc_table =
      let early : (k.heap_end == 0) ≡ true = ground (arith, s.early) in
      let fits : (table + page_size) % 0x1_0000_0000 ≡ table + page_size =
        omega (arith, table_lem, s.in_range) in
      rw (early, fits) refl

  entered-table : get entered (tables dir (table_index address)) ≡ table
  entered-table =
      load32-store32_self k.ram (tables dir (table_index address)) table
        (omega (arith, table_lem, s.in_range))

  made-table : get made (tables dir (table_index address)) ≡ table
  unfolding made
  made-table =
      load32-store32_apart cleared.ram (tables_physical dir (table_index address)) (bit_or table 7)
        (tables dir (table_index address)) (inl (omega arith))
      ∙ load32-memset_apart entered.ram table 0 page_size (tables dir (table_index address))
          (inl (omega (arith, table_lem, s.behind)))
      ∙ entered-table

  make_table_lem : make_table fuel k address dir ≡ some (page_in table address, made)
  unfolding make_table made made_at
  make_table_lem = rw kmalloc_table (
      (λ i. some (
        page_in (get (made_at (entered-table i)) (tables dir (table_index address))) address,
        made_at (entered-table i),
      ))
      ∙ ap (λ t. some (page_in t address, made)) made-table)

  -- Words of the directory other than the two entries stay.
  made_apart :
      (a : ℕ)
      → a + 4 ≤ dir + directory_size
      → (a + 4 ≤ tables dir (table_index address)) ⊎ (tables dir (table_index address) + 4 ≤ a)
      → (a + 4 ≤ tables_physical dir (table_index address))
        ⊎ (tables_physical dir (table_index address) + 4 ≤ a)
      → get made a ≡ get k a
  unfolding made
  made_apart a inside away away' =
      load32-store32_apart cleared.ram (tables_physical dir (table_index address)) (bit_or table 7)
        a away'
      ∙ load32-memset_apart entered.ram table 0 page_size a
          (inl (omega (arith, table_lem, s.behind)))
      ∙ load32-store32_apart k.ram (tables dir (table_index address)) table a away

  made_entry : get made (page_in table address) ≡ 0
  unfolding made
  made_entry =
      load32-store32_apart cleared.ram (tables_physical dir (table_index address)) (bit_or table 7)
        (page_in table address) (inr (omega (arith, table_lem, s.behind)))
      ∙ load32-memset_zero entered.ram table page_size (page_in table address) (omega arith)
          (omega arith)

  made_lookup : lookup_page made address dir ≡ page_in table address
  unfolding lookup_page
  made_lookup =
      let filled : (table == 0) ≡ false = ground (arith, table_lem) in rw (made-table, filled) refl

-- While the kernel sets up paging, get_page with `make` for an address whose table is missing
-- returns an entry that is empty, that a later search for the address finds, and that is not
-- NULL; the search for an address of another table finds what it found before.
pub get_page_make :
    (fuel : ℕ) (k : Kernel) (address other dir : ℕ)
    → address < 0x1_0000_0000
    → other < 0x1_0000_0000
    → IsEarly k dir
    → get k (tables dir (table_index address)) ≡ 0
    → table_index other ≢ table_index address
    → (page : ℕ) × (k' : Kernel) × (get_page fuel k address true dir ≡ some (page, k'))
      × (0 < page)
      × (get k' page ≡ 0)
      × (lookup_page k' address dir ≡ page)
      × (get k' (tables dir (table_index other)) ≡ get k (tables dir (table_index other)))
unfolding get_page
get_page_make fuel k address other dir lt lt' s missing ne = (
  page_in (aligned_pointer k.placement_pointer) address,
  made fuel k address dir lt s,
  rw missing (make_table_lem fuel k address dir lt s),
  omega (arith, table_lem fuel k address dir lt s),
  made_entry fuel k address dir lt s,
  made_lookup fuel k address dir lt s,
  made_apart fuel k address dir lt s (tables dir (table_index other)) (omega arith) (omega arith)
      (omega arith),
)
