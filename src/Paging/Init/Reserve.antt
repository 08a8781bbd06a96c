-- ===== src/Paging/Init/Reserve.antt =====
-- The loop of init_paging that makes the tables of the kernel's heap.
use balloon.Base.{
  ℕ, zero, suc, ◌+◌, ◌*◌, ◌≤◌, ◌<◌, ◌≡◌, ◌≢◌, refl, ◌∙◌, true, false, some, ◌==◌, arith,
}
use balloon.Machine.{Kernel, get}
use balloon.Paging.Entry.{tables, table_index, lookup_page}
use balloon.Paging.Tables.{get_page}
use balloon.Paging.Tables.Make.{IsEarly, get_page_make}
use balloon.Paging.Init.{kheap_start, reserve_pages}

-- The table of the address is there.
abbrev pub HasTable : Kernel → (dir address : ℕ) → Type 0
HasTable k dir address = get k (tables dir (table_index address)) ≢ 0

reserve_found :
    (fuel : ℕ) (k : Kernel) (dir i n : ℕ)
    → HasTable k dir kheap_start
    → kheap_start ≤ i
    → i + 0x1000 * n ≤ kheap_start + 0x40_0000
    → reserve_pages fuel k dir i n ≡ some k
unfolding reserve_pages get_page
reserve_found fuel k dir i zero found lo hi = refl
reserve_found fuel k dir i (suc n) found lo hi =
    let index : table_index i ≡ table_index kheap_start = omega arith in
    let there : (get k (tables dir (table_index i)) == 0) ≡ false = rw index (ground arith) in
    rw there (reserve_found fuel k dir (i + 0x1000) n found (omega arith) (omega arith))

reserve_step :
    (fuel : ℕ) (k k' : Kernel) (page dir i n : ℕ)
    → get_page fuel k i true dir ≡ some (page, k')
    → reserve_pages fuel k dir i (suc n) ≡ reserve_pages fuel k' dir (i + 0x1000) n
unfolding reserve_pages
reserve_step fuel k k' page dir i n made = rw made refl

lookup_page-HasTable :
    (k : Kernel) (dir address page : ℕ)
    → 0 < page
    → lookup_page k address dir ≡ page
    → HasTable k dir address
unfolding lookup_page
lookup_page-HasTable k dir address page pos found none = ground arith

get_page_found :
    (fuel : ℕ) (k : Kernel) (dir address : ℕ)
    → HasTable k dir kheap_start
    → kheap_start ≤ address
    → address < kheap_start + 0x40_0000
    → (0 < lookup_page k address dir)
      × (get_page fuel k address true dir ≡ some (lookup_page k address dir, k))
unfolding get_page lookup_page
get_page_found fuel k dir address found lo hi =
    let index : table_index address ≡ table_index kheap_start = omega arith in
    let there : (get k (tables dir (table_index address)) == 0) ≡ false = rw index (ground arith) in
    (rw there (ground arith), rw there refl)

-- Of the calls of get_page for at most 1024 pages from the start of the kernel's heap the first one
-- makes a table, and the others find it: then each address among these pages has an entry, which
-- get_page returns and leaves the state as it is.
pub reserve_pages_lem :
    (fuel : ℕ) (k : Kernel) (dir n address : ℕ)
    → IsEarly k dir
    → get k (tables dir (table_index kheap_start)) ≡ 0
    → n < 1024
    → kheap_start ≤ address
    → address < kheap_start + 0x40_0000
    → (k' : Kernel) × (reserve_pages fuel k dir kheap_start (suc n) ≡ some k')
      × (0 < lookup_page k' address dir)
      × (get_page fuel k' address true dir ≡ some (lookup_page k' address dir, k'))
reserve_pages_lem fuel k dir n address s missing small lo hi =
    let (page, k', made, positive, cleared, found, apart) =
      get_page_make fuel k kheap_start 0 dir (omega arith) (omega arith) s missing
        (λ e. omega (arith, e)) in
    let there = lookup_page-HasTable k' dir kheap_start page positive found in
    let (nonzero, again) = get_page_found fuel k' dir address there lo hi in
    (
      k',
      reserve_step fuel k k' page dir kheap_start n made
          ∙ reserve_found fuel k' dir (kheap_start + 0x1000) n there (omega arith) (omega arith),
      nonzero,
      again,
    )
