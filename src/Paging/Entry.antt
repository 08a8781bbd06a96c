-- ===== src/Paging/Entry.antt =====
-- The layout of page_t and page_directory_t (source/include/memory.h), and the search for an entry
-- that get_page begins with.
use balloon.Base.{ℕ, ◌+◌, ◌-◌, ◌*◌, ◌/◌, ◌%◌, ◌^◌, ◌==◌, if◌then◌else◌}
use balloon.Machine.{Kernel, get, put}

-- A bit-field of `width` bits from bit `lo` on.
abbrev pub field : (w lo width : ℕ) → ℕ
field w lo width = w / 2 ^ lo % 2 ^ width

abbrev pub set_field : (w lo width v : ℕ) → ℕ
set_field w lo width v = w - field w lo width * 2 ^ lo + v % 2 ^ width * 2 ^ lo

-- page->present, rw, user and frame, for the entry at the address `page`
abbrev pub present : Kernel → ℕ → ℕ
present k page = field (get k page) 0 1

abbrev pub rw_flag : Kernel → ℕ → ℕ
rw_flag k page = field (get k page) 1 1

abbrev pub user : Kernel → ℕ → ℕ
user k page = field (get k page) 2 1

abbrev pub frame : Kernel → ℕ → ℕ
frame k page = field (get k page) 12 20

unfoldable pub set_page : Kernel → (page lo width v : ℕ) → Kernel
set_page k page lo width v = put k page (set_field (get k page) lo width v)

-- &dir->tables[i], &dir->tablesPhysical[i], &dir->physicalAddr
abbrev pub tables : (dir i : ℕ) → ℕ
tables dir i = dir + 4 * i

abbrev pub tables_physical : (dir i : ℕ) → ℕ
tables_physical dir i = dir + 0x1000 + 4 * i

abbrev pub physical_addr : ℕ → ℕ
physical_addr dir = dir + 0x2000

abbrev pub directory_size : ℕ
directory_size = 0x2004

abbrev pub table_index : ℕ → ℕ
table_index address = address / 0x1000 / 1024

-- &table->pages[...] for the address
abbrev pub page_in : (table address : ℕ) → ℕ
page_in table address = table + 4 * (address / 0x1000 % 1024)

-- get_page with `make` 0: the address of the entry, or NULL where the directory has no table.
unfoldable pub lookup_page : Kernel → (address dir : ℕ) → ℕ
lookup_page k address dir =
    let table = get k (tables dir (table_index address)) in
    if table == 0 then 0 else page_in table address
