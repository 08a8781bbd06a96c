-- ===== src/Heap/Header.antt =====
-- The bin headers in memory, and the linked list of bins with a free cell.
use balloon.Base.{ℕ, ◌+◌, ◌*◌, ◌==◌, if◌then◌else◌, add32}
use balloon.Machine.{Kernel, get, put}
use balloon.Libc.Memory.{memset}

abbrev pub page_size : ℕ
page_size = 0x1000

abbrev pub bin_magic : ℕ
bin_magic = 0xdefad00d

-- sizeof(klmalloc_bin_header) and sizeof(klmalloc_big_bin_header)
abbrev pub header_size : ℕ
header_size = 16

abbrev pub big_header_size : ℕ
big_header_size = 48

-- The addresses of a header's fields. The first four are those of both kinds of header.
abbrev pub next_of : ℕ → ℕ
next_of header = header

abbrev pub head_of : ℕ → ℕ
head_of header = header + 4

abbrev pub size_of : ℕ → ℕ
size_of header = header + 8

abbrev pub magic_of : ℕ → ℕ
magic_of header = header + 12

abbrev pub prev_of : ℕ → ℕ
prev_of header = header + 16

abbrev pub forward_of : ℕ → ℕ → ℕ
forward_of header i = header + 20 + 4 * i

-- klmalloc_bin_head[bucket].first = v
abbrev pub set_bin_head : Kernel → ℕ → ℕ → Kernel
set_bin_head k bucket v = record k { bin_head = λ b. if b == bucket then v else k.bin_head b }

unfoldable pub list_decouple : Kernel → ℕ → ℕ → Kernel
list_decouple k bucket node =
    let next = get k (next_of node) in put (set_bin_head k bucket next) (next_of node) 0

unfoldable pub list_insert : Kernel → ℕ → ℕ → Kernel
list_insert k bucket node = set_bin_head (put k (next_of node) (k.bin_head bucket)) bucket node

unfoldable pub list_head : Kernel → ℕ → ℕ
list_head k bucket = k.bin_head bucket

-- sbrk of paging.c: the old end of the heap, with the new bytes cleared.
unfoldable pub sbrk : Kernel → ℕ → ℕ × Kernel
sbrk k increment =
    let address = k.heap_end in
    (
      address,
      record k { heap_end = add32 k.heap_end increment; ram = memset k.ram address 0 increment },
    )
