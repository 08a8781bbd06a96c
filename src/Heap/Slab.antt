-- ===== src/Heap/Slab.antt =====
-- What a small bin is: a page with a header and a stack of free cells in it. Its child modules
-- prove what the operations of Heap/Stack.antt and Heap/Alloc.antt make of such a bin.
pub mod Free
pub mod Fresh
pub mod Link
pub mod Ops
pub mod Spaced
use balloon.Base.{ℕ, ◌+◌, ◌%◌, ◌≤◌, ◌<◌, ◌≡◌, ◌≢◌, ◌⊎◌, List, [], ◌∷◌}
use balloon.Ram.Access.{Ram, load32}
use balloon.Ram.Frame.{IsBytes}
use balloon.Machine.{Kernel, get}
use balloon.Heap.Header.{page_size, bin_magic, header_size, head_of, size_of, magic_of}
use balloon.Heap.Bins.{big_bin}

-- The first words at `c` and at each of `cs` do not overlap.
abbrev pub Apart : ℕ → List ℕ → Type 0
Apart c [] = Unit {0}
Apart c (d ∷ cs) = ((c + 4 ≤ d) ⊎ (d + 4 ≤ c)) × Apart c cs

-- The first word of a cell at `c` lies behind the header and in the page.
abbrev pub InPage : ℕ → ℕ → Type 0
InPage header c = (header + header_size ≤ c) × (c + 4 ≤ header + page_size)

abbrev pub Cells : ℕ → List ℕ → Type 0
Cells header [] = Unit {0}
Cells header (c ∷ cs) = InPage header c × Apart c cs × Cells header cs

-- From `p` the first words lead through `cs` to NULL.
abbrev pub FreeList : Ram → ℕ → List ℕ → Type 0
FreeList m p [] = p ≡ 0
FreeList m p (c ∷ cs) = (p ≡ c) × FreeList m (load32 m c) cs

-- The page at `header` is a bin of index `bucket` whose free cells are `cs`, the top first.
pub record IsSlab (k : Kernel) (header bucket : ℕ) (cs : List ℕ) : Type 0 where
  pub bytes : IsBytes k.ram
  pub aligned : header % page_size ≡ 0
  pub positive : 0 < header
  pub in_range : header + page_size ≤ 0x1_0000_0000
  pub small : bucket < big_bin
  pub size : get k (size_of header) ≡ bucket
  pub magic : get k (magic_of header) ≡ bin_magic
  pub cells : Cells header cs
  pub free : FreeList k.ram (get k (head_of header)) cs

-- A bin with a free cell is the first of its list.
abbrev pub IsListed : Kernel → (header bucket : ℕ) → List ℕ → Type 0
IsListed k header bucket cs = (cs ≡ []) ⊎ (k.bin_head bucket ≡ header)
