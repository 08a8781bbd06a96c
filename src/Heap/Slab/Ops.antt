-- ===== src/Heap/Slab/Ops.antt =====
-- The operations on the stack of a bin, as operations on its list of free cells.
use balloon.Base.{
  ℕ, ◌+◌, ◌≤◌, ◌<◌, ◌≡◌, refl, ◌⊎◌, inl, inr, true, false, List, [], ◌∷◌, arith, ◌∙◌,
}
use balloon.Ram.Access.{Ram, load32, store32}
use balloon.Ram.Frame.{load32-store32_self, load32-store32_apart, store32-IsBytes, load32-lt}
use balloon.Machine.{Kernel, get, put}
use balloon.Heap.Header.{header_size, head_of}
use balloon.Heap.Stack.{stack_pop, stack_push, stack_empty}
use balloon.Heap.Slab.{Apart, InPage, Cells, FreeList, IsSlab}

-- A store away from the cells leaves the list of free cells.
pub FreeList-store32 :
    (m : Ram) (a v p : ℕ) (cs : List ℕ)
    → Apart a cs
    → FreeList m p cs
    → FreeList (store32 m a v) p cs
FreeList-store32 m a v p [] apart free = free
FreeList-store32 m a v p (c ∷ cs) apart free = (
  free.0,
  rw (load32-store32_apart m a v c (ground arith))
      (FreeList-store32 m a v (load32 m c) cs apart.1 free.1),
)

-- The header lies apart from the cells of its page.
pub header-Apart :
    (header a : ℕ) (cs : List ℕ) → a + 4 ≤ header + header_size → Cells header cs → Apart a cs
header-Apart header a [] h cells = tt
header-Apart header a (c ∷ cs) h cells = (inl (omega arith), header-Apart header a cs h cells.2)

-- A store that spares the header's head, size and magic and the free cells leaves the bin as it is.
pub put-IsSlab :
    (k : Kernel) (header bucket a v : ℕ) (cs : List ℕ)
    → (a ≤ header) ⊎ (header + header_size ≤ a)
    → Apart a cs
    → IsSlab k header bucket cs
    → IsSlab (put k a v) header bucket cs
put-IsSlab k header bucket a v cs away apart s = record {
  bytes = store32-IsBytes k.ram a v s.bytes;
  aligned = s.aligned;
  positive = s.positive;
  in_range = s.in_range;
  small = s.small;
  size = load32-store32_apart k.ram a v (header + 8) (ground arith) ∙ s.size;
  magic = load32-store32_apart k.ram a v (header + 12) (ground arith) ∙ s.magic;
  cells = s.cells;
  free =
      rw (load32-store32_apart k.ram a v (header + 4) (ground arith))
        (FreeList-store32 k.ram a v (load32 k.ram (header + 4)) cs apart s.free);
}

put_head-IsSlab :
    (k : Kernel) (header bucket v : ℕ) (cs ds : List ℕ)
    → v < 0x1_0000_0000
    → IsSlab k header bucket cs
    → Cells header ds
    → FreeList k.ram v ds
    → IsSlab (put k (head_of header) v) header bucket ds
put_head-IsSlab k header bucket v cs ds lt s cells free = record {
  bytes = store32-IsBytes k.ram (header + 4) v s.bytes;
  aligned = s.aligned;
  positive = s.positive;
  in_range = s.in_range;
  small = s.small;
  size = load32-store32_apart k.ram (header + 4) v (header + 8) (inr (omega arith)) ∙ s.size;
  magic = load32-store32_apart k.ram (header + 4) v (header + 12) (inr (omega arith)) ∙ s.magic;
  cells = cells;
  free = rw (load32-store32_self k.ram (header + 4) v lt) (
      FreeList-store32 k.ram (header + 4) v v ds
        (header-Apart header (header + 4) ds (omega arith) cells) free);
}

-- klmalloc_stack_pop takes the top cell.
pub stack_pop-IsSlab :
    (k : Kernel) (header bucket c : ℕ) (cs : List ℕ)
    → IsSlab k header bucket (c ∷ cs)
    → ((stack_pop k header).0 ≡ c) × IsSlab (stack_pop k header).1 header bucket cs
unfolding stack_pop
stack_pop-IsSlab k header bucket c cs s = (
  s.free.0,
  put_head-IsSlab k header bucket _ (c ∷ cs) cs (load32-lt k.ram _ s.bytes) s s.cells.2
      (rw s.free.0 s.free.1),
)

-- klmalloc_stack_push puts a cell of the page that is not yet free on top.
pub stack_push-IsSlab :
    (k : Kernel) (header bucket c : ℕ) (cs : List ℕ)
    → IsSlab k header bucket cs
    → InPage header c
    → Apart c cs
    → IsSlab (stack_push k header c) header bucket (c ∷ cs)
unfolding stack_push
stack_push-IsSlab k header bucket c cs s inside apart =
    put_head-IsSlab (put k c old) header bucket c cs (c ∷ cs) (omega (arith, s.in_range)) kept
      (inside, apart, s.cells) (refl, rw (load32-store32_self k.ram c old lt) free)
  where
    old : ℕ
    old = get k (head_of header)

    lt : old < 0x1_0000_0000
    lt = load32-lt k.ram (header + 4) s.bytes

    kept : IsSlab (put k c old) header bucket cs
    kept = put-IsSlab k header bucket c old cs (inr inside.0) apart s

    free : FreeList (store32 k.ram c old) old cs
    free = FreeList-store32 k.ram c old old cs apart s.free

pub stack_empty_lem :
    (k : Kernel) (header bucket : ℕ) (cs : List ℕ)
    → IsSlab k header bucket cs
    → stack_empty k header ≡ elim cs [ [] ↦ true | _ ↦ false ]
unfolding stack_empty
stack_empty_lem k header bucket [] s = rw s.free
stack_empty_lem k header bucket (c ∷ cs) s = ground arith
