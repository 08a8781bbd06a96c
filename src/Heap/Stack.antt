-- ===== src/Heap/Stack.antt =====
-- The stack of free cells of a bin: klmalloc_stack_pop, klmalloc_stack_push and
-- klmalloc_stack_empty. The first word of a free cell is the address of the next free cell.
use balloon.Base.{ℕ, Bool, ◌==◌}
use balloon.Machine.{Kernel, get, put}
use balloon.Heap.Header.{head_of}

unfoldable pub stack_pop : Kernel → ℕ → ℕ × Kernel
stack_pop k header =
    let item = get k (head_of header) in
    let next = get k item in (item, put k (head_of header) next)

unfoldable pub stack_push : Kernel → ℕ → ℕ → Kernel
stack_push k header ptr = put (put k ptr (get k (head_of header))) (head_of header) ptr

unfoldable pub stack_empty : Kernel → ℕ → Bool
stack_empty k header = get k (head_of header) == 0
