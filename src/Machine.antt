-- ===== src/Machine.antt =====
-- The kernel's memory and the global variables of heap.c and paging.c.
use balloon.Base.{ℕ}
use balloon.Ram.Access.{Ram, load32, store32}

-- klmalloc_skip_rand's static words.
pub record Rng : Type 0 where
  pub x : ℕ
  pub y : ℕ
  pub z : ℕ
  pub w : ℕ

-- `bin_head` is the array klmalloc_bin_head (a pointer for each small bin). `big_head` is the
-- address at which the linker puts klmalloc_big_bins.head, and `level` is
-- klmalloc_big_bins.level, which is never negative.
pub record Kernel : Type 0 where
  pub ram : Ram
  pub placement_pointer : ℕ
  pub heap_end : ℕ
  pub bin_head : ℕ → ℕ
  pub big_head : ℕ
  pub level : ℕ
  pub newest_big : ℕ
  pub rng : Rng
  pub frames : ℕ
  pub nframes : ℕ
  pub kernel_directory : ℕ
  pub current_directory : ℕ

abbrev pub get : Kernel → ℕ → ℕ
get k a = load32 k.ram a

abbrev pub put : Kernel → ℕ → ℕ → Kernel
put k a v = record k { ram = store32 k.ram a v }
