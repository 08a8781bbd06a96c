-- ===== src/Task/Clone/Overrun.antt =====
-- What clone_table clears.
use balloon.Base.{ℕ, zero, suc, ◌+◌, ◌*◌, ◌≤◌, ◌<◌, ◌≡◌, ◌⊎◌, refl, ◌∙◌, ap, Option, some, arith}
use balloon.Ram.Access.{Ram}
use balloon.Libc.Memory.{memset}
use balloon.Libc.Memory.Copy.{memset_lem, load32-memset_apart}
use balloon.Machine.{Kernel}
use balloon.Heap.Place.{kmalloc_aligned_physical}
use balloon.Paging.Entry.{field, frame, directory_size}
use balloon.Task.Clone.{clone_pages, clone_table}

-- A table with no frame is copied by the memset alone.
clone_pages_none :
    (left : ℕ) (copy : Ram → (from to : ℕ) → Ram) (k : Kernel) (src table i : ℕ)
    → ((j : ℕ) → j < i + left → frame k (src + 4 * j) ≡ 0)
    → clone_pages copy k src table i left ≡ some k
unfolding clone_pages
clone_pages_none zero copy k src table i h = refl
clone_pages_none (suc left) copy k src table i h =
    rw (h i (omega arith))
      (clone_pages_none left copy k src table (i + 1) (λ j lt. h j (omega arith)))

-- clone_table asks for the 0x1000 bytes of a table and clears the 0x2004 of a directory: of a table
-- without frames, which lies apart from them, it leaves zeros in all of these, and nothing else
-- changes.
pub clone_table_overrun :
    (fuel : ℕ) (copy : Ram → (from to : ℕ) → Ram) (k k₁ : Kernel) (src table : ℕ) (phys : Option ℕ)
    → kmalloc_aligned_physical fuel k 0x1000 ≡ some (table, phys, k₁)
    → ((j : ℕ) → j < 1024 → frame k₁ (src + 4 * j) ≡ 0)
    → (src + 0x1000 ≤ table) ⊎ (table + directory_size ≤ src)
    → (k' : Kernel) × (clone_table fuel copy k src ≡ some (table, phys, k'))
      × ((x : ℕ) → table ≤ x → x < table + 0x2004 → k'.ram x ≡ 0)
      × ((x : ℕ) → (x < table) ⊎ (table + 0x2004 ≤ x) → k'.ram x ≡ k₁.ram x)
unfolding clone_table
clone_table_overrun fuel copy k k₁ src table phys given none_there apart =
    let k₂ : Kernel = record k₁ { ram = memset k₁.ram table 0 directory_size } in
    let same = λ (j : ℕ) (lt : j < 1024).
      ap (λ w. field w 12 20)
        (load32-memset_apart k₁.ram table 0 directory_size (src + 4 * j) (ground arith))
      ∙ none_there j lt in
    (
      k₂,
      rw (given, clone_pages_none 1024 copy k₂ src table 0 same) refl,
      λ x lo hi. ground (arith, memset_lem k₁.ram table 0 directory_size x),
      λ x h. ground (arith, memset_lem k₁.ram table 0 directory_size x),
    )
