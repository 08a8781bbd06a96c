-- ===== src/Task/Clone/Shared.antt =====
-- The copy of the kernel's own directory.
use balloon.Base.{
  ℕ, zero, suc, ◌+◌, ◌*◌, ◌≤◌, ◌<◌, ◌≡◌, ◌≢◌, ◌⊎◌, refl, sym, ◌∙◌, inl, inr, some, ltb, arith, ◌==◌,
  if◌then◌else◌, Bool-cases, true, false, add32,
}
use balloon.Ram.Access.{Ram}
use balloon.Ram.Frame.{IsBytes, load32-lt, load32-store32_self, load32-store32_apart}
use balloon.Libc.Memory.{memset}
use balloon.Libc.Memory.Copy.{load32-memset_apart, load32-memset_zero}
use balloon.Machine.{Kernel, get, put}
use balloon.Heap.Place.{kmalloc_aligned_physical}
use balloon.Paging.Entry.{tables, tables_physical, physical_addr, directory_size}
use balloon.Task.Clone.{clone_entry, clone_entries, clone_directory}

-- Two directories that do not overlap.
abbrev Beside : (a b : ℕ) → Type 0
Beside a b = (a + directory_size ≤ b) ⊎ (b + directory_size ≤ a)

module _ (k₁ : Kernel) (src dir phys : ℕ) (apart : Beside dir src) (bytes : IsBytes k₁.ram) where
  -- The first `i` tables of the source stand in the copy, and the others are missing.
  abbrev Copied : (i : ℕ) → Kernel → Type 0
  Copied i k =
      (k.kernel_directory ≡ src)
      × ((j : ℕ)
          → j < 1024
          → (get k (tables src j) ≡ get k₁ (tables src j))
            × (get k (tables_physical src j) ≡ get k₁ (tables_physical src j)))
      × ((j : ℕ) → j < 1024 → get k (tables dir j) ≡ (if ltb j i then get k₁ (tables src j) else 0))
      × ((j : ℕ)
          → j < i
          → j < 1024
          → get k₁ (tables src j) ≢ 0
          → get k (tables_physical dir j) ≡ get k₁ (tables_physical src j))
      × (get k (physical_addr dir) ≡ add32 phys 0x1000)

  -- The state after a shared table is entered.
  abbrev entered : (i : ℕ) → Kernel → Kernel
  entered i k =
      put (put k (tables dir i) (get k₁ (tables src i))) (tables_physical dir i)
        (get k₁ (tables_physical src i))

  entered_apart :
      (i : ℕ) (k : Kernel) (a : ℕ)
      → (a + 4 ≤ tables dir i) ⊎ (tables dir i + 4 ≤ a)
      → (a + 4 ≤ tables_physical dir i) ⊎ (tables_physical dir i + 4 ≤ a)
      → get (entered i k) a ≡ get k a
  entered_apart i k a h h' =
      load32-store32_apart _ (tables_physical dir i) (get k₁ (tables_physical src i)) a h'
      ∙ load32-store32_apart k.ram (tables dir i) (get k₁ (tables src i)) a h

  entered-table :
      (i : ℕ) (k : Kernel) → i < 1024 → get (entered i k) (tables dir i) ≡ get k₁ (tables src i)
  entered-table i k lt =
      load32-store32_apart _ (tables_physical dir i) (get k₁ (tables_physical src i)) (tables dir i)
        (inl (omega arith))
      ∙ load32-store32_self k.ram (tables dir i) (get k₁ (tables src i))
          (load32-lt k₁.ram (tables src i) bytes)

  entered-physical :
      (i : ℕ) (k : Kernel)
      → get (entered i k) (tables_physical dir i) ≡ get k₁ (tables_physical src i)
  entered-physical i k =
      load32-store32_self _ (tables_physical dir i) (get k₁ (tables_physical src i))
        (load32-lt k₁.ram (tables_physical src i) bytes)

  entered-source :
      (i j : ℕ) (k : Kernel)
      → i < 1024
      → j < 2049
      → get (entered i k) (src + 4 * j) ≡ get k (src + 4 * j)
  entered-source i j k lt h = elim apart [
    | inl before ↦ entered_apart i k (src + 4 * j) (inr (omega arith)) (inr (omega arith))
    | inr behind ↦ entered_apart i k (src + 4 * j) (inl (omega arith)) (inl (omega arith))
  ]

  entered-tables :
      (i j : ℕ) (k : Kernel)
      → i < 1024
      → j < 1024
      → get k (tables dir j) ≡ (if ltb j i then get k₁ (tables src j) else 0)
      → get (entered i k) (tables dir j) ≡ (if ltb j (i + 1) then get k₁ (tables src j) else 0)
  entered-tables i j k lt h e = elim (Bool-cases (j == i)) [
    | inl here ↦
        let same : j ≡ i = ground arith in
        let inside : ltb i (i + 1) ≡ true = ground arith in rw (same, inside) (entered-table i k lt)
    | inr other ↦
        let bound : ltb j (i + 1) ≡ ltb j i = ground arith in
        rw bound (entered_apart i k (tables dir j) (ground arith) (inl (omega arith)) ∙ e)
  ]

  entered-Copied : (i : ℕ) (k : Kernel) → i < 1024 → Copied i k → Copied (i + 1) (entered i k)
  entered-Copied i k lt (directory, source, table, physical, address) = (
    directory,
    λ j h. (
      entered-source i j k lt (omega arith) ∙ (source j h).0,
      (let here : src + 0x1000 + 4 * j ≡ src + 4 * (1024 + j) = omega arith in
            rw here (entered-source i (1024 + j) k lt (omega arith)))
          ∙ (source j h).1,
    ),
    λ j h. entered-tables i j k lt h (table j h),
    λ j below h some_table. elim (Bool-cases (j == i)) [
      | inl here ↦ let same : j ≡ i = ground arith in rw same (entered-physical i k)
      | inr other ↦
          entered_apart i k (tables_physical dir j) (inr (omega arith)) (ground arith)
          ∙ physical j (ground arith) h some_table
    ],
    entered_apart i k (physical_addr dir) (inr (omega arith)) (inr (omega arith)) ∙ address,
  )

  -- A missing table stays missing.
  skipped-tables :
      (i j : ℕ)
      → get k₁ (tables src i) ≡ 0
      → (if ltb j i then get k₁ (tables src j) else 0)
        ≡ (if ltb j (i + 1) then get k₁ (tables src j) else 0)
  skipped-tables i j missing = elim (Bool-cases (j == i)) [
    | inl here ↦ let same : j ≡ i = ground arith in rw (same, missing) (ground arith)
    | inr other ↦ let bound : ltb j (i + 1) ≡ ltb j i = ground arith in rw bound refl
  ]

  not_missing :
      (i j : ℕ) → j < i + 1 → get k₁ (tables src i) ≡ 0 → get k₁ (tables src j) ≢ 0 → j < i
  not_missing i j below missing some_table = elim (Bool-cases (j == i)) [
    | inl here ↦ let same : j ≡ i = ground arith in absurd (some_table (rw same missing))
    | inr other ↦ ground arith
  ]

  skipped-Copied : (i : ℕ) (k : Kernel) → get k₁ (tables src i) ≡ 0 → Copied i k → Copied (i + 1) k
  skipped-Copied i k missing (directory, source, table, physical, address) = (
    directory,
    source,
    λ j h. table j h ∙ skipped-tables i j missing,
    λ j below h some_table. physical j (not_missing i j below missing some_table) h some_table,
    address,
  )

  clone_entry-Copied :
      (fuel : ℕ) (copy : Ram → (from to : ℕ) → Ram) (i : ℕ) (k : Kernel)
      → i < 1024
      → Copied i k
      → (k' : Kernel) × (clone_entry fuel copy k src dir i ≡ some k') × Copied (i + 1) k'
  unfolding clone_entry
  clone_entry-Copied fuel copy i k lt c =
      let (directory, source, table, physical, address) = c in
      let here = (source i lt).0 in
      elim (Bool-cases (get k₁ (tables src i) == 0)) [
        | inl missing ↦ (k, rw (here, missing) refl, skipped-Copied i k (ground arith) c)
        | inr present ↦
            let own : (get k₁ (tables src i) == get k₁ (tables src i)) ≡ true = ground arith in
            let kept : get (put k (tables dir i) (get k₁ (tables src i))) (tables_physical src i)
                ≡ get k₁ (tables_physical src i) =
              load32-store32_apart k.ram (tables dir i) (get k₁ (tables src i))
                (tables_physical src i)
                (elim apart [ inl before ↦ inr (omega arith) | inr behind ↦ inl (omega arith) ])
              ∙ (source i lt).1 in
            (
              entered i k,
              rw (here, present, directory, here, own, kept) refl,
              entered-Copied i k lt c,
            )
      ]

  Copied-moved : (i j : ℕ) (k : Kernel) → i ≡ j → Copied i k → Copied j k
  Copied-moved i j k e c = rw (sym e) c

  clone_entries-Copied :
      (left fuel : ℕ) (copy : Ram → (from to : ℕ) → Ram) (i : ℕ) (k : Kernel)
      → i + left ≡ 1024
      → Copied i k
      → (k' : Kernel) × (clone_entries fuel copy k src dir i left ≡ some k') × Copied 1024 k'
  unfolding clone_entries
  clone_entries-Copied zero fuel copy i k all c = (k, refl, Copied-moved i 1024 k (omega arith) c)
  clone_entries-Copied (suc left) fuel copy i k all c =
      let (k', run, c') = clone_entry-Copied fuel copy i k (omega arith) c in
      let (k'', run', c'') = clone_entries-Copied left fuel copy (i + 1) k' (omega arith) c' in
      (k'', rw run run', c'')

  -- The copy before the loop over the tables.
  abbrev blank : Kernel
  blank =
      put (record k₁ { ram = memset k₁.ram dir 0 directory_size }) (physical_addr dir)
        (add32 phys 0x1000)

  blank-source : (j : ℕ) → j < 2048 → get blank (src + 4 * j) ≡ get k₁ (src + 4 * j)
  blank-source j h = elim apart [
    | inl before ↦
        load32-store32_apart _ (physical_addr dir) (add32 phys 0x1000) (src + 4 * j)
          (inr (omega arith))
        ∙ load32-memset_apart k₁.ram dir 0 directory_size (src + 4 * j) (inr (omega arith))
    | inr behind ↦
        load32-store32_apart _ (physical_addr dir) (add32 phys 0x1000) (src + 4 * j)
          (inl (omega arith))
        ∙ load32-memset_apart k₁.ram dir 0 directory_size (src + 4 * j) (inl (omega arith))
  ]

  blank-Copied : k₁.kernel_directory ≡ src → Copied 0 blank
  blank-Copied directory = (
    directory,
    λ j h. (
      blank-source j (omega arith),
      (let here : src + 0x1000 + 4 * j ≡ src + 4 * (1024 + j) = omega arith in
          rw here (blank-source (1024 + j) (omega arith))),
    ),
    λ j h.
        load32-store32_apart _ (physical_addr dir) (add32 phys 0x1000) (tables dir j)
          (inl (omega arith))
        ∙ load32-memset_zero k₁.ram dir directory_size (tables dir j) (omega arith) (omega arith)
        ∙ (let none_yet : ltb j 0 ≡ false = ground arith in rw none_yet refl),
    λ j below. absurd (omega arith),
    load32-store32_self _ (physical_addr dir) (add32 phys 0x1000) (omega arith),
  )

-- The copy of the kernel's directory shares all its tables: no table is copied, each entry is the
-- same pointer, with the same physical address where there is a table, and the copy knows where
-- its own list of physical addresses is; if kmalloc finds memory for the copy that lies apart from
-- the kernel's directory.
pub clone_directory_shares :
    (fuel : ℕ) (copy : Ram → (from to : ℕ) → Ram) (k k₁ : Kernel) (src dir phys : ℕ)
    → kmalloc_aligned_physical fuel k directory_size ≡ some (dir, some phys, k₁)
    → k₁.kernel_directory ≡ src
    → (dir + directory_size ≤ src) ⊎ (src + directory_size ≤ dir)
    → IsBytes k₁.ram
    → (k' : Kernel) × (clone_directory fuel copy k src ≡ some (dir, k'))
      × ((j : ℕ) → j < 1024 → get k' (tables dir j) ≡ get k₁ (tables src j))
      × ((j : ℕ)
          → j < 1024
          → get k₁ (tables src j) ≢ 0
          → get k' (tables_physical dir j) ≡ get k₁ (tables_physical src j))
      × (get k' (physical_addr dir) ≡ add32 phys 0x1000)
unfolding clone_directory
clone_directory_shares fuel copy k k₁ src dir phys given own apart bytes =
    let (k', run, c) =
      clone_entries-Copied k₁ src dir phys apart bytes 1024 fuel copy 0
        (blank k₁ src dir phys apart bytes) refl (blank-Copied k₁ src dir phys apart bytes own) in
    let (directory, source, table, physical, address) = c in
    (
      k',
      rw (given, run) refl,
      λ j h. table j h ∙ (let all : ltb j 1024 ≡ true = ground arith in rw all refl),
      λ j h. physical j h h,
      address,
    )
