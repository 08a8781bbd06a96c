-- ===== src/Heap/Skip/Delete.antt =====
-- klmalloc_skip_list_delete takes a block out of the skip list.
use mathlib.Core.Path.{subst}
use balloon.Base.{
  ℕ, zero, suc, ◌+◌, ◌≤◌, ◌<◌, ◌≡◌, refl, sym, ◌∙◌, inl, inr, true, some, List, [], ◌∷◌, ◌++◌,
  arith, leb, ◌==◌, Bool-cases, length,
}
use balloon.Machine.{Kernel, get}
use balloon.Heap.Header.{size_of, forward_of}
use balloon.Heap.Skip.{skip_max_level, seek, unlink, lower_level, skip_list_delete}
use balloon.Heap.Skip.Levels.{
  Block, Every, level, Chain, Beside, Separate, Sorted, SkipList, last, level-append, level_tall,
  level_low, Every-map, Away, Sorted-same, kept_sizes,
}
use balloon.Heap.Skip.Search.{first, Chain-last, search_lem}
use balloon.Heap.Skip.Splice.{nodes}
use balloon.Heap.Skip.Unlink.{Unlinked, cut, at, unlink_lem, unlink-get, unlink_rest}

pub Every-remove :
    (Q : Block → Type 0) (b : Block) (xs ys : List Block)
    → Every Q (xs ++ (b ∷ ys))
    → Q b × Every Q (xs ++ ys)
Every-remove Q b [] ys h = h
Every-remove Q b (x ∷ xs) ys h = let (q, rest) = Every-remove Q b xs ys h.1 in (q, (h.0, rest))

pub Separate-remove :
    (b : Block) (xs ys : List Block)
    → Separate (xs ++ (b ∷ ys))
    → Every (λ c. Beside b.0 c.0) (xs ++ ys) × Separate (xs ++ ys)
Separate-remove b [] ys s = s
Separate-remove b (x ∷ xs) ys s =
    let (x_b, x_rest) = Every-remove (λ c. Beside x.0 c.0) b xs ys s.0 in
    let (b_rest, rest) = Separate-remove b xs ys s.1 in
    ((ground (arith, x_b), b_rest), (x_rest, rest))

Sorted-remove :
    (k : Kernel) (b : Block) (xs ys : List Block) → Sorted k (xs ++ (b ∷ ys)) → Sorted k (xs ++ ys)
Sorted-remove k b [] ys s = s.1
Sorted-remove k b (x ∷ xs) ys s = (
  (Every-remove (λ c. get k (size_of x.0) ≤ get k (size_of c.0)) b xs ys s.0).1,
  Sorted-remove k b xs ys s.1,
)

-- What stands behind a block is not smaller.
pub Sorted-append :
    (k : Kernel) (xs : List Block) (b : Block) (ys : List Block)
    → Sorted k (xs ++ (b ∷ ys))
    → Every (λ c. get k (size_of b.0) ≤ get k (size_of c.0)) ys
Sorted-append k [] b ys s = s.0
Sorted-append k (x ∷ xs) b ys s = Sorted-append k xs b ys s.1

-- No block stands in a level that begins with NULL.
first_none :
    (i : ℕ) (ns : List Block)
    → Every (λ b. (0 < b.0) × (b.0 < 0x1_0000_0000)) ns
    → first (level i ns) ≡ 0
    → Every (λ b. b.1 < i) ns
unfolding level
first_none i [] range none = record {}
first_none i (b ∷ ns) range none = elim (Bool-cases (leb i b.1)) [
  | inl tall ↦
      let nonzero : b.0 ≡ 0 = subst (λ zs. first zs ≡ 0) (level_tall i b ns (ground arith)) none in
      absurd (omega (arith, range.0))
  | inr low ↦ (
    ground arith,
    first_none i ns range.1 (subst (λ zs. first zs ≡ 0) (level_low i b ns (ground arith)) none),
  )
]

lower_level_lem :
    (k : Kernel) (top : ℕ) (ns : List Block)
    → Every (λ b. (0 < b.0) × (b.0 < 0x1_0000_0000)) ns
    → Every (λ b. b.1 ≤ top) ns
    → ((i : ℕ) → i ≤ top → Chain k i k.big_head (level i ns))
    → (lower_level k top ≤ top) × Every (λ b. b.1 ≤ lower_level k top) ns
unfolding lower_level
lower_level_lem k zero ns range heights chains = (omega arith, heights)
lower_level_lem k (suc top) ns range heights chains =
    let head = get k (forward_of k.big_head (suc top)) in
    elim (Bool-cases (head == 0)) [
      | inr used ↦ rw used (omega arith, heights)
      | inl none ↦
          let empty : first (level (suc top) ns) ≡ 0 =
            sym (
              Chain-last k (suc top) k.big_head [] (level (suc top) ns)
                (chains (suc top) (omega arith)))
            ∙ ground arith in
          let (le, below) =
            lower_level_lem k top ns range
              (Every-map _ _ ns (λ b h. omega (arith, h)) (first_none (suc top) ns range empty))
              (λ i h. chains i (omega arith)) in
          rw none (omega (arith, le), below)
    ]

-- The chains do not depend on the level of the list.
Chain-level :
    (k : Kernel) (top i p : ℕ) (ns : List Block)
    → Chain k i p ns
    → Chain (record k { level = top }) i p ns
unfolding Chain
Chain-level k top i p [] c = c
Chain-level k top i p (b ∷ ns) c = (c.0, Chain-level k top i b.0 ns c.1)

module _ (k : Kernel) (b : Block) (xs ys : List Block)
    (skip_list : SkipList k (xs ++ (b ∷ ys))) where
  abbrev all : List Block
  all = nodes k.big_head b xs ys

  apart : Separate all
  apart =
      let (b_rest, rest) = Separate-remove b xs ys skip_list.separate in
      let (head_b, head_rest) =
        Every-remove (λ c. Beside k.big_head c.0) b xs ys skip_list.apart_from_head in
      ((head_b, head_rest), (b_rest, rest))

  start : Unlinked k.big_head b xs ys k 0
  start j hj =
      let none : cut k.big_head b xs ys 0 j ≡ level j xs ++ level j (b ∷ ys) = ground arith in
      rw none
        (subst (λ zs. Chain k j k.big_head zs) (level-append j xs (b ∷ ys)) (skip_list.chains j hj))

  -- What the deletion leaves.
  abbrev Removes : Kernel → Type 0
  Removes k' =
      SkipList k' (xs ++ ys)
      × ((a : ℕ) → Every (λ c. Away a c.0) all → get k' a ≡ get k a)
      × (k'.big_head ≡ k.big_head)

  abbrev lowered : Kernel → Kernel
  lowered k₁ = record k₁ { level = lower_level k₁ k₁.level }

  -- The loop that lowers the level, for the memory that the loop before leaves.
  lower_Removes :
      (ram : ℕ → ℕ)
      → (let k₁ : Kernel = record k { ram = ram } in
          ((j : ℕ) → j ≤ skip_max_level → Chain k₁ j k.big_head (level j xs ++ level j ys))
          → ((a : ℕ) → Every (λ c. Away a c.0) all → get k₁ a ≡ get k a)
          → Removes (lowered k₁))
  lower_Removes ram chains frame =
      let k₁ : Kernel = record k { ram = ram } in
      let rest : List Block = xs ++ ys in
      let joined = λ (j : ℕ) (hj : j ≤ skip_max_level).
        subst (λ zs. Chain k₁ j k.big_head zs) (sym (level-append j xs ys)) (chains j hj) in
      let range = (Every-remove _ b xs ys skip_list.in_range).1 in
      let (le, heights) =
        lower_level_lem k₁ k.level rest range (Every-remove _ b xs ys skip_list.heights).1
          (λ i h. joined i (omega (arith, skip_list.max_level))) in
      let top = lower_level k₁ k.level in
      let sizes : Every (λ c. get k₁ (size_of c.0) ≡ get k (size_of c.0)) all =
        kept_sizes k k₁ all apart frame in
      (
        record {
          in_range = range;
          apart_from_head = (Every-remove _ b xs ys skip_list.apart_from_head).1;
          separate = (Separate-remove b xs ys skip_list.separate).1;
          sorted =
              Sorted-same k (lowered k₁) rest sizes.1.1 (Sorted-remove k b xs ys skip_list.sorted);
          heights = heights;
          max_level = omega (arith, le, skip_list.max_level);
          chains = λ j hj. Chain-level k₁ top j k.big_head (level j rest) (joined j hj);
        },
        frame,
        refl,
      )

  -- The two loops that take the block out and lower the level.
  unlink-Removes :
      (update : ℕ → ℕ)
      → ((j : ℕ) → j ≤ k.level → update j ≡ last k.big_head (level j xs))
      → Removes (lowered (unlink k b.0 0 (suc k.level) update))
  unlink-Removes update known =
      let range = Every-remove _ b xs ys skip_list.in_range in
      let enough : 0 + suc k.level ≤ suc skip_max_level = omega (arith, skip_list.max_level) in
      let known' : (j : ℕ) → j < 0 + suc k.level → update j ≡ at k.big_head b xs ys j =
        λ j h. known j (omega arith) in
      let ran = unlink_rest b.0 0 (suc k.level) update k in
      subst (λ k₁. Removes (lowered k₁)) (sym ran)
        (lower_Removes (unlink k b.0 0 (suc k.level) update).ram
          (subst
            (λ k₁. (j : ℕ) → j ≤ skip_max_level → Chain k₁ j k.big_head (level j xs ++ level j ys))
            ran
            (unlink_lem k.big_head b xs ys apart range 0 (suc k.level) update k enough
              (omega (arith, (Every-remove _ b xs ys skip_list.heights).0)) known' start))
          (λ a away.
            unlink-get k.big_head b xs ys apart range 0 (suc k.level) update a k enough known'
              away))

seek_found : (fuel : ℕ) (k : Kernel) (v : ℕ) → 0 < fuel → seek fuel k v v ≡ some v
unfolding seek
seek_found zero k v lt = absurd (omega arith)
seek_found (suc fuel) k v lt = let found : (v == v) ≡ true = ground arith in rw found refl

-- A block behind blocks that are smaller is taken out of the list, the list is a skip list of the
-- other blocks, and the memory beside the list's pointers keeps its contents.
pub skip_list_delete-SkipList :
    (fuel : ℕ) (k : Kernel) (b : Block) (xs ys : List Block)
    → SkipList k (xs ++ (b ∷ ys))
    → Every (λ c. get k (size_of c.0) < get k (size_of b.0)) xs
    → length xs < fuel
    → (k' : Kernel) × (skip_list_delete fuel k b.0 ≡ some k')
      × SkipList k' (xs ++ ys)
      × ((a : ℕ)
          → Away a k.big_head
          → Every (λ c. Away a c.0) (xs ++ (b ∷ ys))
          → get k' a ≡ get k a)
      × (k'.big_head ≡ k.big_head)
unfolding skip_list_delete
skip_list_delete-SkipList fuel k b xs ys s small lt =
    let size = get k (size_of b.0) in
    let large : Every (λ c. size ≤ get k (size_of c.0)) (b ∷ ys) =
      (omega arith, (Sorted-append k xs b ys s.sorted)) in
    let (update, run, known, next) = search_lem fuel k size xs (b ∷ ys) s small large lt in
    let (done, frame, same) = unlink-Removes k b xs ys s update known in
    (
      lowered k b xs ys s (unlink k b.0 0 (suc k.level) update),
      rw (run, next, seek_found fuel k b.0 (omega arith)) refl,
      done,
      λ a a_head a_ns. frame a (a_head, Every-remove (λ c. Away a c.0) b xs ys a_ns),
      same,
    )
