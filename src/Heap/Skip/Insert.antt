-- ===== src/Heap/Skip/Insert.antt =====
-- klmalloc_skip_list_insert puts a block in front of the first one that is not smaller.
use mathlib.Core.Path.{subst}
use balloon.Base.{
  ℕ, zero, suc, ◌+◌, ◌-◌, ◌≤◌, ◌<◌, ◌≡◌, refl, sym, ◌∙◌, ap, inl, inr, true, false, some, List, [],
  ◌∷◌, ◌++◌, arith, leb, ltb, ◌==◌, if◌then◌else◌, Bool-cases, length, length-append,
}
use balloon.Machine.{Rng, Kernel, get}
use balloon.Heap.Header.{size_of}
use balloon.Heap.Skip.{
  skip_max_level, skip_rand, random_level_loop, random_level, fill_update, splice, insert_at,
  skip_list_insert,
}
use balloon.Heap.Skip.Levels.{
  Block, Every, level, Chain, Beside, Separate, Sorted, SkipList, last, level-append, level_tall,
  level_low, level_above, Every-append, Every-map, split, Away, Sorted-same, kept_sizes,
}
use balloon.Heap.Skip.Search.{first, search_lem}
use balloon.Heap.Skip.Splice.{
  nodes, first-other, stage, Spliced, before, splice_lem, splice-get, splice_rest,
}

random_level_loop-le : (left n : ℕ) (r : Rng) → (random_level_loop left n r).0 ≤ n + left
unfolding random_level_loop
random_level_loop-le zero n r = omega arith
random_level_loop-le (suc left) n r =
    ground (arith, random_level_loop-le left (suc n) (skip_rand r).1)

pub random_level-le : (r : Rng) → (random_level r).0 ≤ skip_max_level
unfolding random_level
random_level-le r = random_level_loop-le skip_max_level 0 r

-- The new block goes in front of the first one that is not smaller.
abbrev pub inserted : Kernel → Block → List Block → List Block
inserted k b [] = b ∷ []
inserted k b (c ∷ ns) =
    if leb (get k (size_of b.0)) (get k (size_of c.0)) then b ∷ c ∷ ns else c ∷ inserted k b ns

inserted-append :
    (k : Kernel) (b : Block) (xs ys : List Block)
    → Every (λ c. get k (size_of c.0) < get k (size_of b.0)) xs
    → Every (λ c. get k (size_of b.0) ≤ get k (size_of c.0)) ys
    → inserted k b (xs ++ ys) ≡ xs ++ (b ∷ ys)
inserted-append k b [] [] small large = refl
inserted-append k b [] (y ∷ ys) small large =
    let here : leb (get k (size_of b.0)) (get k (size_of y.0)) ≡ true = ground (arith, large.0) in
    rw here refl
inserted-append k b (x ∷ xs) ys small large =
    let later : leb (get k (size_of b.0)) (get k (size_of x.0)) ≡ false = ground (arith, small.0) in
    rw later (ap (λ zs. x ∷ zs) (inserted-append k b xs ys small.1 large))

pub insert-Every :
    (Q : Block → Type 0) (b : Block) (xs ys : List Block)
    → Q b
    → Every Q (xs ++ ys)
    → Every Q (xs ++ (b ∷ ys))
insert-Every Q b [] ys q h = (q, h)
insert-Every Q b (x ∷ xs) ys q h = (h.0, insert-Every Q b xs ys q h.1)

insert-Separate :
    (b : Block) (xs ys : List Block)
    → Every (λ c. Beside b.0 c.0) (xs ++ ys)
    → Separate (xs ++ ys)
    → Separate (xs ++ (b ∷ ys))
insert-Separate b [] ys h s = (h, s)
insert-Separate b (x ∷ xs) ys h s = (
  insert-Every (λ c. Beside x.0 c.0) b xs ys (ground (arith, h.0)) s.0,
  insert-Separate b xs ys h.1 s.1,
)

insert-Sorted :
    (k : Kernel) (b : Block) (xs ys : List Block)
    → Every (λ c. get k (size_of c.0) < get k (size_of b.0)) xs
    → Every (λ c. get k (size_of b.0) ≤ get k (size_of c.0)) ys
    → Sorted k (xs ++ ys)
    → Sorted k (xs ++ (b ∷ ys))
insert-Sorted k b [] ys small large s = (large, s)
insert-Sorted k b (x ∷ xs) ys small large s = (
  insert-Every (λ c. get k (size_of x.0) ≤ get k (size_of c.0)) b xs ys (omega (arith, small.0))
      s.0,
  insert-Sorted k b xs ys small.1 large s.1,
)

level-stage :
    (head v h : ℕ) (xs ys : List Block) (j : ℕ)
    → level j (xs ++ ((v, h) ∷ ys)) ≡ stage head (v, h) xs ys (suc h) j
level-stage head v h xs ys j = level-append j xs ((v, h) ∷ ys) ∙ elim (Bool-cases (ltb j (suc h))) [
  | inl tall ↦ rw (tall, level_tall j (v, h) ys (ground arith)) refl
  | inr low ↦ rw (low, level_low j (v, h) ys (ground arith)) refl
]

-- The chains do not depend on the level of the list and on the generator.
Chain-fields :
    (k : Kernel) (top : ℕ) (rng : Rng) (i p : ℕ) (ns : List Block)
    → Chain k i p ns
    → Chain (record k { level = top; rng = rng }) i p ns
unfolding Chain
Chain-fields k top rng i p [] c = c
Chain-fields k top rng i p (b ∷ ns) c = (c.0, Chain-fields k top rng i b.0 ns c.1)

-- A block that may be inserted: it is no NULL, and beside the header of the list and its blocks.
abbrev pub Insertable : Kernel → (v : ℕ) → List Block → Type 0
Insertable k v ns =
    ((0 < v) × (v < 0x1_0000_0000)) × Beside k.big_head v × Every (λ b. Beside v b.0) ns

module _ (k : Kernel) (v : ℕ) (xs ys : List Block) (skip_list : SkipList k (xs ++ ys))
    (new : Insertable k v (xs ++ ys))
    (small : Every (λ b. get k (size_of b.0) < get k (size_of v)) xs)
    (large : Every (λ b. get k (size_of v) ≤ get k (size_of b.0)) ys) where
  apart : (h : ℕ) → Separate (nodes k.big_head (v, h) xs ys)
  apart h = ((new.1, skip_list.apart_from_head), (new.2, skip_list.separate))

  -- What an insertion at the level `h` leaves.
  abbrev pub Inserts : (h : ℕ) → Kernel → Type 0
  Inserts h k' =
      SkipList k' (xs ++ ((v, h) ∷ ys))
      × ((a : ℕ) → Every (λ b. Away a b.0) (nodes k.big_head (v, h) xs ys) → get k' a ≡ get k a)
      × (k'.big_head ≡ k.big_head)

  -- The list's fields and the memory that the loop leaves.
  linked_Inserts :
      (h top : ℕ) (rng : Rng) (ram : ℕ → ℕ)
      → h ≤ top
      → k.level ≤ top
      → top ≤ skip_max_level
      → (let k' : Kernel = record k { level = top; rng = rng; ram = ram } in
          Spliced k.big_head (v, h) xs ys k' (suc h)
          → ((a : ℕ) → Every (λ b. Away a b.0) (nodes k.big_head (v, h) xs ys) → get k' a ≡ get k a)
          → Inserts h k')
  linked_Inserts h top rng ram h_le level_le top_le linked frame =
      let k' : Kernel = record k { level = top; rng = rng; ram = ram } in
      let members = nodes k.big_head (v, h) xs ys in
      let sizes : Every (λ b. get k' (size_of b.0) ≡ get k (size_of b.0)) members =
        kept_sizes k k' members (apart h) frame in
      (
        record {
          in_range = insert-Every _ (v, h) xs ys new.0 skip_list.in_range;
          apart_from_head = insert-Every _ (v, h) xs ys new.1 skip_list.apart_from_head;
          separate = insert-Separate (v, h) xs ys new.2 skip_list.separate;
          sorted =
              Sorted-same k k' (xs ++ ((v, h) ∷ ys))
                (insert-Every (λ b. get k' (size_of b.0) ≡ get k (size_of b.0)) (v, h) xs ys
                  sizes.1.0 sizes.1.1)
                (insert-Sorted k (v, h) xs ys small large skip_list.sorted);
          heights =
              insert-Every _ (v, h) xs ys h_le
                (Every-map _ _ (xs ++ ys) (λ b le. omega (arith, le)) skip_list.heights);
          max_level = top_le;
          chains = λ j hj.
              subst (λ zs. Chain k' j k.big_head zs) (sym (level-stage k.big_head v h xs ys j))
                (linked j hj);
        },
        frame,
        refl,
      )

  start :
      (h top : ℕ) (rng : Rng)
      → Spliced k.big_head (v, h) xs ys (record k { level = top; rng = rng }) 0
  start h top rng j hj =
      let k₁ : Kernel = record k { level = top; rng = rng } in
      let none : stage k.big_head (v, h) xs ys 0 j ≡ level j xs ++ level j ys = ground arith in
      rw none (
        subst (λ zs. Chain k₁ j k.big_head zs) (level-append j xs ys)
          (Chain-fields k top rng j k.big_head (level j (xs ++ ys)) (skip_list.chains j hj)))

  -- The loop that links the block, for each level that may have been drawn.
  link_Inserts :
      (h top : ℕ) (rng : Rng) (update : ℕ → ℕ)
      → h ≤ top
      → k.level ≤ top
      → top ≤ skip_max_level
      → ((j : ℕ) → j ≤ h → update j ≡ last k.big_head (level j xs))
      → Inserts h (splice (record k { level = top; rng = rng }) v 0 (suc h) update)
  link_Inserts h top rng update h_le level_le top_le known =
      let k₁ : Kernel = record k { level = top; rng = rng } in
      let ran = splice_rest v 0 (suc h) update k₁ in
      let range : Every (λ b. b.0 < 0x1_0000_0000) ((v, h) ∷ (xs ++ ys)) =
        (new.0.1, Every-map _ _ (xs ++ ys) (λ b r. r.1) skip_list.in_range) in
      let all : 0 + suc h ≡ suc h = omega arith in
      let known' : (j : ℕ) → j < 0 + suc h → update j ≡ before k.big_head (v, h) xs ys j =
        λ j lt. known j (omega arith) in
      subst (λ k₂. Inserts h k₂) (sym ran)
        (linked_Inserts h top rng (splice k₁ v 0 (suc h) update).ram h_le level_le top_le
          (subst (λ k₂. Spliced k.big_head (v, h) xs ys k₂ (suc h)) ran
            (subst (λ n. Spliced k.big_head (v, h) xs ys (splice k₁ v 0 (suc h) update) n) all
              (splice_lem k.big_head (v, h) xs ys (apart h) range k₁ 0 (suc h) update (omega arith)
                known' (start h top rng))))
          (λ a away.
            splice-get k.big_head (v, h) xs ys (apart h) range k₁ 0 (suc h) update a (omega arith)
              known' away))

  fill_update_known :
      (h : ℕ) (update : ℕ → ℕ)
      → ((j : ℕ) → j ≤ k.level → update j ≡ last k.big_head (level j xs))
      → (j : ℕ) → j ≤ h
      → fill_update k.big_head (k.level + 1) (h - k.level) update j ≡ last k.big_head (level j xs)
  unfolding fill_update
  fill_update_known h update known j le = elim (Bool-cases (leb (k.level + 1) j)) [
    | inr low ↦ rw low (known j (ground arith))
    | inl high ↦
        let inside : ltb j ((k.level + 1) + (h - k.level)) ≡ true = ground arith in
        let none : level j xs ≡ [] =
          level_above j k.level xs (Every-append _ xs ys skip_list.heights).0 (ground arith) in
        rw (high, inside, none) refl
  ]

  insert_at_lem :
      (h : ℕ) (rng : Rng) (update : ℕ → ℕ)
      → h ≤ skip_max_level
      → ((j : ℕ) → j ≤ k.level → update j ≡ last k.big_head (level j xs))
      → Inserts h (insert_at (record k { rng = rng }) v h update)
  unfolding insert_at
  insert_at_lem h rng update le known = elim (Bool-cases (ltb k.level h)) [
    | inl higher ↦ rw higher (
        link_Inserts h h rng (fill_update k.big_head (k.level + 1) (h - k.level) update)
          (omega arith) (ground arith) le (fill_update_known h update known))
    | inr inside ↦ rw inside (
        link_Inserts h k.level rng update (ground arith) (omega arith) skip_list.max_level
          (λ j j_le. known j (ground arith)))
  ]

  -- The insertion behind the blocks that are smaller.
  pub insert_cut :
      (fuel : ℕ)
      → length xs < fuel
      → (k' : Kernel) × (h : ℕ) × (skip_list_insert fuel k v ≡ some k') × Inserts h k'
  unfolding skip_list_insert
  insert_cut fuel lt =
      let (update, run, known, next) =
        search_lem fuel k (get k (size_of v)) xs ys skip_list small large lt in
      let other : (first ys == v) ≡ false =
        first-other v ys new.0.0 (Every-append _ xs ys new.2).1 in
      let (h, rng) = random_level k.rng in
      (
        insert_at (record k { rng = rng }) v h update,
        h,
        rw (run, next, other) refl,
        insert_at_lem h rng update (random_level-le k.rng) known,
      )

-- A block that may be inserted goes in front of the first one that is not smaller, the list is a
-- skip list again, and the memory beside the list's pointers keeps its contents.
pub skip_list_insert-SkipList :
    (fuel : ℕ) (k : Kernel) (v : ℕ) (ns : List Block)
    → SkipList k ns
    → Insertable k v ns
    → length ns < fuel
    → (k' : Kernel) × (h : ℕ) × (skip_list_insert fuel k v ≡ some k')
      × SkipList k' (inserted k (v, h) ns)
      × ((a : ℕ) → Away a k.big_head → Away a v → Every (λ b. Away a b.0) ns → get k' a ≡ get k a)
      × (k'.big_head ≡ k.big_head)
skip_list_insert-SkipList fuel k v ns s new lt =
    let (xs, ys, e, small, large) = split k (get k (size_of v)) ns s.sorted in
    let (k', h, run, (done, frame, same)) =
      insert_cut k v xs ys (subst (λ zs. SkipList k zs) e s) (subst (λ zs. Insertable k v zs) e new)
        small large fuel
        (omega (arith, lt, ap (λ (zs : List Block). length zs) e, length-append xs ys)) in
    (
      k',
      h,
      run,
      subst (λ zs. SkipList k' zs)
          (sym (ap (λ zs. inserted k (v, h) zs) e ∙ inserted-append k (v, h) xs ys small large))
          done,
      λ a a_head a_v a_ns. frame a (a_head, (a_v, subst (λ zs. Every (λ b. Away a b.0) zs) e a_ns)),
      same,
    )
