-- ===== src/Heap/Skip/Search.antt =====
-- The search that findbest, insert and delete begin with: it ends, and it leaves each level at the
-- last block that is smaller than what is looked for.
use mathlib.Core.List.{append_assoc}
use mathlib.Core.Path.{subst}
use balloon.Base.{
  ℕ, length-append, zero, suc, ◌≤◌, ◌<◌, ◌≡◌, refl, sym, ◌∙◌, ap, ◌⊎◌, inl, inr, true, false, not,
  ◌&&◌, some, List, [], ◌∷◌, ◌++◌, arith, leb, ltb, ◌==◌, if◌then◌else◌, Bool-cases, length,
}
use balloon.Machine.{Kernel, get}
use balloon.Heap.Header.{size_of, forward_of}
use balloon.Heap.Skip.{walk, descend, skip_list_findbest}
use balloon.Heap.Skip.Best.{best_fit}
use balloon.Heap.Skip.Levels.{
  Block, Every, level, Chain, SkipList, last, level-append, level_tall, level_zero, length-level,
  level_above, Every-append, Every-level, Every-both, split,
}

last-append :
    (p : ℕ) (xs : List Block) (b : Block) (ys : List Block) → last p (xs ++ (b ∷ ys)) ≡ last b.0 ys
last-append p [] b ys = refl
last-append p (x ∷ xs) b ys = last-append x.0 xs b ys

-- The chain behind a block of it.
pub Chain-append :
    (k : Kernel) (i p : ℕ) (xs : List Block) (b : Block) (ys : List Block)
    → Chain k i p (xs ++ (b ∷ ys))
    → Chain k i b.0 ys
unfolding Chain
Chain-append k i p [] b ys c = c.1
Chain-append k i p (x ∷ xs) b ys c = Chain-append k i x.0 xs b ys c.1

-- Either no block stands in the level, or there is a last one.
last_of :
    (i : ℕ) (xs : List Block)
    → (level i xs ≡ [])
      ⊎ ((before : List Block) × (b : Block) × (after : List Block) × (xs ≡ before ++ (b ∷ after))
          × (i ≤ b.1)
          × (level i after ≡ []))
unfolding level
last_of i [] = inl refl
last_of i (x ∷ xs) = elim (last_of i xs) [
  | inr (before, b, after, e, tall, none) ↦
      inr (x ∷ before, b, after, ap (λ zs. x ∷ zs) e, tall, none)
  | inl none ↦ elim (Bool-cases (leb i x.1)) [
    | inl tall ↦ inr ([], x, xs, refl, ground arith, none)
    | inr low ↦ inl (rw low none)
  ]
]

module _ (k : Kernel) (size : ℕ) where
  -- a block that the walk goes past, and one that it stops at
  abbrev Smaller : Block → Type 0
  Smaller b = ((0 < b.0) × (b.0 < 0x1_0000_0000)) × (get k (size_of b.0) < size)

  abbrev Reached : Block → Type 0
  Reached b = size ≤ get k (size_of b.0)

  walk_lem :
      (fuel i p : ℕ) (xs ys : List Block)
      → Chain k i p (xs ++ ys)
      → Every Smaller xs
      → Every Reached ys
      → length xs < fuel
      → walk fuel k i p size ≡ some (last p xs)
  unfolding walk Chain
  walk_lem zero i p xs ys c small large lt = elim lt [ ]
  walk_lem (suc fuel) i p [] [] c small large lt = rw c refl
  walk_lem (suc fuel) i p [] (b ∷ ys) c small large lt =
      let stop : (not (b.0 == 0) && ltb (get k (size_of b.0)) size) ≡ false =
        ground (arith, large.0) in
      rw (c.0, stop) refl
  walk_lem (suc fuel) i p (b ∷ xs) ys c small large lt =
      let go : (not (b.0 == 0) && ltb (get k (size_of b.0)) size) ≡ true =
        ground (arith, small.0) in
      rw (c.0, go) (walk_lem fuel i b.0 xs ys c.1 small.1 large (omega arith))

  -- What the walk has left of a level's smaller blocks, from where it left the level above.
  abbrev LeftOver : (i p : ℕ) → (xs ys : List Block) → Type 0
  LeftOver i p xs ys =
      (zs : List Block) × Chain k i (last p (level (suc i) xs)) (zs ++ ys)
      × Every Smaller zs
      × (length zs ≤ length xs)
      × (last (last p (level (suc i) xs)) zs ≡ last p (level i xs))

  inside-LeftOver :
      (i p : ℕ) (before : List Block) (b : Block) (after ys : List Block)
      → suc i ≤ b.1
      → level (suc i) after ≡ []
      → Chain k i p (level i (before ++ (b ∷ after)) ++ ys)
      → Every Smaller (before ++ (b ∷ after))
      → LeftOver i p (before ++ (b ∷ after)) ys
  inside-LeftOver i p before b after ys tall none c small =
      let high : last p (level (suc i) (before ++ (b ∷ after))) ≡ b.0 =
        rw (level-append (suc i) before (b ∷ after), level_tall (suc i) b after tall, none)
          (last-append p (level (suc i) before) b []) in
      let low : level i (before ++ (b ∷ after)) ≡ level i before ++ (b ∷ level i after) =
        rw (level-append i before (b ∷ after), level_tall i b after (omega arith)) refl in
      let joined : (level i before ++ (b ∷ level i after)) ++ ys
          ≡ level i before ++ (b ∷ (level i after ++ ys)) =
        simp append_assoc in
      let c' : Chain k i p (level i before ++ (b ∷ (level i after ++ ys))) =
        subst (λ zs. Chain k i p zs) (ap (λ zs. zs ++ ys) low ∙ joined) c in
      (
        level i after,
        rw high (Chain-append k i p (level i before) b (level i after ++ ys) c'),
        Every-level Smaller i after (Every-append Smaller before (b ∷ after) small).1.1,
        omega (arith, length-level i after, length-append before (b ∷ after)),
        rw (high, low) (sym (last-append p (level i before) b (level i after))),
      )

  left_over :
      (i p : ℕ) (xs ys : List Block)
      → Chain k i p (level i xs ++ ys)
      → Every Smaller xs
      → LeftOver i p xs ys
  left_over i p xs ys c small = elim (last_of (suc i) xs) [
    | inl none ↦ rw none (level i xs, c, Every-level Smaller i xs small, length-level i xs, refl)
    | inr (before, b, after, e, tall, none) ↦
        rw e (inside-LeftOver i p before b after ys tall none (rw (sym e) c) (rw (sym e) small))
  ]

  -- The search from the level `i` down leaves each level at its last smaller block.
  descend_lem :
      (fuel i p : ℕ) (xs ys : List Block) (update : ℕ → ℕ)
      → ((j : ℕ) → j < i → Chain k j p (level j xs ++ level j ys))
      → Every Smaller xs
      → Every Reached ys
      → length xs < fuel
      → (update' : ℕ → ℕ) × (descend fuel k i (last p (level i xs)) size update
          ≡ some (last p (level 0 xs), update'))
        × ((j : ℕ) → j < i → update' j ≡ last p (level j xs))
        × ((j : ℕ) → i ≤ j → update' j ≡ update j)
  unfolding descend
  descend_lem fuel zero p xs ys update c small large lt =
      (update, refl, λ j h. absurd (omega arith), λ j h. refl)
  descend_lem fuel (suc i) p xs ys update c small large lt =
      let (zs, c', small', shorter, end) =
        left_over i p xs (level i ys) (c i (omega arith)) small in
      let run =
        walk_lem fuel i (last p (level (suc i) xs)) zs (level i ys) c' small'
          (Every-level Reached i ys large) (omega arith)
        ∙ ap some end in
      let (update', run', known, same) =
        descend_lem fuel i p xs ys (λ j. if j == i then last p (level i xs) else update j)
          (λ j h. c j (omega arith)) small large lt in
      (
        update',
        rw run run',
        λ j h. elim (Bool-cases (j == i)) [
          | inl here ↦ let e : j ≡ i = ground arith in same j (omega arith) ∙ rw (here, e) refl
          | inr below ↦ known j (ground arith)
        ],
        λ j h.
            same j (omega arith) ∙ (let above : (j == i) ≡ false = ground arith in rw above refl),
      )

-- The first address, and NULL if there is none.
abbrev pub first : List Block → ℕ
first [] = 0
first (b ∷ ns) = b.0

pub Chain-last :
    (k : Kernel) (i p : ℕ) (xs ys : List Block)
    → Chain k i p (xs ++ ys)
    → get k (forward_of (last p xs) i) ≡ first ys
unfolding Chain
Chain-last k i p [] [] c = c
Chain-last k i p [] (b ∷ ys) c = c.0
Chain-last k i p (x ∷ xs) ys c = Chain-last k i x.0 xs ys c.1

abbrev pub addresses : List Block → List ℕ
addresses [] = []
addresses (b ∷ ns) = b.0 ∷ addresses ns

best_fit-split :
    (k : Kernel) (size : ℕ) (xs ys : List Block)
    → Every (λ b. get k (size_of b.0) < size) xs
    → Every (λ b. size ≤ get k (size_of b.0)) ys
    → best_fit k size (addresses (xs ++ ys)) ≡ first ys
unfolding best_fit
best_fit-split k size [] [] small large = refl
best_fit-split k size [] (b ∷ ys) small large =
    let reached : leb size (get k (size_of b.0)) ≡ true = ground (arith, large.0) in rw reached refl
best_fit-split k size (x ∷ xs) ys small large =
    let passed : leb size (get k (size_of x.0)) ≡ false = ground (arith, small.0) in
    rw passed (best_fit-split k size xs ys small.1 large)

-- The search in a skip list whose blocks are cut at `size`.
pub search_lem :
    (fuel : ℕ) (k : Kernel) (size : ℕ) (xs ys : List Block)
    → SkipList k (xs ++ ys)
    → Every (λ b. get k (size_of b.0) < size) xs
    → Every (λ b. size ≤ get k (size_of b.0)) ys
    → length xs < fuel
    → (update : ℕ → ℕ) × (descend fuel k (suc k.level) k.big_head size (λ _. 0)
        ≡ some (last k.big_head xs, update))
      × ((j : ℕ) → j ≤ k.level → update j ≡ last k.big_head (level j xs))
      × (get k (forward_of (last k.big_head xs) 0) ≡ first ys)
search_lem fuel k size xs ys s small large lt =
    let start : level (suc k.level) xs ≡ [] =
      level_above (suc k.level) k.level xs (Every-append _ xs ys s.heights).0 (omega arith) in
    let chain = λ (j : ℕ) (h : j ≤ k.level).
      subst (λ zs. Chain k j k.big_head zs) (level-append j xs ys)
        (s.chains j (omega (arith, s.max_level))) in
    let (update, run, known, same) =
      descend_lem k size fuel (suc k.level) k.big_head xs ys (λ _. 0) (λ j h. chain j (omega arith))
        (Every-both _ _ xs (Every-append _ xs ys s.in_range).0 small) large lt in
    (
      update,
      ap (λ zs. descend fuel k (suc k.level) (last k.big_head zs) size (λ _. 0)) (sym start)
          ∙ run
          ∙ ap (λ zs. some (last k.big_head zs, update)) (level_zero xs),
      λ j h. known j (omega arith),
      Chain-last k 0 k.big_head xs ys (
          subst (λ zs. Chain k 0 k.big_head zs) (level_zero (xs ++ ys)) (s.chains 0 (omega arith))),
    )

-- findbest in a skip list whose blocks are cut at the size that is looked for.
pub findbest_cut :
    (fuel : ℕ) (k : Kernel) (size : ℕ) (xs ys : List Block)
    → SkipList k (xs ++ ys)
    → Every (λ b. get k (size_of b.0) < size) xs
    → Every (λ b. size ≤ get k (size_of b.0)) ys
    → length xs < fuel
    → skip_list_findbest fuel k size ≡ some (first ys)
unfolding skip_list_findbest
findbest_cut fuel k size xs ys s small large lt =
    let (update, run, known, next) = search_lem fuel k size xs ys s small large lt in
    rw (run, next) refl

-- With fuel for one step more than the list has blocks, findbest in a skip list returns the first
-- block of its list that is large enough, or NULL if every block is smaller.
pub findbest_smallest :
    (fuel : ℕ) (k : Kernel) (size : ℕ) (ns : List Block)
    → SkipList k ns
    → length ns < fuel
    → skip_list_findbest fuel k size ≡ some (best_fit k size (addresses ns))
findbest_smallest fuel k size ns s lt =
    let (xs, ys, e, small, large) = split k size ns s.sorted in
    let whole =
      ap (λ zs. best_fit k size (addresses zs)) e ∙ best_fit-split k size xs ys small large in
    findbest_cut fuel k size xs ys (subst (λ zs. SkipList k zs) e s) small large
      (omega (arith, lt, ap (λ (zs : List Block). length zs) e, length-append xs ys))
    ∙ ap (λ p. some p) (sym whole)
