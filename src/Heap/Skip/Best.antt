-- ===== src/Heap/Skip/Best.antt =====
-- klmalloc_skip_list_findbest against a plain scan of the list of free blocks.
use mathlib.Core.Path.{subst}
use balloon.Base.{
  ℕ, zero, suc, ◌≤◌, ◌<◌, ◌≡◌, ◌≢◌, refl, ◌⊎◌, inl, inr, Bool, true, false, ◌||◌, ◌&&◌, not, some,
  List, [], ◌∷◌, arith, ◌==◌, if◌then◌else◌, ltb, leb, ◌∙◌, sym, ==_iff, Bool-cases, length,
}
use balloon.Machine.{Kernel, get}
use balloon.Heap.Header.{size_of, forward_of}
use balloon.Heap.Skip.{walk, descend, skip_list_findbest}

abbrev pub has : ℕ → List ℕ → Bool
has p [] = false
has p (n ∷ ns) = p == n || has p ns

-- The first block of the list that is large enough, and NULL if there is none.
unfoldable pub best_fit : Kernel → (size : ℕ) → List ℕ → ℕ
best_fit k size [] = 0
best_fit k size (n ∷ ns) = if leb size (get k (size_of n)) then n else best_fit k size ns

abbrev pub AtLeast : Kernel → ℕ → List ℕ → Type 0
AtLeast k size [] = Unit {0}
AtLeast k size (n ∷ ns) = (size ≤ get k (size_of n)) × AtLeast k size ns

-- Behind `node` the list of level 0 holds the blocks `ns`, by ascending size, and the pointer of
-- each level leads to one of them or is NULL.
abbrev pub IsSkipList : Kernel → (node : ℕ) → List ℕ → Type 0
IsSkipList k node [] = (i : ℕ) → i ≤ k.level → get k (forward_of node i) ≡ 0
IsSkipList k node (n ∷ ns) =
    (get k (forward_of node 0) ≡ n)
    × (n ≢ 0)
    × ((i : ℕ)
        → i ≤ k.level
        → (get k (forward_of node i) == 0 || has (get k (forward_of node i)) (n ∷ ns)) ≡ true)
    × AtLeast k (get k (size_of n)) ns
    × IsSkipList k n ns

module _ (k : Kernel) (size : ℕ) where
  AtLeast-has :
      (low p : ℕ) (ns : List ℕ) → AtLeast k low ns → has p ns ≡ true → low ≤ get k (size_of p)
  AtLeast-has low p [] low_le h = cc
  AtLeast-has low p (n ∷ ns) low_le h = ground (arith, AtLeast-has low p ns low_le.1)

  -- A jump to a smaller block skips only smaller blocks.
  jump :
      (node p : ℕ) (ns : List ℕ)
      → IsSkipList k node ns
      → has p ns ≡ true
      → get k (size_of p) < size
      → (rest : List ℕ) × IsSkipList k p rest
        × (length rest < length ns)
        × (best_fit k size rest ≡ best_fit k size ns)
  unfolding best_fit
  jump node p [] s h lt = cc
  jump node p (n ∷ ns) s h lt = elim (Bool-cases (p == n)) [
    | inl here ↦ (
      ns,
      subst (λ q. IsSkipList k q ns) (sym ((==_iff p n).0 here)) s.4,
      omega arith,
      ground (arith, (==_iff p n).0 here),
    )
    | inr later ↦
        let (rest, s', shorter, same) = jump n p ns s.4 (ground arith) lt in
        (rest, s', omega arith, ground (arith, AtLeast-has (get k (size_of n)) p ns s.3))
  ]

  target-has :
      (node i : ℕ) (ns : List ℕ)
      → i ≤ k.level
      → IsSkipList k node ns
      → (get k (forward_of node i) == 0) ≡ false
      → has (get k (forward_of node i)) ns ≡ true
  target-has node i [] le s h = ground (arith, s i le)
  target-has node i (n ∷ ns) le s h = ground (arith, s.2 i le)

  -- Where a walk may stop at level `i`.
  abbrev Stops : (node i : ℕ) → Type 0
  Stops node i =
      (get k (forward_of node i) ≡ 0) ⊎ (size ≤ get k (size_of (get k (forward_of node i))))

  walk_lem :
      (fuel i node : ℕ) (ns : List ℕ)
      → i ≤ k.level
      → length ns < fuel
      → IsSkipList k node ns
      → (end : ℕ) × (rest : List ℕ) × (walk fuel k i node size ≡ some end)
        × IsSkipList k end rest
        × (length rest ≤ length ns)
        × (best_fit k size rest ≡ best_fit k size ns)
        × Stops end i
  unfolding walk
  walk_lem zero i node ns le lt s = elim lt [ ]
  walk_lem (suc fuel) i node ns le lt s =
      let next = get k (forward_of node i) in
      elim (Bool-cases (not (next == 0) && ltb (get k (size_of next)) size)) [
        | inl go ↦
            let (rest, s', shorter, same) =
              jump node next ns s (target-has node i ns le s (ground arith)) (ground arith) in
            let (end, rest', ends, s'', shorter', same', stops) =
              walk_lem fuel i next rest le (omega arith) s' in
            (end, rest', rw (go, ends), s'', omega arith, same' ∙ same, stops)
        | inr stop ↦ (node, ns, rw stop, s, omega arith, refl, ground arith)
      ]

  -- The block behind a walk's end at level 0 is the best fit.
  forward-best_fit :
      (node : ℕ) (ns : List ℕ)
      → IsSkipList k node ns
      → Stops node 0
      → get k (forward_of node 0) ≡ best_fit k size ns
  unfolding best_fit
  forward-best_fit node [] s stops = s 0 (omega arith)
  forward-best_fit node (n ∷ ns) s stops = ground (arith, s.0, s.1)

  descend_lem :
      (fuel i node : ℕ) (ns : List ℕ) (update : ℕ → ℕ)
      → i ≤ k.level
      → length ns < fuel
      → IsSkipList k node ns
      → (end : ℕ) × (update' : ℕ → ℕ) × (descend fuel k (suc i) node size update
          ≡ some (end, update'))
        × (get k (forward_of end 0) ≡ best_fit k size ns)
  unfolding descend
  descend_lem fuel zero node ns update le lt s =
      let (end, rest, ends, s', shorter, same, stops) = walk_lem fuel 0 node ns le lt s in
      (
        end,
        (λ j. if j == 0 then end else update j),
        rw ends,
        forward-best_fit end rest s' stops ∙ same,
      )
  descend_lem fuel (suc i) node ns update le lt s =
      let (end, rest, ends, s', shorter, same, stops) = walk_lem fuel (suc i) node ns le lt s in
      let (end', update', ends', best) =
        descend_lem fuel i end rest (λ j. if j == suc i then end else update j) (omega arith)
          (omega arith) s' in
      (end', update', rw ends ends', best ∙ same)

-- With fuel for one step more than the list has blocks, the search returns the smallest block of
-- at least the size, the first of these in the list, or NULL if every block is smaller.
pub findbest-best_fit :
    (fuel : ℕ) (k : Kernel) (size : ℕ) (ns : List ℕ)
    → IsSkipList k k.big_head ns
    → length ns < fuel
    → skip_list_findbest fuel k size ≡ some (best_fit k size ns)
unfolding skip_list_findbest
findbest-best_fit fuel k size ns s lt =
    let (end, update, ends, best) =
      descend_lem k size fuel k.level k.big_head ns (λ _. 0) (omega arith) lt s in
    rw (ends, best) refl
