-- ===== src/Heap/Skip/Unlink.antt =====
-- The loop of klmalloc_skip_list_delete that takes a block out of its levels.
use mathlib.Core.Path.{subst}
use balloon.Base.{
  ℕ, zero, suc, ◌+◌, ◌≤◌, ◌<◌, ◌≡◌, ◌≢◌, refl, sym, ◌∙◌, inl, inr, true, false, List, [], ◌∷◌, ◌++◌,
  arith, leb, ltb, ◌==◌, if◌then◌else◌, Bool-cases,
}
use balloon.Ram.Frame.{load32-store32_self}
use balloon.Machine.{Kernel, get, put}
use balloon.Heap.Header.{forward_of}
use balloon.Heap.Skip.{skip_max_level, unlink}
use balloon.Heap.Skip.Levels.{
  Block, Every, level, Chain, Beside, Separate, last, level-append, level_tall, level_low,
  Every-append, append-Every, Every-level, Every-map, get-forward, Away, get-Away, Every-last,
  Chain-same,
}
use balloon.Heap.Skip.Search.{Chain-last, Chain-append}
use balloon.Heap.Skip.Splice.{nodes, before, before-Placed, first_lt, first-other, level-Separate}

-- One level of the list, with the block behind the last of `xs` taken out.
delete-Chain :
    (k k' : Kernel) (i : ℕ) (p v : Block) (xs ys : List Block)
    → Separate (p ∷ (xs ++ ys))
    → ((q : ℕ) → Beside (last p.0 xs) q → get k' (forward_of q i) ≡ get k (forward_of q i))
    → get k' (forward_of (last p.0 xs) i) ≡ get k (forward_of v.0 i)
    → Chain k i p.0 (xs ++ (v ∷ ys))
    → Chain k' i p.0 (xs ++ ys)
unfolding Chain
delete-Chain k k' i p v [] [] s same here c = here ∙ c.1
delete-Chain k k' i p v [] (b ∷ ys) s same here c = (
  here ∙ c.1.0,
  Chain-same k k' i b.0 ys (same b.0 s.0.0) (Every-map _ _ ys (λ q h. same q.0 h) s.0.1) c.1.1,
)
delete-Chain k k' i p v (x ∷ xs) ys s same here c =
    let beside =
      Every-last (λ q. Beside q p.0) x.0 xs (ground (arith, s.0.0))
        (Every-map _ _ xs (λ b h. ground (arith, h)) (Every-append _ xs ys s.0.1).0) in
    (same p.0 beside ∙ c.0, delete-Chain k k' i x v xs ys s.1 same here c.1)

module _ (head : ℕ) (v : Block) (xs ys : List Block) where
  -- The list of a level while the block is taken out of the levels below `n`.
  abbrev pub cut : (n j : ℕ) → List Block
  cut n j = if ltb j n then level j xs ++ level j ys else level j xs ++ level j (v ∷ ys)

  cut_below : (n j : ℕ) → ltb j n ≡ true → cut n j ≡ level j xs ++ level j ys
  cut_below n j below = rw below refl

  cut_above : (n j : ℕ) → ltb j n ≡ false → v.1 < j → cut n j ≡ level j xs ++ level j ys
  cut_above n j above low = rw (above, level_low j v ys low) refl

  Every-cut : (Q : Block → Type 0) (n j : ℕ) → Every Q (v ∷ (xs ++ ys)) → Every Q (cut n j)
  Every-cut Q n j (q, qs) =
      let (qx, qy) = Every-append Q xs ys qs in
      elim (Bool-cases (ltb j n)) [
        | inl below ↦ rw below (
            append-Every Q (level j xs) (level j ys) (Every-level Q j xs qx)
              (Every-level Q j ys qy))
        | inr above ↦ rw above (
            append-Every Q (level j xs) (level j (v ∷ ys)) (Every-level Q j xs qx)
              (Every-level Q j (v ∷ ys) (q, qy)))
      ]

  abbrev pub Unlinked : Kernel → (n : ℕ) → Type 0
  Unlinked k n = (j : ℕ) → j ≤ skip_max_level → Chain k j head (cut n j)

  abbrev pub at : (i : ℕ) → ℕ
  at i = before head v xs ys i

  -- One turn of the loop.
  abbrev pub unlink_step : (k : Kernel) (i : ℕ) → Kernel
  unlink_step k i = put k (forward_of (at i) i) (get k (forward_of v.0 i))

  module _ (apart : Separate (nodes head v xs ys))
      (range : Every (λ b. (0 < b.0) × (b.0 < 0x1_0000_0000)) (v ∷ (xs ++ ys))) where
    cut_level-Chain :
        (k : Kernel) (i : ℕ)
        → i ≤ skip_max_level
        → Chain k i head (level i xs ++ (v ∷ level i ys))
        → Chain (unlink_step k i) i head (level i xs ++ level i ys)
    cut_level-Chain k i hi c =
        let ((beside_head, others), (beside_v, separate)) = apart in
        let next = get k (forward_of v.0 i) in
        let bound : next < 0x1_0000_0000 =
          rw
            (Chain-last k i v.0 [] (level i ys)
              (Chain-append k i head (level i xs) v (level i ys) c))
            (first_lt (level i ys) (
              Every-map _ _ (level i ys) (λ b r. r.1)
                (Every-level _ i ys (Every-append _ xs ys range.1).1))) in
        delete-Chain k (unlink_step k i) i (head, 0) v (level i xs) (level i ys)
          (subst (λ zs. Separate ((head, 0) ∷ zs)) (level-append i xs ys)
            (Every-level _ i (xs ++ ys) others, level-Separate i (xs ++ ys) separate))
          (λ q u_q. get-forward k (at i) q i i next (inr u_q) hi hi (inl u_q))
          (load32-store32_self k.ram (forward_of (at i) i) next bound) c

    step-Unlinked :
        (k : Kernel) (i : ℕ)
        → i ≤ skip_max_level
        → i ≤ v.1
        → Unlinked k i
        → Unlinked (unlink_step k i) (suc i)
    step-Unlinked k i hi tall s j hj = elim (Bool-cases (j == i)) [
      | inr other ↦
          let ne : i ≢ j = ground arith in
          let same : cut (suc i) j ≡ cut i j = ground arith in
          let kept : Every
              (λ b. get (unlink_step k i) (forward_of b.0 j) ≡ get k (forward_of b.0 j))
              (nodes head v xs ys) =
            Every-map _ _ (nodes head v xs ys)
              (λ b h. get-forward k (at i) b.0 i j (get k (forward_of v.0 i)) h hi hj (inr ne))
              (before-Placed head v xs ys i apart) in
          rw same (
            Chain-same k (unlink_step k i) j head (cut i j) kept.0
              (Every-cut (λ b. get (unlink_step k i) (forward_of b.0 j) ≡ get k (forward_of b.0 j))
                i j kept.1)
              (s j hj))
      | inl here ↦
          let e : j ≡ i = ground arith in
          let last_cut : cut (suc i) i ≡ level i xs ++ level i ys = ground arith in
          let first_cut : cut i i ≡ level i xs ++ (v ∷ level i ys) =
            (let no : ltb i i ≡ false = ground arith in rw (no, level_tall i v ys tall) refl) in
          rw (e, last_cut)
            (cut_level-Chain k i hi (subst (λ zs. Chain k i head zs) first_cut (s i hi)))
    ]

    -- A level that does not hold the block: the loop stops there.
    absent :
        (k : Kernel) (i : ℕ)
        → i ≤ skip_max_level
        → v.1 < i
        → Unlinked k i
        → (get k (forward_of (at i) i) == v.0) ≡ false
    absent k i hi low s =
        let here : cut i i ≡ level i xs ++ level i ys =
          (let no : ltb i i ≡ false = ground arith in rw (no, level_low i v ys low) refl) in
        rw
          (Chain-last k i head (level i xs) (level i ys)
            (subst (λ zs. Chain k i head zs) here (s i hi)))
          (first-other v.0 (level i ys) range.0.0
            (Every-level _ i ys (Every-append _ xs ys apart.1.0).1))

    present :
        (k : Kernel) (i : ℕ)
        → i ≤ skip_max_level
        → i ≤ v.1
        → Unlinked k i
        → get k (forward_of (at i) i) ≡ v.0
    present k i hi tall s =
        let here : cut i i ≡ level i xs ++ (v ∷ level i ys) =
          (let no : ltb i i ≡ false = ground arith in rw (no, level_tall i v ys tall) refl) in
        Chain-last k i head (level i xs) (v ∷ level i ys)
          (subst (λ zs. Chain k i head zs) here (s i hi))

    all_cut :
        (k : Kernel) (i : ℕ)
        → v.1 < i
        → Unlinked k i
        → (j : ℕ) → j ≤ skip_max_level
        → Chain k j head (level j xs ++ level j ys)
    all_cut k i low s j hj = elim (Bool-cases (ltb j i)) [
      | inl below ↦ rw (sym (cut_below i j below)) (s j hj)
      | inr above ↦ rw (sym (cut_above i j above (ground arith))) (s j hj)
    ]

    pub unlink_lem :
        (from n : ℕ) (update : ℕ → ℕ) (k : Kernel)
        → from + n ≤ suc skip_max_level
        → v.1 < from + n
        → ((j : ℕ) → j < from + n → update j ≡ at j)
        → Unlinked k from
        → (j : ℕ) → j ≤ skip_max_level
        → Chain (unlink k v.0 from n update) j head (level j xs ++ level j ys)
    unfolding unlink
    unlink_lem from zero update k le low known s = all_cut k from (omega arith) s
    unlink_lem from (suc n) update k le low known s = elim (Bool-cases (leb from v.1)) [
      | inr high ↦
          rw (known from (omega arith), absent k from (omega arith) (ground arith) s)
            (all_cut k from (ground arith) s)
      | inl tall ↦
          let tall' : from ≤ v.1 = ground arith in
          let now : (get k (forward_of (at from) from) == v.0) ≡ true =
            ground (arith, present k from (omega arith) tall' s) in
          let next : suc from ≡ from + 1 = omega arith in
          let stepped : Unlinked (unlink_step k from) (from + 1) =
            subst (λ m. Unlinked (unlink_step k from) m) next
              (step-Unlinked k from (omega arith) tall' s) in
          rw (known from (omega arith), now)
            (unlink_lem (from + 1) n update (unlink_step k from) (omega arith) (omega arith)
              (λ j h. known j (omega arith)) stepped)
    ]

    -- Words beside the pointers of the list stay.
    pub unlink-get :
        (from n : ℕ) (update : ℕ → ℕ) (a : ℕ) (k : Kernel)
        → from + n ≤ suc skip_max_level
        → ((j : ℕ) → j < from + n → update j ≡ at j)
        → Every (λ b. Away a b.0) (nodes head v xs ys)
        → get (unlink k v.0 from n update) a ≡ get k a
    unfolding unlink
    unlink-get from zero update a k le known away = refl
    unlink-get from (suc n) update a k le known away =
        let u_away =
          Every-last (λ q. Away a q) head (level from xs) away.0
            (Every-level _ from xs (Every-append _ xs ys away.1.1).0) in
        elim (Bool-cases (get k (forward_of (at from) from) == v.0)) [
          | inr stop ↦ rw (known from (omega arith), stop) refl
          | inl go ↦
              rw (known from (omega arith), go)
                (unlink-get (from + 1) n update a (unlink_step k from) (omega arith)
                    (λ j h. known j (omega arith)) away
                  ∙ get-Away k a (at from) from (get k (forward_of v.0 from)) u_away (omega arith))
        ]

-- The loop stores to the memory only.
pub unlink_rest :
    (node from n : ℕ) (update : ℕ → ℕ) (k : Kernel)
    → unlink k node from n update ≡ record k { ram = (unlink k node from n update).ram }
unfolding unlink
unlink_rest node from zero update k = refl
unlink_rest node from (suc n) update k =
    elim (Bool-cases (get k (forward_of (update from) from) == node)) [
      | inr stop ↦ rw stop refl
      | inl go ↦ rw go (
          unlink_rest node (from + 1) n update
            (put k (forward_of (update from) from) (get k (forward_of node from))))
    ]
