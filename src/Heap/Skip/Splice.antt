-- ===== src/Heap/Skip/Splice.antt =====
-- The loop of klmalloc_skip_list_insert that links a block in at each of its levels.
use mathlib.Core.Path.{subst}
use balloon.Base.{
  ℕ, zero, suc, ◌+◌, ◌≤◌, ◌<◌, ◌≡◌, ◌≢◌, refl, ◌∙◌, inl, inr, false, List, [], ◌∷◌, ◌++◌, arith,
  leb, ltb, ◌==◌, if◌then◌else◌, Bool-cases,
}
use balloon.Ram.Frame.{load32-store32_self}
use balloon.Machine.{Kernel, get, put}
use balloon.Heap.Header.{forward_of}
use balloon.Heap.Skip.{skip_max_level, splice}
use balloon.Heap.Skip.Levels.{
  Block, Every, level, Chain, Beside, Separate, last, level-append, Every-append, append-Every,
  Every-level, Every-map, Every-both, Placed, Separate-Placed, get-forward, Away, get-Away,
  Every-last, Chain-same,
}
use balloon.Heap.Skip.Search.{first, Chain-last}

-- The blocks behind the last of `xs` do not overlap it.
pub Separate-last :
    (b : Block) (xs ys : List Block)
    → Separate (b ∷ (xs ++ ys))
    → Every (λ c. Beside (last b.0 xs) c.0) ys
Separate-last b [] ys s = s.0
Separate-last b (x ∷ xs) ys s = Separate-last x xs ys s.1

-- One level of the list, with the block `v` put behind the last of `xs`.
insert-Chain :
    (k k' : Kernel) (i : ℕ) (p v : Block) (xs ys : List Block)
    → Separate (p ∷ (xs ++ ys))
    → Every (λ b. Beside v.0 b.0) (p ∷ (xs ++ ys))
    → ((q : ℕ)
        → Beside (last p.0 xs) q
        → Beside v.0 q
        → get k' (forward_of q i) ≡ get k (forward_of q i))
    → get k' (forward_of (last p.0 xs) i) ≡ v.0
    → get k' (forward_of v.0 i) ≡ get k (forward_of (last p.0 xs) i)
    → Chain k i p.0 (xs ++ ys)
    → Chain k' i p.0 (xs ++ (v ∷ ys))
unfolding Chain
insert-Chain k k' i p v [] [] s away same here there c = (here, there ∙ c)
insert-Chain k k' i p v [] (b ∷ ys) s away same here there c = (
  here,
  (
    there ∙ c.0,
    Chain-same k k' i b.0 ys (same b.0 s.0.0 away.1.0)
        (Every-map _ _ ys (λ q h. same q.0 h.0 h.1) (Every-both _ _ ys s.0.1 away.1.1)) c.1,
  ),
)
insert-Chain k k' i p v (x ∷ xs) ys s away same here there c =
    let beside =
      Every-last (λ q. Beside q p.0) x.0 xs (ground (arith, s.0.0))
        (Every-map _ _ xs (λ b h. ground (arith, h)) (Every-append _ xs ys s.0.1).0) in
    (same p.0 beside away.0 ∙ c.0, insert-Chain k k' i x v xs ys s.1 away.1 same here there c.1)

-- The blocks of a level are apart when all are.
pub level-Separate : (i : ℕ) (ns : List Block) → Separate ns → Separate (level i ns)
unfolding level
level-Separate i [] s = record {}
level-Separate i (b ∷ ns) s = elim (Bool-cases (leb i b.1)) [
  | inl tall ↦ rw tall (Every-level _ i ns s.0, level-Separate i ns s.1)
  | inr low ↦ rw low (level-Separate i ns s.1)
]

pub first_lt : (ns : List Block) → Every (λ b. b.0 < 0x1_0000_0000) ns → first ns < 0x1_0000_0000
first_lt [] h = omega arith
first_lt (b ∷ ns) h = h.0

pub first-other :
    (v : ℕ) (ys : List Block) → 0 < v → Every (λ b. Beside v b.0) ys → (first ys == v) ≡ false
first-other v [] h hs = ground arith
first-other v (y ∷ ys) h hs = ground (arith, hs.0)

module _ (head : ℕ) (v : Block) (xs ys : List Block) where
  -- the list header, the new block and the others
  abbrev pub nodes : List Block
  nodes = (head, 0) ∷ v ∷ (xs ++ ys)

  -- The list of a level while the new block stands in the levels below `n`.
  abbrev pub stage : (n j : ℕ) → List Block
  stage n j = if ltb j n then level j xs ++ (v ∷ level j ys) else level j xs ++ level j ys

  abbrev pub Spliced : Kernel → (n : ℕ) → Type 0
  Spliced k n = (j : ℕ) → j ≤ skip_max_level → Chain k j head (stage n j)

  -- the block that the new one is put behind
  abbrev pub before : (i : ℕ) → ℕ
  before i = last head (level i xs)

  Every-stage : (Q : Block → Type 0) (n j : ℕ) → Every Q nodes → Every Q (stage n j)
  Every-stage Q n j (_, (q, qs)) =
      let (qx, qy) = Every-append Q xs ys qs in
      elim (Bool-cases (ltb j n)) [
        | inl below ↦ rw below (
            append-Every Q (level j xs) (v ∷ level j ys) (Every-level Q j xs qx)
              (q, Every-level Q j ys qy))
        | inr above ↦ rw above (
            append-Every Q (level j xs) (level j ys) (Every-level Q j xs qx)
              (Every-level Q j ys qy))
      ]

  pub before-Placed : (i : ℕ) → Separate nodes → Every (λ b. Placed (before i) b.0) nodes
  before-Placed i s =
      let (here, (_, others)) = Separate-Placed nodes s in
      Every-last (λ q. Every (λ b. Placed q b.0) nodes) head (level i xs) here
        (Every-level _ i xs (Every-append _ xs ys others).0)

  -- One turn of the loop that links the new block.
  abbrev pub splice_step : (k : Kernel) (i : ℕ) → Kernel
  splice_step k i =
      put (put k (forward_of v.0 i) (get k (forward_of (before i) i))) (forward_of (before i) i) v.0

  module _ (apart : Separate nodes)
      (range : Every (λ b. b.0 < 0x1_0000_0000) (v ∷ (xs ++ ys))) where
    first-lt : (i : ℕ) → first (level i ys) < 0x1_0000_0000
    first-lt i = first_lt (level i ys) (Every-level _ i ys (Every-append _ xs ys range.1).1)

    at_level-Chain :
        (k : Kernel) (i : ℕ)
        → i ≤ skip_max_level
        → Chain k i head (level i xs ++ level i ys)
        → Chain (splice_step k i) i head (level i xs ++ (v ∷ level i ys))
    at_level-Chain k i hi c =
        let ((beside_head, others), (beside_v, separate)) = apart in
        let u = before i in
        let v_head : Beside v.0 head = ground (arith, beside_head) in
        let u_v : Beside u v.0 =
          Every-last (λ q. Beside q v.0) head (level i xs) beside_head
            (Every-map _ _ (level i xs) (λ b h. ground (arith, h))
              (Every-level _ i xs (Every-append _ xs ys beside_v).0)) in
        let next = get k (forward_of u i) in
        let bound : next < 0x1_0000_0000 =
          rw (Chain-last k i head (level i xs) (level i ys) c) (first-lt i) in
        let k₁ = put k (forward_of v.0 i) next in
        insert-Chain k (splice_step k i) i (head, 0) v (level i xs) (level i ys)
          (subst (λ zs. Separate ((head, 0) ∷ zs)) (level-append i xs ys)
            (Every-level _ i (xs ++ ys) others, level-Separate i (xs ++ ys) separate))
          (subst (λ zs. Every (λ b. Beside v.0 b.0) ((head, 0) ∷ zs)) (level-append i xs ys)
            (v_head, Every-level _ i (xs ++ ys) beside_v))
          (λ q u_q v_q.
            get-forward k₁ u q i i v.0 (inr u_q) hi hi (inl u_q)
            ∙ get-forward k v.0 q i i next (inr v_q) hi hi (inl v_q))
          (load32-store32_self k₁.ram (forward_of u i) v.0 range.0)
          (get-forward k₁ u v.0 i i v.0 (inr u_v) hi hi (inl u_v)
            ∙ load32-store32_self k.ram (forward_of v.0 i) next bound)
          c

    step-Spliced :
        (k : Kernel) (i : ℕ) → i ≤ skip_max_level → Spliced k i → Spliced (splice_step k i) (suc i)
    step-Spliced k i hi s j hj =
        let ((beside_head, _), (beside_v, _)) = apart in
        let placed = before-Placed i apart in
        let placed_v = (Separate-Placed nodes apart).1.0 in
        let u = before i in
        let k₁ = put k (forward_of v.0 i) (get k (forward_of u i)) in
        elim (Bool-cases (j == i)) [
          | inr other ↦
              let ne : i ≢ j = ground arith in
              let same : stage (suc i) j ≡ stage i j = ground arith in
              let kept : Every
                  (λ b. get (splice_step k i) (forward_of b.0 j) ≡ get k (forward_of b.0 j)) nodes =
                Every-map _ _ nodes
                  (λ b h.
                    get-forward k₁ u b.0 i j v.0 h.0 hi hj (inr ne)
                    ∙ get-forward k v.0 b.0 i j (get k (forward_of u i)) h.1 hi hj (inr ne))
                  (Every-both _ _ nodes placed placed_v) in
              rw same (
                Chain-same k (splice_step k i) j head (stage i j) kept.0
                  (Every-stage
                    (λ b. get (splice_step k i) (forward_of b.0 j) ≡ get k (forward_of b.0 j)) i j
                    kept)
                  (s j hj))
          | inl here ↦
              let e : j ≡ i = ground arith in
              let last_stage : stage (suc i) i ≡ level i xs ++ (v ∷ level i ys) = ground arith in
              let first_stage : stage i i ≡ level i xs ++ level i ys = ground arith in
              rw (e, last_stage)
                (at_level-Chain k i hi (subst (λ zs. Chain k i head zs) first_stage (s i hi)))
        ]

    pub splice_lem :
        (k : Kernel) (from n : ℕ) (update : ℕ → ℕ)
        → from + n ≤ suc skip_max_level
        → ((j : ℕ) → j < from + n → update j ≡ before j)
        → Spliced k from
        → Spliced (splice k v.0 from n update) (from + n)
    unfolding splice
    splice_lem k from zero update le known s =
        let e : from ≡ from + 0 = omega arith in subst (λ m. Spliced k m) e s
    splice_lem k from (suc n) update le known s =
        let e : (from + 1) + n ≡ from + suc n = omega arith in
        let next : suc from ≡ from + 1 = omega arith in
        let stepped : Spliced (splice_step k from) (from + 1) =
          subst (λ m. Spliced (splice_step k from) m) next (step-Spliced k from (omega arith) s) in
        let rest =
          splice_lem (splice_step k from) (from + 1) n update (omega arith)
            (λ j h. known j (omega arith)) stepped in
        rw (splice, known from (omega arith))
          (subst (λ m. Spliced (splice (splice_step k from) v.0 (from + 1) n update) m) e rest)

    -- Words beside the pointers of the list stay.
    pub splice-get :
        (k : Kernel) (from n : ℕ) (update : ℕ → ℕ) (a : ℕ)
        → from + n ≤ suc skip_max_level
        → ((j : ℕ) → j < from + n → update j ≡ before j)
        → Every (λ b. Away a b.0) nodes
        → get (splice k v.0 from n update) a ≡ get k a
    unfolding splice
    splice-get k from zero update a le known away = refl
    splice-get k from (suc n) update a le known away =
        let u_away =
          Every-last (λ q. Away a q) head (level from xs) away.0
            (Every-level _ from xs (Every-append _ xs ys away.1.1).0) in
        let k₁ = put k (forward_of v.0 from) (get k (forward_of (before from) from)) in
        rw (splice, known from (omega arith))
          (splice-get (splice_step k from) (from + 1) n update a (omega arith)
              (λ j h. known j (omega arith)) away
            ∙ get-Away k₁ a (before from) from v.0 u_away (omega arith)
            ∙ get-Away k a v.0 from (get k (forward_of (before from) from)) away.1.0 (omega arith))

-- The loop stores to the memory only.
pub splice_rest :
    (node from n : ℕ) (update : ℕ → ℕ) (k : Kernel)
    → splice k node from n update ≡ record k { ram = (splice k node from n update).ram }
unfolding splice
splice_rest node from zero update k = refl
splice_rest node from (suc n) update k =
    let k₁ = put k (forward_of node from) (get k (forward_of (update from) from)) in
    splice_rest node (from + 1) n update (put k₁ (forward_of (update from) from) node)
