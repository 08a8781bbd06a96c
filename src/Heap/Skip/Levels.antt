-- ===== src/Heap/Skip/Levels.antt =====
-- The skip list of free blocks as a list of addresses with heights: a block of height `h` stands in
-- the linked lists of the levels 0 to h, and what its other pointers hold does not matter.
use balloon.Base.{
  ℕ, ◌+◌, ◌≤◌, ◌<◌, ◌≡◌, refl, ◌∙◌, ap, ◌⊎◌, ◌≢◌, inl, inr, true, false, List, [], ◌∷◌, ◌++◌, arith,
  leb, if◌then◌else◌, Bool-cases, length,
}
use balloon.Ram.Frame.{load32-store32_apart}
use balloon.Machine.{Kernel, get, put}
use balloon.Heap.Header.{big_header_size, size_of, forward_of}
use balloon.Heap.Skip.{skip_max_level}

-- the address and the height of a block
abbrev pub Block : Type 0
Block = ℕ × ℕ

abbrev pub Every {ℓ} : {A : Type ℓ} → (A → Type 0) → List A → Type 0
Every Q [] = Unit {0}
Every Q (x ∷ xs) = Q x × Every Q xs

-- The blocks that stand in the linked list of a level.
unfoldable pub level : (i : ℕ) → List Block → List Block
level i [] = []
level i (b ∷ ns) = if leb i b.1 then b ∷ level i ns else level i ns

-- The linked list of a level, behind `p`.
unfoldable pub Chain : Kernel → (i p : ℕ) → List Block → Type 0
Chain k i p [] = get k (forward_of p i) ≡ 0
Chain k i p (b ∷ ns) = (get k (forward_of p i) ≡ b.0) × Chain k i b.0 ns

-- Two headers do not overlap.
abbrev pub Beside : (p q : ℕ) → Type 0
Beside p q = (p + big_header_size ≤ q) ⊎ (q + big_header_size ≤ p)

abbrev pub Separate : List Block → Type 0
Separate [] = Unit {0}
Separate (b ∷ ns) = Every (λ c. Beside b.0 c.0) ns × Separate ns

-- Blocks by ascending size.
abbrev pub Sorted : Kernel → List Block → Type 0
Sorted k [] = Unit {0}
Sorted k (b ∷ ns) = Every (λ c. get k (size_of b.0) ≤ get k (size_of c.0)) ns × Sorted k ns

-- The free blocks `ns`, in the order of the list.
pub record SkipList (k : Kernel) (ns : List Block) : Type 0 where
  pub in_range : Every (λ b. (0 < b.0) × (b.0 < 0x1_0000_0000)) ns
  pub apart_from_head : Every (λ b. Beside k.big_head b.0) ns
  pub separate : Separate ns
  pub sorted : Sorted k ns
  pub heights : Every (λ b. b.1 ≤ k.level) ns
  pub max_level : k.level ≤ skip_max_level
  pub chains : (i : ℕ) → i ≤ skip_max_level → Chain k i k.big_head (level i ns)

-- The address at the end of a list behind `p`.
abbrev pub last : (p : ℕ) → List Block → ℕ
last p [] = p
last p (b ∷ ns) = last b.0 ns

pub level-append : (i : ℕ) (xs ys : List Block) → level i (xs ++ ys) ≡ level i xs ++ level i ys
unfolding level
level-append i [] ys = refl
level-append i (b ∷ xs) ys = elim (Bool-cases (leb i b.1)) [
  | inl tall ↦ rw tall (ap (λ zs. b ∷ zs) (level-append i xs ys))
  | inr low ↦ rw low (level-append i xs ys)
]

pub level_tall : (i : ℕ) (b : Block) (ns : List Block) → i ≤ b.1 → level i (b ∷ ns) ≡ b ∷ level i ns
unfolding level
level_tall i b ns h = let tall : leb i b.1 ≡ true = ground arith in rw tall refl

pub level_low : (i : ℕ) (b : Block) (ns : List Block) → b.1 < i → level i (b ∷ ns) ≡ level i ns
unfolding level
level_low i b ns h = let low : leb i b.1 ≡ false = ground arith in rw low refl

pub level_zero : (ns : List Block) → level 0 ns ≡ ns
unfolding level
level_zero [] = refl
level_zero (b ∷ ns) = level_tall 0 b ns (omega arith) ∙ ap (λ zs. b ∷ zs) (level_zero ns)

pub length-level : (i : ℕ) (ns : List Block) → length (level i ns) ≤ length ns
unfolding level
length-level i [] = omega arith
length-level i (b ∷ ns) = ground (arith, length-level i ns)

-- Above the heights of all blocks the list is empty.
pub level_above : (i j : ℕ) (ns : List Block) → Every (λ b. b.1 ≤ j) ns → j < i → level i ns ≡ []
unfolding level
level_above i j [] h lt = refl
level_above i j (b ∷ ns) h lt = level_low i b ns (omega (arith, h.0)) ∙ level_above i j ns h.1 lt

module _ {ℓ} {A : Type ℓ} (Q : A → Type 0) where
  pub append-Every : (xs ys : List A) → Every Q xs → Every Q ys → Every Q (xs ++ ys)
  append-Every [] ys h h' = h'
  append-Every (x ∷ xs) ys h h' = (h.0, append-Every xs ys h.1 h')

  pub Every-append : (xs ys : List A) → Every Q (xs ++ ys) → Every Q xs × Every Q ys
  Every-append [] ys h = (record {}, h)
  Every-append (x ∷ xs) ys h = let (h₁, h₂) = Every-append xs ys h.1 in ((h.0, h₁), h₂)

pub Every-map {ℓ} :
    {A : Type ℓ} (Q R : A → Type 0) (xs : List A) → ((x : A) → Q x → R x) → Every Q xs → Every R xs
Every-map Q R [] f h = record {}
Every-map Q R (x ∷ xs) f h = (f x h.0, Every-map Q R xs f h.1)

pub Every-level : (Q : Block → Type 0) (i : ℕ) (ns : List Block) → Every Q ns → Every Q (level i ns)
unfolding level
Every-level Q i [] h = record {}
Every-level Q i (b ∷ ns) h = elim (Bool-cases (leb i b.1)) [
  | inl tall ↦ rw tall (h.0, Every-level Q i ns h.1)
  | inr low ↦ rw low (Every-level Q i ns h.1)
]

-- A list is cut where the sizes reach `size`.
pub split :
    (k : Kernel) (size : ℕ) (ns : List Block)
    → Sorted k ns
    → (xs ys : List Block) × (ns ≡ xs ++ ys)
      × Every (λ b. get k (size_of b.0) < size) xs
      × Every (λ b. size ≤ get k (size_of b.0)) ys
split k size [] s = ([], [], refl, record {}, record {})
split k size (b ∷ ns) s = elim (Bool-cases (leb size (get k (size_of b.0)))) [
  | inl reached ↦
      let low : size ≤ get k (size_of b.0) = ground arith in
      ([], b ∷ ns, refl, record {}, (low, Every-map _ _ ns (λ c le. omega (arith, le, low)) s.0))
  | inr smaller ↦
      let (xs, ys, e, below, above) = split k size ns s.1 in
      (b ∷ xs, ys, ap (λ zs. b ∷ zs) e, (ground arith, below), above)
]

pub Every-both {ℓ} :
    {A : Type ℓ} (Q R : A → Type 0) (xs : List A)
    → Every Q xs
    → Every R xs
    → Every (λ x. Q x × R x) xs
Every-both Q R [] h h' = record {}
Every-both Q R (x ∷ xs) h h' = ((h.0, h'.0), Every-both Q R xs h.1 h'.1)

-- Two headers are the same or do not overlap.
abbrev pub Placed : (p q : ℕ) → Type 0
Placed p q = (p ≡ q) ⊎ Beside p q

pub Separate-Placed :
    (ns : List Block) → Separate ns → Every (λ b. Every (λ c. Placed b.0 c.0) ns) ns
Separate-Placed [] s = record {}
Separate-Placed (b ∷ ns) (beside, s) = (
  (inl refl, Every-map _ _ ns (λ c h. inr h) beside),
  Every-map _ _ ns (λ c h. (ground (arith, h.0), h.1))
      (Every-both _ _ ns beside (Separate-Placed ns s)),
)

-- The store of a pointer, and the words beside it.
pub get-forward :
    (k : Kernel) (p q i j v : ℕ)
    → Placed p q
    → i ≤ skip_max_level
    → j ≤ skip_max_level
    → (Beside p q) ⊎ (i ≢ j)
    → get (put k (forward_of p i) v) (forward_of q j) ≡ get k (forward_of q j)
get-forward k p q i j v placed hi hj other =
    load32-store32_apart k.ram (forward_of p i) v (forward_of q j) (ground arith)

-- A word that is no pointer of the skip list in the header `p`.
abbrev pub Away : (a p : ℕ) → Type 0
Away a p = (a + 4 ≤ p + 20) ⊎ (p + big_header_size ≤ a)

pub get-Away :
    (k : Kernel) (a p i v : ℕ)
    → Away a p
    → i ≤ skip_max_level
    → get (put k (forward_of p i) v) a ≡ get k a
get-Away k a p i v away h = load32-store32_apart k.ram (forward_of p i) v a (ground arith)

-- What holds of the blocks holds of the last one.
pub Every-last :
    (Q : ℕ → Type 0) (p : ℕ) (xs : List Block) → Q p → Every (λ b. Q b.0) xs → Q (last p xs)
Every-last Q p [] h hs = h
Every-last Q p (x ∷ xs) h hs = Every-last Q x.0 xs hs.0 hs.1

-- A chain whose pointers stay.
pub Chain-same :
    (k k' : Kernel) (i p : ℕ) (ns : List Block)
    → get k' (forward_of p i) ≡ get k (forward_of p i)
    → Every (λ b. get k' (forward_of b.0 i) ≡ get k (forward_of b.0 i)) ns
    → Chain k i p ns
    → Chain k' i p ns
unfolding Chain
Chain-same k k' i p [] e es c = e ∙ c
Chain-same k k' i p (b ∷ ns) e es c = (e ∙ c.0, Chain-same k k' i b.0 ns es.0 es.1 c.1)

pub Sorted-same :
    (k k' : Kernel) (ns : List Block)
    → Every (λ b. get k' (size_of b.0) ≡ get k (size_of b.0)) ns
    → Sorted k ns
    → Sorted k' ns
Sorted-same k k' [] es s = record {}
Sorted-same k k' (b ∷ ns) es s = (
  Every-map _ _ ns (λ c h. omega (arith, h.0, h.1, es.0)) (Every-both _ _ ns s.0 es.1),
  Sorted-same k k' ns es.1 s.1,
)

-- What keeps the words beside the pointers keeps the sizes.
pub kept_sizes :
    (k k' : Kernel) (ns : List Block)
    → Separate ns
    → ((a : ℕ) → Every (λ b. Away a b.0) ns → get k' a ≡ get k a)
    → Every (λ b. get k' (size_of b.0) ≡ get k (size_of b.0)) ns
kept_sizes k k' ns s frame =
    Every-map _ _ ns
      (λ b h.
        frame (size_of b.0) (Every-map (λ c. Placed b.0 c.0) _ ns (λ c q. ground (arith, q)) h))
      (Separate-Placed ns s)
