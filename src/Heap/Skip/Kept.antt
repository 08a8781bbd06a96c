-- ===== src/Heap/Skip/Kept.antt =====
-- What keeps a skip list: a state whose headers have the same sizes and pointers.
use mathlib.Core.Path.{subst}
use balloon.Base.{ℕ, sym, ◌+◌, ◌≤◌, ◌≡◌, refl, ◌⊎◌, List, ◌∷◌, arith}
use balloon.Ram.Frame.{load32-store32_apart}
use balloon.Machine.{Kernel, get, put}
use balloon.Heap.Header.{big_header_size, size_of, forward_of}
use balloon.Heap.Skip.{skip_max_level}
use balloon.Heap.Skip.Levels.{
  Block, Every, level, Chain, SkipList, Every-level, Every-map, Chain-same, Sorted-same,
}

abbrev pub SameHeader : (k k' : Kernel) (p : ℕ) → Type 0
SameHeader k k' p =
    (get k' (size_of p) ≡ get k (size_of p))
    × ((i : ℕ) → i ≤ skip_max_level → get k' (forward_of p i) ≡ get k (forward_of p i))

pub kept-SkipList :
    (k k' : Kernel) (ns : List Block)
    → k'.big_head ≡ k.big_head
    → k'.level ≡ k.level
    → Every (λ b. SameHeader k k' b.0) ((k.big_head, 0) ∷ ns)
    → SkipList k ns
    → SkipList k' ns
kept-SkipList k k' ns head_eq level_eq same s = record {
  in_range = s.in_range;
  apart_from_head = rw head_eq s.apart_from_head;
  separate = s.separate;
  sorted = Sorted-same k k' ns (Every-map _ _ ns (λ b h. h.0) same.1) s.sorted;
  heights = rw level_eq s.heights;
  max_level = rw level_eq s.max_level;
  chains = λ i hi.
      subst (λ p. Chain k' i p (level i ns)) (sym head_eq)
        (Chain-same k k' i k.big_head (level i ns) (same.0.1 i hi)
          (Every-level _ i ns (Every-map _ _ ns (λ b h. h.1 i hi) same.1)) (s.chains i hi));
}

-- A word that is neither a size nor a pointer of the header `p`.
abbrev pub Outside : (a p : ℕ) → Type 0
Outside a p = (a + 4 ≤ p + 8) ⊎ (p + big_header_size ≤ a)

pub put-SameHeader : (k : Kernel) (a v p : ℕ) → Outside a p → SameHeader k (put k a v) p
put-SameHeader k a v p out = (
  load32-store32_apart k.ram a v (size_of p) (ground (arith, out)),
  λ i hi. load32-store32_apart k.ram a v (forward_of p i) (ground (arith, out)),
)

pub put-SkipList :
    (k : Kernel) (a v : ℕ) (ns : List Block)
    → Every (λ b. Outside a b.0) ((k.big_head, 0) ∷ ns)
    → SkipList k ns
    → SkipList (put k a v) ns
put-SkipList k a v ns out s =
    kept-SkipList k (put k a v) ns refl refl
      (Every-map _ _ ((k.big_head, 0) ∷ ns) (λ b h. put-SameHeader k a v b.0 h) out) s
