-- ===== src/Heap/Skip.antt =====
-- The skip list of free big blocks. A `while` loop over the list takes fuel, and `none` says that
-- the fuel ran out. An `assert` of the source is an empty macro, so it has no part here.
pub mod Best
pub mod Delete
pub mod Insert
pub mod Kept
pub mod Levels
pub mod Search
pub mod Splice
pub mod Unlink
use balloon.Base.{
  ℕ, zero, suc, ◌+◌, ◌-◌, ◌&&◌, not, Option, none, some, bit_xor, ltb, leb, ◌==◌, if◌then◌else◌,
  ◌<<◌, ◌>>◌,
}
use balloon.Machine.{Rng, Kernel, get, put}
use balloon.Heap.Header.{size_of, forward_of}

abbrev pub skip_max_level : ℕ
skip_max_level = 6

abbrev pub skip_p : ℕ
skip_p = 0x7fff_ffff

infixl 5 ◌>>=◌
abbrev pub ◌>>=◌ {ℓ κ} : {A : Type ℓ} {B : Type κ} → Option A → (A → Option B) → Option B
none >>= f = none
some a >>= f = f a

unfoldable pub skip_rand : Rng → ℕ × Rng
skip_rand r =
    let t = bit_xor r.x (r.x << 11) in
    let w = bit_xor (bit_xor (bit_xor r.w (r.w >> 19)) t) (t >> 8) in
    (w, record { x = r.y; y = r.z; z = r.w; w = w })

-- `left` is SKIP_MAX_LEVEL - level; the generator is asked once more where it is 0.
unfoldable pub random_level_loop : (left level : ℕ) → Rng → ℕ × Rng
random_level_loop zero level r = (level, (skip_rand r).1)
random_level_loop (suc left) level r =
    let rest = random_level_loop left (suc level) (skip_rand r).1 in
    if ltb (skip_rand r).0 skip_p then rest else (level, (skip_rand r).1)

unfoldable pub random_level : Rng → ℕ × Rng
random_level r = random_level_loop skip_max_level 0 r

-- while (node->forward[i] && node->forward[i]->size < size) node = node->forward[i];
unfoldable pub walk : (fuel : ℕ) → Kernel → (i node size : ℕ) → Option ℕ
walk zero k i node size = none
walk (suc fuel) k i node size =
    let next = get k (forward_of node i) in
    let rest = walk fuel k i next size in
    if not (next == 0) && ltb (get k (size_of next)) size then rest else some node

-- The walk at the levels i - 1, ..., 0: the node that it ends at, and the node at which it left
-- each level. `update` is a local array of the source, whose cells are written before they are read.
unfoldable pub descend : (fuel : ℕ) → Kernel → (i node size : ℕ) → (ℕ → ℕ) → Option (ℕ × (ℕ → ℕ))
descend fuel k zero node size update = some (node, update)
descend fuel k (suc i) node size update =
    walk fuel k i node size >>= λ n. descend fuel k i n size (λ j. if j == i then n else update j)

unfoldable pub skip_list_findbest : (fuel : ℕ) → Kernel → ℕ → Option ℕ
skip_list_findbest fuel k search_size =
    descend fuel k (suc k.level) k.big_head search_size (λ _. 0) >>= λ (node, _).
    some (get k (forward_of node 0))

-- for (i = from; i < from + n; ++i) update[i] = &klmalloc_big_bins.head;
unfoldable pub fill_update : (head from n : ℕ) → (ℕ → ℕ) → ℕ → ℕ
fill_update head from n update j = if leb from j && ltb j (from + n) then head else update j

-- for (i = from; i < from + n; ++i) { node->forward[i] = update[i]->forward[i];
-- update[i]->forward[i] = node; }
unfoldable pub splice : Kernel → (node from n : ℕ) → (ℕ → ℕ) → Kernel
splice k node from zero update = k
splice k node from (suc n) update =
    let k₁ = put k (forward_of node from) (get k (forward_of (update from) from)) in
    let k₂ = put k₁ (forward_of (update from) from) node in splice k₂ node (from + 1) n update

-- The insertion behind the search, for the level that was drawn.
unfoldable pub insert_at : Kernel → (value level : ℕ) → (ℕ → ℕ) → Kernel
insert_at k value level update =
    if ltb k.level level
    then splice (record k { level = level }) value 0 (suc level)
        (fill_update k.big_head (k.level + 1) (level - k.level) update)
    else splice k value 0 (suc level) update

unfoldable pub skip_list_insert : (fuel : ℕ) → Kernel → ℕ → Option Kernel
skip_list_insert fuel k value =
    descend fuel k (suc k.level) k.big_head (get k (size_of value)) (λ _. 0) >>= λ (node, update).
    some (
      if get k (forward_of node 0) == value
      then k
      else (let (level, rng) = random_level k.rng in
          insert_at (record k { rng = rng }) value level update))

-- while (node != value) node = node->forward[0];
unfoldable pub seek : (fuel : ℕ) → Kernel → (node value : ℕ) → Option ℕ
seek zero k node value = none
seek (suc fuel) k node value =
    let rest = seek fuel k (get k (forward_of node 0)) value in
    if node == value then some node else rest

-- for (i = from; i < from + n; ++i), with the `break` at a level that does not hold the node
unfoldable pub unlink : Kernel → (node from n : ℕ) → (ℕ → ℕ) → Kernel
unlink k node from zero update = k
unlink k node from (suc n) update =
    let rest =
      unlink (put k (forward_of (update from) from) (get k (forward_of node from))) node (from + 1)
        n update in
    if get k (forward_of (update from) from) == node then rest else k

-- while (level > 0 && head.forward[level] == NULL) --level;
unfoldable pub lower_level : Kernel → ℕ → ℕ
lower_level k zero = zero
lower_level k (suc level) =
    if get k (forward_of k.big_head (suc level)) == 0 then lower_level k level else suc level

-- The loop that seeks `value` ends only at `value`, so what the source does for another node is
-- never reached.
unfoldable pub skip_list_delete : (fuel : ℕ) → Kernel → ℕ → Option Kernel
skip_list_delete fuel k value =
    descend fuel k (suc k.level) k.big_head (get k (size_of value)) (λ _. 0) >>= λ (node, update).
    seek fuel k (get k (forward_of node 0)) value >>= λ found.
    let k' = unlink k found 0 (suc k.level) update in
    some (record k' { level = lower_level k' k'.level })
