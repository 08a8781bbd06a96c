-- ===== src/Libc/Memory/Copy.antt =====
-- What memset, memcpy and memmove leave in memory.
use balloon.Base.{
  ℕ, Bool, zero, suc, ◌+◌, ◌-◌, ◌≤◌, ◌≡◌, ◌⊎◌, inl, inr, ◌&&◌, ltb, leb, if◌then◌else◌, arith, u8,
  Bool-cases,
}
use balloon.Ram.Access.{Ram, store8, load32}
use balloon.Ram.Frame.{IsBytes, store8-IsBytes, load32_ext}
use balloon.Libc.Memory.{copy_up, copy_down, memcpy, memset, memmove}

-- `x` is one of the `len` addresses from `a` on
abbrev pub within : ℕ → ℕ → ℕ → Bool
within a len x = leb a x && ltb x (a + len)

pub memset_lem :
    (m : Ram) (dest val len x : ℕ)
    → memset m dest val len x ≡ (if within dest len x then u8 val else m x)
unfolding memset store8
memset_lem m dest val zero x = ground arith
memset_lem m dest val (suc len) x =
    ground (arith, memset_lem (store8 m dest val) (dest + 1) val len x)

-- The upward copy is right if the target does not start inside the source.
copy_up_lem :
    (m : Ram) (dp sp len x : ℕ)
    → IsBytes m
    → (dp ≤ sp) ⊎ (sp + len ≤ dp)
    → copy_up m dp sp len x ≡ (if within dp len x then m (sp + (x - dp)) else m x)
unfolding copy_up store8
copy_up_lem m dp sp zero x b h = ground arith
copy_up_lem m dp sp (suc len) x b h = ground (
  arith,
  b sp,
  copy_up_lem (store8 m dp (m sp)) (dp + 1) (sp + 1) len x (store8-IsBytes m dp (m sp) b),
)

copy_down_lem :
    (m : Ram) (dest src n x : ℕ)
    → IsBytes m
    → (src ≤ dest)
    → copy_down m dest src n x ≡ (if within dest n x then m (src + (x - dest)) else m x)
unfolding copy_down store8
copy_down_lem m dest src zero x b h = ground arith
copy_down_lem m dest src (suc n) x b h = ground (
  arith,
  b (src + n),
  copy_down_lem (store8 m (dest + n) (m (src + n))) dest src n x
      (store8-IsBytes m (dest + n) (m (src + n)) b),
)

-- memcpy leaves the source bytes in the target, and nothing else changes, if the target starts
-- below the source or past its end.
pub memcpy_lem :
    (m : Ram) (dest src len x : ℕ)
    → IsBytes m
    → (dest ≤ src) ⊎ (src + len ≤ dest)
    → memcpy m dest src len x ≡ (if within dest len x then m (src + (x - dest)) else m x)
unfolding memcpy
memcpy_lem m dest src len x b h = copy_up_lem m dest src len x b h

-- memmove leaves in the target the bytes that the source held before, and the rest of memory as it
-- was, however the two ranges overlap.
pub memmove_lem :
    (m : Ram) (dest src n x : ℕ)
    → IsBytes m
    → memmove m dest src n x ≡ (if within dest n x then m (src + (x - dest)) else m x)
unfolding memmove
memmove_lem m dest src n x b = elim (Bool-cases (ltb dest src)) [
  | inl up ↦ rw up (copy_up_lem m dest src n x b (ground arith))
  | inr down ↦ rw down (copy_down_lem m dest src n x b (ground arith))
]

-- Words beside and inside a range that memset cleared.
pub load32-memset_apart :
    (m : Ram) (dest val len a : ℕ)
    → (a + 4 ≤ dest) ⊎ (dest + len ≤ a)
    → load32 (memset m dest val len) a ≡ load32 m a
load32-memset_apart m dest val len a h =
    load32_ext (memset m dest val len) m a (λ x lo hi. ground (arith, memset_lem m dest val len x))

pub load32-memset_zero :
    (m : Ram) (dest len a : ℕ) → dest ≤ a → a + 4 ≤ dest + len → load32 (memset m dest 0 len) a ≡ 0
unfolding load32
load32-memset_zero m dest len a lo hi = ground (
  arith,
  memset_lem m dest 0 len a,
  memset_lem m dest 0 len (a + 1),
  memset_lem m dest 0 len (a + 2),
  memset_lem m dest 0 len (a + 3),
)
